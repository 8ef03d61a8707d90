-- ===== src/Window/Pages.antt =====
-- The events of the window as edits of the document that its page container stands for.
use sane_in_the_membrane.Files.FileSystem.{FileSystem}
use sane_in_the_membrane.Common.{
  ℕ, suc, ◌*◌, ◌^◌, ◌≡◌, refl, sym, length, ◌+◌, ◌<◌, ◌≤◌, leb, arith, Bool, true, false, not, List,
  [], ◌∷◌, ltb, if◌then◌else◌, All, Bool-cases, inl, inr, ◌&&◌,
}
use sane_in_the_membrane.Common.Exec.{Exec, ok, ◌>>=◌, Returns, Returns-bind, Returns-ok}
use mathlib.Core.Path.{subst}
use sane_in_the_membrane.View.Container.{MoveDirection, remove_image, move_image}
use sane_in_the_membrane.View.Document.{
  Edit, add, remove, move, edit, PageList, apply, apply_all, Allowed, AllowedAll, Implements,
}
use sane_in_the_membrane.View.Refines.{edit-Implements}
use sane_in_the_membrane.Window.{
  Setting, ScannerParameters, ImageView, save_view, init_image_connections, add_scanned,
  sl_remove_image, sl_move_image, sl_transform, sl_sig_done, sl_save_pdf, sl_document_saved,
  after_save, WindowEvent, shown, scan_done, remove_requested, move_requested, transform_requested,
  save_clicked, handle_event, handle_events,
}

-- The pages of a session bring their numbers, and are not edits.
abbrev pub IsNotShown : WindowEvent → Type 0
IsNotShown (shown base fuel answer) = ⊥
IsNotShown (scan_done status_ok params size path) = Unit
IsNotShown (remove_requested a) = Unit
IsNotShown (move_requested a direction) = Unit
IsNotShown (transform_requested b a) = Unit
IsNotShown (save_clicked answer) = Unit

-- The scan succeeded, and its file has a byte for each pixel.
abbrev pub is_complete : Bool → ScannerParameters → ℕ → Bool
is_complete status_ok params size =
    status_ok && not (ltb size (params.pixels_per_line * params.lines))

-- The number of pixels of a scan that succeeded does not overflow, and if the file has a byte for each,
-- it has the bytes of each line.
abbrev pub IsReadable : WindowEvent → Type 0
IsReadable (scan_done true params size path) =
    (params.pixels_per_line * params.lines < 2 ^ 63)
    × (params.pixels_per_line * params.lines ≤ size → params.bytes_per_line * params.lines ≤ size)
IsReadable e = Unit

not_less : (m n : ℕ) → n ≤ m → ltb m n ≡ false
not_less m n h = ground (arith, h)

no_overflow : (m n : ℕ) → n < m → leb m n ≡ false
no_overflow m n h = ground (arith, h)

reached : (m n : ℕ) → ltb m n ≡ false → n ≤ m
reached m n h = ground (arith, h)

-- The edits that the events make, if the next item is allocated at the address given.
abbrev pub edits_of : ℕ → List WindowEvent → List Edit
edits_of next [] = []
edits_of next (shown base fuel answer ∷ events) = edits_of next events
edits_of next (scan_done status_ok params size path ∷ events) =
    let added = add next ∷ edits_of (suc next) events in
    let ignored = edits_of next events in
    if is_complete status_ok params size then added else ignored
edits_of next (remove_requested a ∷ events) = remove a ∷ edits_of next events
edits_of next (move_requested a direction ∷ events) = move a direction ∷ edits_of next events
edits_of next (transform_requested b a ∷ events) = edits_of next events
edits_of next (save_clicked answer ∷ events) = edits_of next events

module _ (s : Setting) where
  after_save-any :
      (P : ImageView s → Type 0) (saved : Bool) (fs : FileSystem) (v : ImageView s)
      → P v
      → P (sl_document_saved s (record v { fs = fs }))
      → P (after_save s saved fs v)
  after_save-any P false fs v h k = h
  after_save-any P true fs v h k = k

  -- The events make their edits of a document that the container stands for.
  abbrev Follows : List WindowEvent → PageList → ImageView s → Type 0
  Follows events d v =
      AllowedAll (edits_of v.next_item events) d
      → Implements s.layout v.grid d
      → Returns (λ v'. Implements s.layout v'.grid (apply_all (edits_of v.next_item events) d))
          (handle_events s events v)

  scanned-Follows :
      (status_ok : Bool) (params : ScannerParameters) (size : ℕ) (path : List ℕ)
      (events : List WindowEvent) (d : PageList) (v : ImageView s)
      → IsReadable (scan_done status_ok params size path)
      → ((d' : PageList) (v' : ImageView s) → Follows events d' v')
      → Follows (scan_done status_ok params size path ∷ events) d v
  unfolding handle_events handle_event sl_sig_done add_scanned init_image_connections save_view edit
  scanned-Follows false params size path events d v r rest a i = rest d v a i
  scanned-Follows true params size path events d v (fits, holds) rest a i =
      let whole = no_overflow (2 ^ 63) (params.pixels_per_line * params.lines) fits in
      let allowed : (b : Bool) → Type 0 = λ b.
        AllowedAll
          (if not b
            then add v.next_item ∷ edits_of (suc v.next_item) events
            else edits_of v.next_item events)
          d in
      elim (Bool-cases (ltb size (params.pixels_per_line * params.lines))) [
        | inl e ↦ rw (whole, e) (rest d v (subst allowed e a) i)
        | inr e ↦
            let (new, small, later) = subst allowed e a in
            let read =
              not_less size (params.bytes_per_line * params.lines)
                (holds (reached size (params.pixels_per_line * params.lines) e)) in
            rw (whole, e, read)
              (rest (apply (add v.next_item) d) (add_scanned s path v) later
                (edit-Implements s.layout v.grid d i small (add v.next_item) new))
      ]

  -- A step that allocates no item.
  then-Follows :
      (events : List WindowEvent) (d : PageList) (v : ImageView s) (m : Exec (ImageView s))
      → Returns (λ v₁. (v.next_item ≡ v₁.next_item) × Implements s.layout v₁.grid d) m
      → ((v₁ : ImageView s) → Follows events d v₁)
      → AllowedAll (edits_of v.next_item events) d
      → Returns
          (λ v'. Implements s.layout v'.grid (apply_all (edits_of v.next_item events) d))
          (m >>= λ v₁. handle_events s events v₁)
  then-Follows events d v m h rest a =
      Returns-bind (λ v'. Implements s.layout v'.grid (apply_all (edits_of v.next_item events) d)) m
        (λ v₁. handle_events s events v₁) h
        (λ v₁ (same, i).
          subst
            (λ next.
              AllowedAll (edits_of next events) d
              → Returns (λ v'. Implements s.layout v'.grid (apply_all (edits_of next events) d))
                  (handle_events s events v₁))
            (sym same) (λ b. rest v₁ b i) a)

  removed-Follows :
      (x : ℕ) (d : PageList) (v : ImageView s)
      → length d.pages + 3 < 2 ^ 64
      → Allowed (remove x) d
      → Implements s.layout v.grid d
      → Returns
          (λ v₁. (v.next_item ≡ v₁.next_item) × Implements s.layout v₁.grid (apply (remove x) d))
          (sl_remove_image s x v)
  unfolding sl_remove_image save_view edit
  removed-Follows x d v small allowed i =
      Returns-bind
        (λ v₁. (v.next_item ≡ v₁.next_item) × Implements s.layout v₁.grid (apply (remove x) d))
        (remove_image s.layout v.grid x) _
        (edit-Implements s.layout v.grid d i small (remove x) allowed) (λ grid i'. (refl, i'))

  moved-Follows :
      (x : ℕ) (direction : MoveDirection) (d : PageList) (v : ImageView s)
      → length d.pages + 3 < 2 ^ 64
      → Allowed (move x direction) d
      → Implements s.layout v.grid d
      → Returns
          (λ v₁.
            (v.next_item ≡ v₁.next_item) × Implements s.layout v₁.grid (apply (move x direction) d))
          (sl_move_image s x direction v)
  unfolding sl_move_image save_view edit
  moved-Follows x direction d v small allowed i =
      Returns-bind
        (λ v₁.
          (v.next_item ≡ v₁.next_item) × Implements s.layout v₁.grid (apply (move x direction) d))
        (move_image s.layout v.grid x direction) _
        (edit-Implements s.layout v.grid d i small (move x direction) allowed)
        (λ grid i'. (refl, i'))

  handle_events-Follows :
      (events : List WindowEvent) (d : PageList) (v : ImageView s)
      → All IsNotShown events
      → All IsReadable events
      → Follows events d v
  unfolding handle_events handle_event sl_remove_image sl_move_image sl_transform sl_save_pdf
      save_view edit
  handle_events-Follows [] d v n r a i = i
  handle_events-Follows (shown base fuel answer ∷ events) d v n r a i = elim n.0 [ ]
  handle_events-Follows (scan_done status_ok params size path ∷ events) d v n r a i =
      scanned-Follows status_ok params size path events d v r.0
        (λ d' v'. handle_events-Follows events d' v' n.1 r.1) a i
  handle_events-Follows (remove_requested x ∷ events) d v n r a i =
      then-Follows events (apply (remove x) d) v (sl_remove_image s x v)
        (removed-Follows x d v a.1 a.0 i)
        (λ v₁. handle_events-Follows events (apply (remove x) d) v₁ n.1 r.1) a.2
  handle_events-Follows (move_requested x direction ∷ events) d v n r a i =
      then-Follows events (apply (move x direction) d) v (sl_move_image s x direction v)
        (moved-Follows x direction d v a.1 a.0 i)
        (λ v₁. handle_events-Follows events (apply (move x direction) d) v₁ n.1 r.1) a.2
  handle_events-Follows (transform_requested b x ∷ events) d v n r a i =
      handle_events-Follows events d (sl_transform s b x v) n.1 r.1 a i
  handle_events-Follows (save_clicked answer ∷ events) d v n r a i =
      after_save-any
        (λ v₁.
          Returns (λ v'. Implements s.layout v'.grid (apply_all (edits_of v.next_item events) d))
            (handle_events s events v₁))
        _ _ v (handle_events-Follows events d v n.1 r.1 a i)
        (handle_events-Follows events d _ n.1 r.1 a i)

-- The window refines the list of pages that it shows: if each edit of a sequence of events is allowed
-- in the document that the edits before it make, and no scan that succeeded has a product that
-- overflows or a file with a byte for each pixel but not those of each line, the slots handle all the events without a fault, and
-- in the end the window shows the pages of that document in order, numbered from 1. A scan that failed
-- or whose file is too short adds no page; a turn and a save change none.
pub handle_events-Implements :
    (s : Setting) (v : ImageView s) (events : List WindowEvent) (d : PageList)
    → All IsNotShown events
    → All IsReadable events
    → AllowedAll (edits_of v.next_item events) d
    → Implements s.layout v.grid d
    → (v' : ImageView s) × (handle_events s events v ≡ ok v')
      × Implements s.layout v'.grid (apply_all (edits_of v.next_item events) d)
handle_events-Implements s v events d n r a i =
    Returns-ok (λ v'. Implements s.layout v'.grid (apply_all (edits_of v.next_item events) d))
      (handle_events s events v) (handle_events-Follows s events d v n r a i)
