-- ===== src/Session/Restore.antt =====
-- Restoring a session when the window is shown: `CImageView::showEvent` and `save_session` of
-- gui-app/src/Ui/ImageView.cpp. The answer to the message box is an argument; `std::sort` is an
-- insertion sort, so pages with equal numbers come in one of the orders that it may choose.
use mathlib.Core.List.{Perm}
use mathlib.Core.List.Perm
use sane_in_the_membrane.Common.{
  ℕ, ◌+◌, ◌^◌, ◌<◌, ◌≤◌, ◌≡◌, refl, true, false, List, [], ◌∷◌, leb, if◌then◌else◌, length, arith,
  Bool, All, Bool-cases, inl, inr, ==_iff,
}
use sane_in_the_membrane.Common.Word.{IsU64}
use sane_in_the_membrane.Common.Exec.{Exec, ok, ◌>>=◌, Expected, value, unexpected}
use sane_in_the_membrane.Files.FileSystem.{FileSystem}
use sane_in_the_membrane.Files.FileRw.{FileRw, IsOpenable, exists}
use sane_in_the_membrane.Session.Item.{ImageItemSerialized, IsItem}
use sane_in_the_membrane.Session.Items.{ItemsError, serialize_items, deserialize_items}
use sane_in_the_membrane.Session.Store.{SessionData, SessionLoadError, save_session, load_session}
use sane_in_the_membrane.Session.Load.{load_session-save_session}
use sane_in_the_membrane.Session.RoundTrip.{deserialize_items-serialize_items}

unfoldable pub insert_page :
    ImageItemSerialized → List ImageItemSerialized → List ImageItemSerialized
insert_page a [] = a ∷ []
insert_page a (b ∷ items) =
    if leb a.page_number b.page_number then a ∷ b ∷ items else b ∷ insert_page a items

unfoldable pub sort_pages : List ImageItemSerialized → List ImageItemSerialized
unfolding insert_page
sort_pages [] = []
sort_pages (a ∷ items) = insert_page a (sort_pages items)

pub data Answer : Type 0 where
  pressed_ok pressed_cancel closed : Answer

abbrev pub accepts : Answer → Bool
accepts pressed_ok = true
accepts pressed_cancel = false
accepts closed = true

-- The pages to add, and whether saving is enabled from now on: no early return reaches the line
-- that enables it.
pub record Restored : Type 0 where
  pub pages : List ImageItemSerialized
  pub saving_enabled : Bool

abbrev pub nothing_restored : Restored
nothing_restored = record { pages = []; saving_enabled = false }

abbrev pub restore_items : Answer → Expected (List ImageItemSerialized) ItemsError → Restored
restore_items _ (unexpected e) = nothing_restored
restore_items answer (value items) = record {
  pages = if accepts answer then sort_pages items else [];
  saving_enabled = true;
}

module _ (version base fuel : ℕ) (answer : Answer) where
  restore_data : Expected SessionData SessionLoadError → Exec Restored
  restore_data (unexpected e) = ok nothing_restored
  restore_data (value session) =
      deserialize_items fuel (record { base = base; bytes = session.bytes }) >>= λ items.
      ok (restore_items answer items)

  unfoldable pub show_event : FileRw → FileSystem → Exec Restored
  unfolding restore_data
  show_event file fs = load_session version file fs >>= restore_data

pub show_event-missing :
    (version base fuel : ℕ) (answer : Answer) (file : FileRw) (fs : FileSystem)
    → exists file fs ≡ false
    → show_event version base fuel answer file fs ≡ ok nothing_restored
unfolding show_event load_session
show_event-missing version base fuel answer file fs h = simp h

-- `CImageView::save_session`: nothing is written while saving is disabled.
unfoldable pub save_pages : ℕ → Bool → FileRw → List ImageItemSerialized → FileSystem → FileSystem
save_pages version disabled file items fs =
    if disabled then fs else save_session version file (serialize_items items) fs

-- Page numbers rise along the list.
abbrev pub IsSortedFrom : ℕ → List ImageItemSerialized → Type 0
IsSortedFrom n [] = Unit {0}
IsSortedFrom n (a ∷ items) = (n ≤ a.page_number) × IsSortedFrom a.page_number items

IsSortedFrom-insert :
    (n : ℕ) (a : ImageItemSerialized) (items : List ImageItemSerialized)
    → n ≤ a.page_number
    → IsSortedFrom n items
    → IsSortedFrom n (insert_page a items)
unfolding insert_page
IsSortedFrom-insert n a [] h s = (h, tt)
IsSortedFrom-insert n a (b ∷ items) h s = ground (arith, IsSortedFrom-insert b.page_number a items)

insert_page-perm :
    (a : ImageItemSerialized) (items : List ImageItemSerialized)
    → Perm (insert_page a items) (a ∷ items)
unfolding insert_page
insert_page-perm a [] = Perm.refl _
insert_page-perm a (b ∷ items) = elim (Bool-cases (leb a.page_number b.page_number)) [
  | inl e ↦ rw e (Perm.refl _)
  | inr e ↦ rw e (Perm.trans (Perm.cons b (insert_page-perm a items)) (Perm.swap a b items))
]

pub sort_pages-IsSorted : (items : List ImageItemSerialized) → IsSortedFrom 0 (sort_pages items)
unfolding sort_pages
sort_pages-IsSorted [] = tt
sort_pages-IsSorted (a ∷ items) =
    IsSortedFrom-insert 0 a (sort_pages items) (omega arith) (sort_pages-IsSorted items)

pub sort_pages-perm : (items : List ImageItemSerialized) → Perm (sort_pages items) items
unfolding sort_pages
sort_pages-perm [] = Perm.refl []
sort_pages-perm (a ∷ items) =
    Perm.trans (insert_page-perm a (sort_pages items)) (Perm.cons a (sort_pages-perm items))

module _ (version base fuel : ℕ) (file : FileRw) (items : List ImageItemSerialized)
    (fs : FileSystem) (opens : IsOpenable fs file) (hv : IsU64 version) (w : All IsItem items)
    (fits : base + length (serialize_items items) < 2 ^ 64) (enough : length items < fuel) where
  show_event-value :
      (answer : Answer)
      → show_event version base fuel answer file (save_pages version false file items fs)
        ≡ ok (restore_items answer (value items))
  unfolding show_event save_pages
  show_event-value answer = simp (
    load_session-save_session version version file (serialize_items items) fs opens hv
        (omega (arith, fits)),
    (==_iff version version).1 refl,
    deserialize_items-serialize_items base fuel items w fits enough,
  )

  -- Pages saved by this version come back when the window is shown: all of them, once each, in the
  -- order of their page numbers, if the user accepts, and none if not; saving is enabled either way.
  pub show_event-save_pages :
      (answer : Answer)
      → (r : Restored) × (show_event version base fuel answer file
            (save_pages version false file items fs)
          ≡ ok r)
        × (r.saving_enabled ≡ true)
        × (r.pages ≡ (if accepts answer then sort_pages items else []))
        × IsSortedFrom 0 (sort_pages items)
        × Perm (sort_pages items) items
  show_event-save_pages answer = (
    restore_items answer (value items),
    show_event-value answer,
    refl,
    refl,
    sort_pages-IsSorted items,
    sort_pages-perm items,
  )
