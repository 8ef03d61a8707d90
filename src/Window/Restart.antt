-- ===== src/Window/Restart.antt =====
-- The next start of the program: `showEvent` of `CImageView` (gui-app/src/Ui/ImageView.cpp) on a view
-- with no pages.
use mathlib.Core.Path.{subst}
use sane_in_the_membrane.Common.{
  ℕ, zero, suc, ◌+◌, ◌^◌, ◌<◌, ◌≡◌, refl, sym, ap, ◌∙◌, true, false, List, [], ◌∷◌, ◌++◌, map,
  length, arith, All, append-nil, append_assoc, ==_iff, inl,
}
use sane_in_the_membrane.Common.Word.{IsU64}
use sane_in_the_membrane.Common.Exec.{ok}
use sane_in_the_membrane.Files.Opening.{OnlyMakes, OnlyMakes-trans, new_file-OnlyMakes}
use sane_in_the_membrane.Session.Item.{IsItem}
use sane_in_the_membrane.Session.Items.{serialize_items}
use sane_in_the_membrane.Session.Restore.{
  pressed_ok, save_pages, insert_page, sort_pages, show_event-save_pages,
}
use sane_in_the_membrane.View.Container.{add_restored, add_item}
use sane_in_the_membrane.View.Numbers.{IsNumberedFrom, IsAbsent, erase-absent}
use sane_in_the_membrane.View.Document.{PageList, Implements}
use sane_in_the_membrane.View.Refines.{SameItems-InOrder}
use sane_in_the_membrane.View.Sorted.{insert_item, sort_items, sort_items-IsNumbered}
use sane_in_the_membrane.Window.Recovery.{IsSaved}
use sane_in_the_membrane.Window.{
  Setting, Image, ImageView, serialized, items_of, save_view, init_image_connections, add_page,
  add_pages, show_view, enable_saving,
}

-- Addresses in a row.
abbrev pub addresses : ℕ → ℕ → List ℕ
addresses next zero = []
addresses next (suc n) = next ∷ addresses (suc next) n

abbrev Below : ℕ → List ℕ → Type 0
Below n items = All (λ a. a < n) items

Below-IsAbsent : (n : ℕ) (items : List ℕ) → Below n items → IsAbsent n items
Below-IsAbsent n [] h = tt
Below-IsAbsent n (a ∷ items) h = (λ e. omega (arith, h.0, e), Below-IsAbsent n items h.1)

Below-append : (n : ℕ) (items : List ℕ) → Below n items → Below (suc n) (items ++ (n ∷ []))
Below-append n [] h = (omega arith, tt)
Below-append n (a ∷ items) h = (omega (arith, h.0), Below-append n items h.1)

module _ (s : Setting) where
  -- The pages on screen in their order: their files and transforms.
  abbrev pub pictures : ImageView s → List Image
  pictures v = map v.images (s.layout.widgets v.grid.layout)

  insert_page-map :
      (v : ImageView s) (a : ℕ) (ids : List ℕ)
      → insert_page (serialized s v a) (map (serialized s v) ids)
        ≡ map (serialized s v) (insert_item v.grid.numbers a ids)
  unfolding insert_page
  insert_page-map v a [] = refl
  insert_page-map v a (b ∷ ids) = ground (arith, insert_page-map v a ids)

  sort_pages-map :
      (v : ImageView s) (ids : List ℕ)
      → sort_pages (map (serialized s v) ids) ≡ map (serialized s v) (sort_items v.grid.numbers ids)
  unfolding sort_pages
  sort_pages-map v [] = refl
  sort_pages-map v (a ∷ ids) =
      rw (sort_pages-map v ids) (insert_page-map v a (sort_items v.grid.numbers ids))

  -- The view after the pages `ids` of the view `v`, numbered from k, were added to the view `w`.
  record Restores (v w w' : ImageView s) (k : ℕ) (ids : List ℕ) : Type 0 where
    shown :
        s.layout.widgets w'.grid.layout
        ≡ s.layout.widgets w.grid.layout ++ addresses w.next_item (length ids)
    items : w'.grid.items ≡ w.grid.items ++ addresses w.next_item (length ids)
    numbered : IsNumberedFrom k (addresses w.next_item (length ids)) w'.grid.numbers
    old_number : (b : ℕ) → b < w.next_item → w'.grid.numbers b ≡ w.grid.numbers b
    images : map w'.images (addresses w.next_item (length ids)) ≡ map v.images ids
    old_image : (b : ℕ) → b < w.next_item → w'.images b ≡ w.images b
    files : OnlyMakes w.fs w'.fs
    still_disabled : w'.session_saving_disabled ≡ true

  -- One page that is added.
  record Adds (v w w₁ : ImageView s) (a : ℕ) : Type 0 where
    shown : s.layout.widgets w₁.grid.layout ≡ s.layout.widgets w.grid.layout ++ (w.next_item ∷ [])
    items : w₁.grid.items ≡ w.grid.items ++ (w.next_item ∷ [])
    new_number : w₁.grid.numbers w.next_item ≡ v.grid.numbers a
    old_number : (b : ℕ) → b < w.next_item → w₁.grid.numbers b ≡ w.grid.numbers b
    new_image : w₁.images w.next_item ≡ v.images a
    old_image : (b : ℕ) → b < w.next_item → w₁.images b ≡ w.images b
    files : OnlyMakes w.fs w₁.fs
    still_disabled : w₁.session_saving_disabled ≡ true

  add_page-Adds :
      (v w : ImageView s) (a : ℕ)
      → Below w.next_item (s.layout.widgets w.grid.layout)
      → w.session_saving_disabled ≡ true
      → Adds v w (add_page s (serialized s v a) w) a
  unfolding add_page init_image_connections save_view save_pages add_restored add_item
  add_page-Adds v w a below disabled = record {
    shown =
        s.layout.widgets-add_widget w.grid.layout w.next_item
        ∙ ap (λ xs. xs ++ (w.next_item ∷ []))
            (erase-absent _ w.next_item (Below-IsAbsent w.next_item _ below));
    items = refl;
    new_number = rw ((==_iff w.next_item w.next_item).1 refl) refl;
    old_number = λ b h. ground (arith, h);
    new_image = rw ((==_iff w.next_item w.next_item).1 refl) refl;
    old_image = λ b h. ground (arith, h);
    files = rw disabled (new_file-OnlyMakes (s.path_text (v.images a).path) w.fs);
    still_disabled = disabled;
  }

  add_pages-Restores :
      (v w : ImageView s) (k : ℕ) (ids : List ℕ)
      → IsNumberedFrom k ids v.grid.numbers
      → Below w.next_item (s.layout.widgets w.grid.layout)
      → w.session_saving_disabled ≡ true
      → Restores v w (add_pages s (map (serialized s v) ids) w) k ids
  unfolding add_pages
  add_pages-Restores v w k [] n below disabled = record {
    shown = sym (append-nil _);
    items = sym (append-nil _);
    numbered = tt;
    old_number = λ b h. refl;
    images = refl;
    old_image = λ b h. refl;
    files = λ path. inl refl;
    still_disabled = disabled;
  }
  add_pages-Restores v w k (a ∷ ids) n below disabled =
      let w₁ = add_page s (serialized s v a) w in
      let d = add_page-Adds v w a below disabled in
      let r =
        add_pages-Restores v w₁ (suc k) ids n.1
          (subst (Below w₁.next_item) (sym d.shown) (Below-append w.next_item _ below))
          d.still_disabled in
      record {
        shown =
            r.shown
            ∙ ap (λ xs. xs ++ addresses w₁.next_item (length ids)) d.shown
            ∙ append_assoc _ (w.next_item ∷ []) _;
        items =
            r.items
            ∙ ap (λ xs. xs ++ addresses w₁.next_item (length ids)) d.items
            ∙ append_assoc _ (w.next_item ∷ []) _;
        numbered = (r.old_number w.next_item (omega arith) ∙ d.new_number ∙ n.0, r.numbered);
        old_number = λ b h. r.old_number b (omega (arith, h)) ∙ d.old_number b h;
        images = cc (r.old_image w.next_item (omega arith), d.new_image, r.images);
        old_image = λ b h. r.old_image b (omega (arith, h)) ∙ d.old_image b h;
        files = OnlyMakes-trans d.files r.files;
        still_disabled = r.still_disabled;
      }

  -- A view of a program that has just started.
  pub record IsFresh (w : ImageView s) : Type 0 where
    pub no_pages : s.layout.widgets w.grid.layout ≡ []
    pub no_items : w.grid.items ≡ []
    pub disabled : w.session_saving_disabled ≡ true

  -- What the next start shows.
  abbrev pub restarted : ImageView s → ImageView s → PageList → ImageView s
  restarted v w d = enable_saving s true (add_pages s (map (serialized s v) d.pages) w)

  module _ (v w : ImageView s) (d : PageList) (saved : IsSaved s v)
      (i : Implements s.layout v.grid d) (fresh : IsFresh w) (same : w.fs ≡ v.fs) where
    restores : Restores v w (add_pages s (map (serialized s v) d.pages) w) 1 d.pages
    restores =
        add_pages-Restores v w 1 d.pages i.numbered
          (subst (Below w.next_item) (sym fresh.no_pages) tt) fresh.disabled

    pub restarted-Implements :
        Implements s.layout
          (restarted v w d).grid
          (record { pages = addresses w.next_item (length d.pages); moved = false })
    restarted-Implements = record {
      shown =
          restores.shown ∙ ap (λ xs. xs ++ addresses w.next_item (length d.pages)) fresh.no_pages;
      numbered = restores.numbered;
      kept =
          restores.items ∙ ap (λ xs. xs ++ addresses w.next_item (length d.pages)) fresh.no_items;
    }

    pub pictures-restarted : pictures (restarted v w d) ≡ pictures v
    pictures-restarted =
        ap (map (restarted v w d).images) restarted-Implements.shown
        ∙ restores.images
        ∙ ap (map v.images) (sym i.shown)

    pub files_kept : OnlyMakes v.fs (restarted v w d).fs
    files_kept = subst (λ fs. OnlyMakes fs (restarted v w d).fs) same restores.files

    sorted_items : sort_pages (items_of s v) ≡ map (serialized s v) d.pages
    sorted_items =
        sort_pages-map v v.grid.items
        ∙ ap (map (serialized s v)) (
            sort_items-IsNumbered v.grid.numbers v.grid.items d.pages i.numbered
              (SameItems-InOrder d.moved v.grid.items d.pages i.kept))

    pub show_view-restarted :
        (base fuel : ℕ)
        → IsU64 s.version
        → All IsItem (items_of s v)
        → base + length (serialize_items (items_of s v)) < 2 ^ 64
        → length (items_of s v) < fuel
        → show_view s base fuel pressed_ok w ≡ ok (restarted v w d)
    unfolding show_view
    show_view-restarted base fuel fits_version items fits enough =
        let (r, e, enabled, brought, _, _) =
          show_event-save_pages s.version base fuel s.session (items_of s v) saved.before
            saved.opens fits_version items fits enough pressed_ok in
        rw (same, saved.written, e, enabled, brought, sorted_items) refl
