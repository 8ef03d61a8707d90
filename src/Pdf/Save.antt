-- ===== src/Pdf/Save.antt =====
-- What a saved document holds: gui-app/src/Utils/Pdf/Pdf.{hpp,cpp} and `sl_save_pdf` of
-- gui-app/src/Ui/ImageView.cpp.
use Prim.Native.String.{String}
use text.Mathlib.Text.{◌==◌ as str_eq}
use sane_in_the_membrane.Common.{
  ℕ, ◌+◌, ◌^◌, ◌<◌, ◌≡◌, ap, ◌∙◌, sym, Bool, true, false, List, [], ◌∷◌, ◌++◌, Option, none, some,
  append-nil, append_assoc, length, ◌⊎◌,
}
use sane_in_the_membrane.Common.Exec.{ok}
use sane_in_the_membrane.Files.FileSystem.{FileSystem, write_trunc}
use sane_in_the_membrane.Files.FileRw.{FileRw}
use sane_in_the_membrane.Session.Store.{remove_session}
use sane_in_the_membrane.View.Layout.{BoxLayout}
use sane_in_the_membrane.View.Container.{Container, left, right, move_image}
use sane_in_the_membrane.View.Edit.{IsShowing}
use sane_in_the_membrane.View.Pages.{swapped, move_image-neighbours}
use sane_in_the_membrane.Pdf.Hpdf.{IsLibharu}
use sane_in_the_membrane.Pdf.{Libharu, add_jpegs, add_jpeg, add_image, on_page, save_pdf}

-- The paths and matrices of the items of a container, in the order of its vector.
abbrev pub image_paths : {Matrix : Type 0} → (ℕ → String × Matrix) → List ℕ → List (String × Matrix)
image_paths image [] = []
image_paths image (item ∷ items) = image item ∷ image_paths image items

module _ (Matrix : Type 0) (l : Libharu Matrix) (readable : String → Option ℕ)
    (fits : ℕ → Matrix → Bool) (laws : IsLibharu Matrix l readable fits) where
  -- The images that the paths load, each under its matrix.
  abbrev pub Loads : List (String × Matrix) → List (ℕ × Matrix) → Type 0
  Loads [] [] = Unit {0}
  Loads ((path, m) ∷ images) ((image, m') ∷ loaded) =
      (readable path ≡ some image) × (fits image m ≡ true) × (m ≡ m') × Loads images loaded
  Loads images loaded = ⊥

  -- A document in a good state with the pages listed.
  abbrev Holds : List (ℕ × Matrix) → l.Doc → Type 0
  Holds pages d = (laws.failed d ≡ false) × (laws.pages d ≡ pages)

  -- The image that is drawn for a path that can be read.
  abbrev drawn : String → Matrix → ℕ → l.Doc → l.Doc
  drawn path m image d = l.draw image m (l.add_page (l.load_jpeg path d).1).1

  add_jpeg-readable :
      (path : String) (m : Matrix) (image : ℕ) (d : l.Doc)
      → laws.failed d ≡ false
      → readable path ≡ some image
      → add_jpeg Matrix l path m d ≡ (true, drawn path m image d)
  unfolding add_jpeg add_image
  add_jpeg-readable path m image d good e =
      let (some_image, good₁, same₁) = laws.load_some path image d good e in
      let loaded = (l.load_jpeg path d).1 in
      ap (λ i. on_page Matrix l (l.add_page loaded) i m) some_image
      ∙ ap (λ b. on_page Matrix l (b, (l.add_page loaded).1) (some image) m)
          (laws.add_good loaded good₁).0

  drawn-Holds :
      (path : String) (m : Matrix) (image : ℕ) (d : l.Doc)
      → laws.failed d ≡ false
      → readable path ≡ some image
      → fits image m ≡ true
      → Holds (laws.pages d ++ ((image, m) ∷ [])) (drawn path m image d)
  drawn-Holds path m image d good e fit =
      let (_, good₁, same₁) = laws.load_some path image d good e in
      let (_, good₂, same₂) = laws.add_good (l.load_jpeg path d).1 good₁ in
      let (good₃, same₃) = laws.draw_good image m (l.add_page (l.load_jpeg path d).1).1 good₂ fit in
      (good₃, same₃ ∙ ap (λ xs. xs ++ ((image, m) ∷ [])) (same₂ ∙ same₁))

  add_jpegs-Loads :
      (images : List (String × Matrix)) (loaded : List (ℕ × Matrix)) (d : l.Doc)
      → Loads images loaded
      → laws.failed d ≡ false
      → Holds (laws.pages d ++ loaded) (add_jpegs Matrix l images d).1
  unfolding add_jpegs
  add_jpegs-Loads [] [] d h good = (good, sym (append-nil _))
  add_jpegs-Loads [] (i ∷ loaded) d h good = absurd h
  add_jpegs-Loads (i ∷ images) [] d h good = absurd h
  add_jpegs-Loads ((path, m) ∷ images) ((image, m') ∷ loaded) d (e, fit, em, h) good =
      let (good', pages) = drawn-Holds path m image d good e fit in
      let (last_good, all) = add_jpegs-Loads images loaded (drawn path m image d) h good' in
      rw (add_jpeg-readable path m image d good e) (
        last_good,
        all
            ∙ ap (λ xs. xs ++ loaded) pages
            ∙ append_assoc (laws.pages d) ((image, m) ∷ []) loaded
            ∙ ap (λ k. laws.pages d ++ ((image, k) ∷ loaded)) em,
      )

  -- The image cannot be read, or its page would get a size that libharu does not take.
  abbrev pub IsBad : String × Matrix → Type 0
  IsBad (path, m) =
      (readable path ≡ none) ⊎ ((image : ℕ) × (readable path ≡ some image) × (fits image m ≡ false))

  module _ (file_name : String) (named : str_eq file_name "" ≡ false) (session : FileRw)
      (fs : FileSystem) where
    -- If every image loads and fits, the document saved has their pages in the order of the vector of items.
    pub save_pdf-Loads :
        (images : List (String × Matrix)) (loaded : List (ℕ × Matrix))
        → Loads images loaded
        → (save_pdf Matrix l (some file_name) images session fs).fs
          ≡ remove_session session (write_trunc fs file_name (laws.bytes loaded))
    unfolding save_pdf
    save_pdf-Loads images loaded h =
        let (good, pages) = add_jpegs-Loads images loaded l.new_doc h laws.new_good in
        rw named (
          ap (remove_session session) (
            laws.save_good file_name (add_jpegs Matrix l images l.new_doc).1 fs good
            ∙ ap (λ xs. write_trunc fs file_name (laws.bytes xs))
                (pages ∙ ap (λ xs. xs ++ loaded) laws.new_pages)))

  -- A page that is moved to the right, or its right neighbour to the left, is exchanged with it on
  -- screen, and yet the document that is saved then has the pages in the old order, if the vector of
  -- items had that order, every image loads and fits, and a name was given.
  pub save_pdf-move_image :
      (q : BoxLayout) (c : Container q) (before after : List ℕ) (x y : ℕ)
      (image : ℕ → String × Matrix) (file_name : String) (session : FileRw) (fs : FileSystem)
      (loaded : List (ℕ × Matrix))
      → IsShowing q c (before ++ (x ∷ y ∷ after))
      → c.items ≡ before ++ (x ∷ y ∷ after)
      → 2 + length before + length after < 2 ^ 64
      → str_eq file_name "" ≡ false
      → Loads (image_paths image (before ++ (x ∷ y ∷ after))) loaded
      → (c' : Container q) × (move_image q c x right ≡ ok c')
        × (move_image q c y left ≡ ok c')
        × IsShowing q c' (before ++ (y ∷ x ∷ after))
        × ((save_pdf Matrix l (some file_name) (image_paths image c'.items) session fs).fs
            ≡ remove_session session (write_trunc fs file_name (laws.bytes loaded)))
  save_pdf-move_image q c before after x y image file_name session fs loaded s in_order small named
        h =
      let (rightwards, leftwards, shows, numbered, items) =
        move_image-neighbours q c before after x y s.0 s.1 small in
      let same = items ∙ in_order in
      (
        swapped q c before after x y s.0 s.1,
        rightwards,
        leftwards,
        (shows, numbered),
        ap (λ xs. (save_pdf Matrix l (some file_name) (image_paths image xs) session fs).fs) same
            ∙ save_pdf-Loads file_name named session fs
                (image_paths image (before ++ (x ∷ y ∷ after))) loaded h,
      )
