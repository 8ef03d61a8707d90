-- ===== src/Pdf/Hpdf.antt =====
-- What the calls of libharu in gui-app/src/Utils/Pdf/Pdf.cpp are taken to do.
use Prim.Native.String.{String}
use sane_in_the_membrane.Common.{ℕ, ◌≡◌, Bool, true, false, List, [], ◌∷◌, ◌++◌, Option, none, some}
use sane_in_the_membrane.Files.FileSystem.{FileSystem, write_trunc}
use sane_in_the_membrane.Pdf.{Libharu}

-- What libharu documents, for the images that can be read and those whose page gets a size that it
-- takes: a call that fails leaves the document in an error state, which only a call that the program
-- never makes ends; in that state no page is added and nothing is saved. In a good state an image that
-- can be read is loaded, a page is added and an image that fits is drawn on it, and saving writes the
-- pages, here the images drawn, each under its matrix.
pub record IsLibharu (Matrix : Type 0) (l : Libharu Matrix) (readable : String → Option ℕ)
    (fits : ℕ → Matrix → Bool) : Type 0 where
  pub failed : l.Doc → Bool
  pub pages : l.Doc → List (ℕ × Matrix)
  pub bytes : List (ℕ × Matrix) → List ℕ
  pub new_good : failed l.new_doc ≡ false
  pub new_pages : pages l.new_doc ≡ []
  pub load_some :
      (path : String) (image : ℕ) (d : l.Doc)
      → failed d ≡ false
      → readable path ≡ some image
      → ((l.load_jpeg path d).0 ≡ some image)
        × (failed (l.load_jpeg path d).1 ≡ false)
        × (pages (l.load_jpeg path d).1 ≡ pages d)
  pub load_none :
      (path : String) (d : l.Doc) → readable path ≡ none → failed (l.load_jpeg path d).1 ≡ true
  pub load_failed :
      (path : String) (d : l.Doc) → failed d ≡ true → failed (l.load_jpeg path d).1 ≡ true
  pub add_good :
      (d : l.Doc)
      → failed d ≡ false
      → ((l.add_page d).0 ≡ true)
        × (failed (l.add_page d).1 ≡ false)
        × (pages (l.add_page d).1 ≡ pages d)
  pub add_failed :
      (d : l.Doc) → failed d ≡ true → ((l.add_page d).0 ≡ false) × (failed (l.add_page d).1 ≡ true)
  pub draw_good :
      (image : ℕ) (m : Matrix) (d : l.Doc)
      → failed d ≡ false
      → fits image m ≡ true
      → (failed (l.draw image m d) ≡ false)
        × (pages (l.draw image m d) ≡ pages d ++ ((image, m) ∷ []))
  pub draw_unfit :
      (image : ℕ) (m : Matrix) (d : l.Doc) → fits image m ≡ false → failed (l.draw image m d) ≡ true
  pub save_good :
      (path : String) (d : l.Doc) (fs : FileSystem)
      → failed d ≡ false
      → l.save_to_file path d fs ≡ write_trunc fs path (bytes (pages d))
  pub save_failed :
      (path : String) (d : l.Doc) (fs : FileSystem)
      → failed d ≡ true
      → l.save_to_file path d fs ≡ fs
