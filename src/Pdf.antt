-- ===== src/Pdf.antt =====
-- Saving the document: `CPdf` of gui-app/src/Utils/Pdf/Pdf.{hpp,cpp} and `CImageView::sl_save_pdf` of
-- gui-app/src/Ui/ImageView.cpp. The libharu library is a parameter. A matrix is left abstract, as are
-- the sizes computed from it. The text recognition that the slot starts on the saved file, if it is
-- compiled in, installed and ticked, is left out here.
pub mod Hpdf
pub mod Save
pub mod Geometry
pub mod Builder
pub mod Preview
pub mod Spans
mod Runs
use Prim.Native.String.{String}
use text.Mathlib.Text.{◌==◌ as str_eq}
use sane_in_the_membrane.Common.{
  ℕ, Bool, true, false, List, [], ◌∷◌, Option, none, some, if◌then◌else◌,
}
use sane_in_the_membrane.Files.FileSystem.{FileSystem}
use sane_in_the_membrane.Files.FileRw.{FileRw}
use sane_in_the_membrane.Session.Store.{remove_session}

-- The calls of libharu. Each acts on a document, whose error state is part of it; `draw` sets the size
-- of the page that was added last and draws an image on it under a matrix.
pub record Libharu (Matrix : Type 0) : Type 1 where
  pub Doc : Type 0
  pub new_doc : Doc
  pub load_jpeg : String → Doc → Option ℕ × Doc
  pub add_page : Doc → Bool × Doc
  pub draw : ℕ → Matrix → Doc → Doc
  pub save_to_file : String → Doc → FileSystem → FileSystem

module _ (Matrix : Type 0) (l : Libharu Matrix) where
  abbrev pub draw_image : Option ℕ → Matrix → l.Doc → Bool × l.Doc
  draw_image none m doc = (false, doc)
  draw_image (some image) m doc = (true, l.draw image m doc)

  abbrev pub on_page : Bool × l.Doc → Option ℕ → Matrix → Bool × l.Doc
  on_page (false, doc) image m = (false, doc)
  on_page (true, doc) image m = draw_image image m doc

  -- The page is added before the image is looked at.
  unfoldable pub add_image : Option ℕ → Matrix → l.Doc → Bool × l.Doc
  add_image image m doc = on_page (l.add_page doc) image m

  unfoldable pub add_jpeg : String → Matrix → l.Doc → Bool × l.Doc
  unfolding add_image
  add_jpeg path m doc = let loaded = l.load_jpeg path doc in add_image loaded.0 m loaded.1

  -- The loop ends at the first image that cannot be added.
  unfoldable pub add_jpegs : List (String × Matrix) → l.Doc → Bool × l.Doc
  unfolding add_jpeg
  add_jpegs [] doc = (true, doc)
  add_jpegs ((path, m) ∷ images) doc =
      let r = add_jpeg path m doc in let rest = add_jpegs images r.1 in if r.0 then rest else r

  -- Whether the slot emits that the document is saved, and the files afterwards.
  pub record Saved : Type 0 where
    pub emitted : Bool
    pub fs : FileSystem

  -- The answer of the dialogue is none if it is not accepted. What `add_jpegs` and `save` return is not
  -- used.
  unfoldable pub save_pdf : Option String → List (String × Matrix) → FileRw → FileSystem → Saved
  unfolding add_jpegs
  save_pdf none images session fs = record { emitted = false; fs = fs }
  save_pdf (some file_name) images session fs =
      if str_eq file_name "" then record { emitted = false; fs = fs } else record {
        emitted = true;
        fs = remove_session session (l.save_to_file file_name (add_jpegs images l.new_doc).1 fs);
      }
