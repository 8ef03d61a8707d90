-- ===== src/Pdf/Builder.antt =====
-- How documents are made, and the images besides JPEG: `CPdfBuilder`, `CPdf::add_png` and
-- `CPdf::add_raw_image` of gui-app/src/Utils/Pdf/Pdf.{hpp,cpp}. What libharu does is an argument.
use Prim.Native.String.{String}
use sane_in_the_membrane.Common.{ℕ, Bool, Option, none, some, if◌then◌else◌}
use sane_in_the_membrane.Common.Exec.{Exec, ok, fault}
use sane_in_the_membrane.Pdf.{Libharu, add_image}
use sane_in_the_membrane.Pdf.Geometry.{PdfMatrix}

-- A null handler and null data are `none`.
pub record PdfBuilder : Type 0 where
  pub error_handler : Option ℕ
  pub compression_mode : Option ℕ
  pub user_data : Option ℕ

abbrev pub new_builder : PdfBuilder
new_builder = record { error_handler = none; compression_mode = none; user_data = none }

abbrev pub set_error_handler : ℕ → PdfBuilder → PdfBuilder
set_error_handler handler b = record b { error_handler = some handler }

abbrev pub set_compression_mode : ℕ → PdfBuilder → PdfBuilder
set_compression_mode mode b = record b { compression_mode = some mode }

abbrev pub set_user_data : ℕ → PdfBuilder → PdfBuilder
set_user_data user_data b = record b { user_data = some user_data }

-- What a document was made with; libharu does not compress unless it is told.
pub record HpdfDoc : Type 0 where
  pub handler : Option ℕ
  pub user : Option ℕ
  pub compression : ℕ

module _ (hpdf_comp_all : ℕ) (creates : Bool) where
  -- `HPDF_New`.
  abbrev pub hpdf_new : Option ℕ → Option ℕ → Option HpdfDoc
  hpdf_new handler user_data =
      if creates
      then some (record { handler = handler; user = user_data; compression = 0 })
      else none

  abbrev pub compressed : Option ℕ → HpdfDoc → HpdfDoc
  compressed none doc = doc
  compressed (some mode) doc = record doc { compression = mode }

  -- Without a document the program terminates.
  abbrev pub built : Option HpdfDoc → Option ℕ → Exec HpdfDoc
  built none mode = fault
  built (some doc) mode = ok (compressed mode doc)

  unfoldable pub build_document : PdfBuilder → Exec HpdfDoc
  build_document b = built (hpdf_new b.error_handler b.user_data) b.compression_mode

  unfoldable pub build_default : Option ℕ → Exec HpdfDoc
  build_default handler = built (hpdf_new handler none) (some hpdf_comp_all)

pub data SaneFrame : Type 0 where
  frame_gray frame_rgb frame_red frame_green frame_blue : SaneFrame

pub data ColorSpace : Type 0 where
  cs_device_gray cs_cal_rgb : ColorSpace

abbrev pub color_space : SaneFrame → ColorSpace
color_space frame_gray = cs_device_gray
color_space frame_rgb = cs_cal_rgb
color_space frame_red = cs_cal_rgb
color_space frame_green = cs_cal_rgb
color_space frame_blue = cs_cal_rgb

module _ (l : Libharu (Option PdfMatrix)) where
  unfoldable pub add_png :
      (String → l.Doc → Option ℕ × l.Doc) → String → Option PdfMatrix → l.Doc → Bool × l.Doc
  unfolding add_image
  add_png load_png path m doc =
      let loaded = load_png path doc in add_image (Option PdfMatrix) l loaded.0 m loaded.1

  unfoldable pub add_raw_image :
      (String → ℕ → ℕ → ColorSpace → l.Doc → Option ℕ × l.Doc)
      → String
      → ℕ
      → ℕ
      → SaneFrame
      → l.Doc
      → Bool × l.Doc
  unfolding add_image
  add_raw_image load_raw path width height frame doc =
      let loaded = load_raw path width height (color_space frame) doc in
      add_image (Option PdfMatrix) l loaded.0 none loaded.1
