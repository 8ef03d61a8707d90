-- ===== src/Pdf/Runs.antt =====
-- A concrete document, and the theorems at it.
use Prim.Native.String.{String}
use text.Mathlib.Text.{◌==◌ as str_eq}
use sane_in_the_membrane.Common.{
  ℕ, ◌≡◌, refl, Bool, true, false, List, [], ◌∷◌, ◌++◌, Option, none, some, arith, if◌then◌else◌,
  ◌==◌, ltb,
}
use sane_in_the_membrane.Common.Exec.{ok}
use sane_in_the_membrane.Files.FileSystem.{FileSystem, regular, write_trunc}
use sane_in_the_membrane.Files.FileRw.{FileRw}
use sane_in_the_membrane.Session.Store.{remove_session}
use sane_in_the_membrane.View.Layout.{list_layout}
use sane_in_the_membrane.View.Container.{Container, left, right, move_image}
use sane_in_the_membrane.View.Edit.{IsShowing}
use sane_in_the_membrane.Pdf.{Libharu, save_pdf}
use sane_in_the_membrane.Pdf.Hpdf.{IsLibharu}
use sane_in_the_membrane.Pdf.Save.{image_paths, save_pdf-move_image}

-- One path is readable.
abbrev load_one : String → Option ℕ
load_one path = if str_eq path "/tmp/1.jpg" then some 1 else none

-- A document of the instance: the error state and the images drawn.
abbrev SampleDoc : Type 0
SampleDoc = Bool × List (ℕ × ℕ)

abbrev load_sample : Option ℕ → SampleDoc → Option ℕ × SampleDoc
load_sample image (true, pages) = (none, (true, pages))
load_sample none (false, pages) = (none, (true, pages))
load_sample (some image) (false, pages) = (some image, (false, pages))

abbrev add_sample : SampleDoc → Bool × SampleDoc
add_sample (true, pages) = (false, (true, pages))
add_sample (false, pages) = (true, (false, pages))

abbrev page_bytes : List (ℕ × ℕ) → List ℕ
page_bytes [] = []
page_bytes ((image, m) ∷ pages) = image ∷ m ∷ page_bytes pages

abbrev save_sample : String → SampleDoc → FileSystem → FileSystem
save_sample path (true, pages) fs = fs
save_sample path (false, pages) fs = write_trunc fs path (page_bytes pages)

abbrev fits_sample : ℕ → ℕ → Bool
fits_sample image m = ltb m 100

abbrev sample : Libharu ℕ
sample = record {
  Doc = SampleDoc;
  new_doc = (false, []);
  load_jpeg = λ path d. load_sample (load_one path) d;
  add_page = add_sample;
  draw = λ image m d. (if fits_sample image m then d.0 else true, d.1 ++ ((image, m) ∷ []));
  save_to_file = save_sample;
}

load_sample-some :
    (image : ℕ) (o : Option ℕ) (d : SampleDoc)
    → d.0 ≡ false
    → o ≡ some image
    → ((load_sample o d).0 ≡ some image)
      × ((load_sample o d).1.0 ≡ false)
      × ((load_sample o d).1.1 ≡ d.1)
load_sample-some image o (true, pages) good e = cc good
load_sample-some image none (false, pages) good e = cc e
load_sample-some image (some other) (false, pages) good e = (e, refl, refl)

load_sample-none : (o : Option ℕ) (d : SampleDoc) → o ≡ none → (load_sample o d).1.0 ≡ true
load_sample-none o (true, pages) e = refl
load_sample-none none (false, pages) e = refl
load_sample-none (some image) (false, pages) e = cc e

load_sample-failed : (o : Option ℕ) (d : SampleDoc) → d.0 ≡ true → (load_sample o d).1.0 ≡ true
load_sample-failed o (true, pages) h = refl
load_sample-failed o (false, pages) h = cc h

add_sample-good :
    (d : SampleDoc)
    → d.0 ≡ false
    → ((add_sample d).0 ≡ true) × ((add_sample d).1.0 ≡ false) × ((add_sample d).1.1 ≡ d.1)
add_sample-good (true, pages) good = cc good
add_sample-good (false, pages) good = (refl, refl, refl)

add_sample-failed :
    (d : SampleDoc) → d.0 ≡ true → ((add_sample d).0 ≡ false) × ((add_sample d).1.0 ≡ true)
add_sample-failed (true, pages) bad = (refl, refl)
add_sample-failed (false, pages) bad = cc bad

save_sample-good :
    (path : String) (d : SampleDoc) (fs : FileSystem)
    → d.0 ≡ false
    → save_sample path d fs ≡ write_trunc fs path (page_bytes d.1)
save_sample-good path (true, pages) fs good = cc good
save_sample-good path (false, pages) fs good = refl

save_sample-failed :
    (path : String) (d : SampleDoc) (fs : FileSystem) → d.0 ≡ true → save_sample path d fs ≡ fs
save_sample-failed path (true, pages) fs bad = refl
save_sample-failed path (false, pages) fs bad = cc bad

abbrev sample-IsLibharu : IsLibharu ℕ sample load_one fits_sample
sample-IsLibharu = record {
  failed = λ d. d.0;
  pages = λ d. d.1;
  bytes = page_bytes;
  new_good = refl;
  new_pages = refl;
  load_some = λ path image d good e. load_sample-some image (load_one path) d good e;
  load_none = λ path d e. load_sample-none (load_one path) d e;
  add_good = add_sample-good;
  add_failed = add_sample-failed;
  load_failed = λ path d h. load_sample-failed (load_one path) d h;
  draw_good = λ image m d good fit. rw fit (good, refl);
  draw_unfit = λ image m d unfit. rw unfit refl;
  save_good = save_sample-good;
  save_failed = save_sample-failed;
}

abbrev session : FileRw
session = record { path = "/tmp/session" }

abbrev disk : FileSystem
disk path = if str_eq path "/tmp/session" then some (regular (1 ∷ [])) else none

abbrev three_pages : List (String × ℕ)
three_pages = ("/tmp/1.jpg", 0) ∷ ("/tmp/gone.jpg", 0) ∷ ("/tmp/1.jpg", 9) ∷ []

abbrev two_pages : Container list_layout
two_pages = record {
  items = 10 ∷ 20 ∷ [];
  layout = 10 ∷ 20 ∷ [];
  numbers = λ a. if a == 10 then 1 else 2;
}

abbrev image_of : ℕ → String × ℕ
image_of item = ("/tmp/1.jpg", item)

save_pdf-move_image_example :
    (c' : Container list_layout) × (move_image list_layout two_pages 10 right ≡ ok c')
    × (move_image list_layout two_pages 20 left ≡ ok c')
    × IsShowing list_layout c' (20 ∷ 10 ∷ [])
    × ((save_pdf ℕ sample (some "out.pdf") (image_paths image_of c'.items) session disk).fs
        ≡ remove_session session (write_trunc disk "out.pdf" (1 ∷ 10 ∷ 1 ∷ 20 ∷ [])))
save_pdf-move_image_example =
    save_pdf-move_image ℕ sample load_one fits_sample sample-IsLibharu list_layout two_pages [] []
      10 20 image_of "out.pdf" session disk ((1, 10) ∷ (1, 20) ∷ []) (refl, (refl, (refl, tt))) refl
      (omega arith) refl (refl, refl, refl, (refl, refl, refl, tt))
