-- ===== src/Window.antt =====
-- The scanned pages and the main window: the slots of `CImageView` (gui-app/src/Ui/ImageView.cpp) that
-- scans, buttons and the start of the program call, and `CMainWindow` (gui-app/src/Ui/MainWindow.cpp)
-- with its flag for unsaved changes. Signals are delivered at once. The file of a scanned page is
-- made before its slot goes on, and left out here with the picture that is saved into it; painting
-- is left out.
pub mod Closing
pub mod Pages
pub mod Recovery
pub mod Restart
pub mod Reopening
pub mod Turned
mod Runs
use Prim.Native.String.{String}
use sane_in_the_membrane.Common.{
  ℕ, suc, ◌*◌, ◌^◌, Bool, true, false, not, List, [], ◌∷◌, Option, none, some, map, ltb, leb, ◌==◌,
  if◌then◌else◌, length,
}
use sane_in_the_membrane.Common.Exec.{Exec, ok, fault, ◌>>=◌}
use sane_in_the_membrane.Files.FileSystem.{FileSystem}
use sane_in_the_membrane.Files.FileRw.{FileRw}
use sane_in_the_membrane.Session.Item.{QtMatrix, ImageItemSerialized}
use sane_in_the_membrane.Session.Restore.{
  Answer, pressed_ok, pressed_cancel, closed, Restored, show_event, save_pages,
}
use sane_in_the_membrane.View.Layout.{BoxLayout}
use sane_in_the_membrane.View.Container.{
  Container, MoveDirection, add_image, add_restored, remove_image, move_image,
}
use sane_in_the_membrane.Pdf.{Libharu, save_pdf}
use sane_in_the_membrane.Files.File.{new_file}

-- A button of an item that changes its transform.
pub data ItemButton : Type 0 where
  rotate_left rotate_right mirror : ItemButton

-- What the window takes from Qt and from libharu, the version of the session file and its place.
-- A path of a page is its bytes, and libharu takes it as text.
pub record Setting : Type 1 where
  pub layout : BoxLayout
  pub turned : ItemButton → QtMatrix → QtMatrix
  pub identity : QtMatrix
  pub Matrix : Type 0
  pub pdf_matrix : QtMatrix → Matrix
  pub path_text : List ℕ → String
  pub libharu : Libharu Matrix
  pub version : ℕ
  pub session : FileRw

-- `m_file` and `m_transform` of an item.
pub record Image : Type 0 where
  pub path : List ℕ
  pub transform : QtMatrix

-- The numbers of a scan are not negative, and the width and the height fit an `int`.
pub record ScannerParameters : Type 0 where
  pub bytes_per_line : ℕ
  pub pixels_per_line : ℕ
  pub lines : ℕ

-- Whether `closeEvent` accepts, whether it asked before, and whether the finder was interrupted.
pub record Close : Type 0 where
  pub accepted : Bool
  pub asked : Bool
  pub interrupted : Bool

abbrev pub confirm : Answer → Close
confirm pressed_ok = record { accepted = true; asked = true; interrupted = true }
confirm closed = record { accepted = true; asked = true; interrupted = true }
confirm pressed_cancel = record { accepted = false; asked = true; interrupted = false }

pub data WindowEvent : Type 0 where
  shown : ℕ → ℕ → Answer → WindowEvent
  scan_done : Bool → ScannerParameters → ℕ → List ℕ → WindowEvent
  remove_requested : ℕ → WindowEvent
  move_requested : ℕ → MoveDirection → WindowEvent
  transform_requested : ItemButton → ℕ → WindowEvent
  save_clicked : Option String → WindowEvent

module _ (s : Setting) where
  -- The view, the files, and whether the window counts as modified. The next item to be allocated
  -- gets the address `next_item`.
  pub record ImageView : Type 0 where
    pub grid : Container s.layout
    pub images : ℕ → Image
    pub next_item : ℕ
    pub fs : FileSystem
    pub session_saving_disabled : Bool
    pub window_modified : Bool

  -- `SImageItemSerialized(CImageItem&)`.
  abbrev pub serialized : ImageView → ℕ → ImageItemSerialized
  serialized v a = record {
    transform_matrix = (v.images a).transform;
    page_number = v.grid.numbers a;
    path = (v.images a).path;
  }

  abbrev pub items_of : ImageView → List ImageItemSerialized
  items_of v = map (serialized v) v.grid.items

  -- `CImageView::save_session`.
  unfoldable pub save_view : ImageView → ImageView
  save_view v = record v {
    fs = save_pages s.version v.session_saving_disabled s.session (items_of v) v.fs;
  }

  abbrev pub sl_documents_changed : ℕ → ImageView → ImageView
  sl_documents_changed n v = record v { window_modified = not (n == 0) }

  abbrev pub sl_document_saved : ImageView → ImageView
  sl_document_saved v = record v { window_modified = false }

  unfoldable pub init_image_connections : ImageView → ImageView
  unfolding save_view
  init_image_connections v = save_view (sl_documents_changed (length v.grid.items) v)

  abbrev pub new_item : Image → ImageView → ImageView
  new_item image v = record v {
    images = λ a. if v.next_item == a then image else v.images a;
    next_item = suc v.next_item;
  }

  -- `add_image` of a file, and of a page of a session.
  unfoldable pub add_scanned : List ℕ → ImageView → ImageView
  unfolding init_image_connections
  add_scanned path v =
      init_image_connections (record (new_item (record { path = path; transform = s.identity }) v) {
        grid = add_image s.layout v.grid v.next_item;
      })

  -- `CImageItem(SImageItemSerialized&)`: the file of a page is opened, and made if it is missing.
  abbrev pub restored_item : ImageItemSerialized → ImageView → ImageView
  restored_item item v =
      record (new_item (record { path = item.path; transform = item.transform_matrix }) v) {
        fs = (new_file (s.path_text item.path) v.fs).1;
      }

  unfoldable pub add_page : ImageItemSerialized → ImageView → ImageView
  unfolding init_image_connections
  add_page item v = init_image_connections (record (restored_item item v) {
    grid = add_restored s.layout v.grid v.next_item item.page_number;
  })

  unfoldable pub add_pages : List ImageItemSerialized → ImageView → ImageView
  unfolding add_page
  add_pages [] v = v
  add_pages (item ∷ items) v = add_pages items (add_page item v)

  unfoldable pub sl_remove_image : ℕ → ImageView → Exec ImageView
  unfolding save_view
  sl_remove_image a v = remove_image s.layout v.grid a >>= λ grid.
      ok (save_view (sl_documents_changed (s.layout.count grid.layout) (record v { grid = grid })))

  unfoldable pub sl_move_image : ℕ → MoveDirection → ImageView → Exec ImageView
  unfolding save_view
  sl_move_image a direction v =
      move_image s.layout v.grid a direction >>= λ grid. ok (save_view (record v { grid = grid }))

  -- A click on one of the buttons of an item, and `sl_transform`.
  unfoldable pub sl_transform : ItemButton → ℕ → ImageView → ImageView
  unfolding save_view
  sl_transform t a v =
      let image = record (v.images a) { transform = s.turned t (v.images a).transform } in
      save_view (record v { images = λ b. if a == b then image else v.images b })

  -- A scan is done: whether its status is ok, the size of its file, which is read whole, and the path
  -- of the picture. The product may overflow, which is undefined, and so is what the picture reads
  -- past the bytes of the file.
  unfoldable pub sl_sig_done : Bool → ScannerParameters → ℕ → List ℕ → ImageView → Exec ImageView
  unfolding add_scanned
  sl_sig_done status_ok params size path v =
      if not status_ok
      then ok v
      else if leb (2 ^ 63) (params.pixels_per_line * params.lines)
      then fault
      else if ltb size (params.pixels_per_line * params.lines)
      then ok v
      else if ltb size (params.bytes_per_line * params.lines)
      then fault
      else ok (add_scanned path v)

  abbrev pub pdf_images : ImageView → List (String × s.Matrix)
  pdf_images v =
      map (λ a. (s.path_text (v.images a).path, s.pdf_matrix (v.images a).transform)) v.grid.items

  abbrev pub after_save : Bool → FileSystem → ImageView → ImageView
  after_save false fs v = v
  after_save true fs v = sl_document_saved (record v { fs = fs })

  unfoldable pub sl_save_pdf : Option String → ImageView → ImageView
  sl_save_pdf answer v =
      let saved = save_pdf s.Matrix s.libharu answer (pdf_images v) s.session v.fs in
      after_save saved.emitted saved.fs v

  abbrev pub enable_saving : Bool → ImageView → ImageView
  enable_saving false v = v
  enable_saving true v = record v { session_saving_disabled = false }

  -- `showEvent`, with the address of the bytes that it loads and the fuel of its loop.
  unfoldable pub show_view : ℕ → ℕ → Answer → ImageView → Exec ImageView
  unfolding add_pages
  show_view base fuel answer v = show_event s.version base fuel answer s.session v.fs >>= λ r.
      ok (enable_saving r.saving_enabled (add_pages r.pages v))

  unfoldable pub close_event : Answer → ImageView → Close
  close_event answer v =
      if not v.window_modified
      then record { accepted = true; asked = false; interrupted = false }
      else confirm answer

  unfoldable pub handle_event : WindowEvent → ImageView → Exec ImageView
  handle_event (shown base fuel answer) v = show_view base fuel answer v
  handle_event (scan_done status_ok params size path) v = sl_sig_done status_ok params size path v
  handle_event (remove_requested a) v = sl_remove_image a v
  handle_event (move_requested a direction) v = sl_move_image a direction v
  handle_event (transform_requested t a) v = ok (sl_transform t a v)
  handle_event (save_clicked answer) v = ok (sl_save_pdf answer v)

  unfoldable pub handle_events : List WindowEvent → ImageView → Exec ImageView
  unfolding handle_event
  handle_events [] v = ok v
  handle_events (e ∷ events) v = handle_event e v >>= λ v'. handle_events events v'
