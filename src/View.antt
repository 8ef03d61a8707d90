-- ===== src/View.antt =====
-- The pages of the document on screen: `CImageItemManager` and `CImageItemContainer` of
-- gui-app/src/Ui/ImageView.{hpp,cpp}.
pub mod Layout
pub mod Container
pub mod Numbers
pub mod Pages
pub mod Edit
pub mod Moved
pub mod Document
pub mod Positions
pub mod Refines
pub mod Sorted
mod Runs
