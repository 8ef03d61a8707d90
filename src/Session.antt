-- ===== src/Session.antt =====
-- The saved session: gui-app/src/Service/SessionService.{hpp,cpp} and the serialisation in
-- gui-app/src/Ui/ImageView.{hpp,cpp}.
pub mod Memory
pub mod Item
pub mod Items
pub mod Store
pub mod Load
pub mod RoundTrip
pub mod Restore
pub mod Lifecycle
pub mod Corrupt
mod Runs
