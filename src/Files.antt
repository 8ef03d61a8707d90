-- ===== src/Files.antt =====
-- Files on disk: gui-app/src/Utils/File.{hpp,cpp} and gui-app/src/Service/FileManager.hpp.
pub mod FileSystem
pub mod FileRw
pub mod File
pub mod Opening
pub mod Manager
pub mod Temporary
pub mod TempPaths
pub mod Apart
