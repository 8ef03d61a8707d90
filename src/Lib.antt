-- ===== src/Lib.antt =====
-- A model of sane_in_the_membrane, which scans over the network: a server drives the scanners of a
-- machine through the SANE library and streams pages over gRPC; a desktop program shows the pages,
-- keeps them in a session file and saves them as a PDF file.
--
-- The parts, and the code that each file is about (paths from the repository's root):
-- Common: what the other modules share. Exec is the outcome of a C++ call: a value, `fault` for
--   undefined behaviour or a failed assertion, `stuck` for a loop that used up its fuel. Word holds
--   64-bit words, their bytes and pointer arithmetic that wraps, Int whole numbers with
--   a sign, Decimal the digits of numbers.
-- Files: gui-app/src/Utils/File.{hpp,cpp}, `CFile` and `CFileRW` over a map from paths to entries;
--   Opening is about what opening a file leaves;
--   Manager and TempPaths are gui-app/src/Service/FileManager.hpp and FileManger.cpp; Apart joins them
--   to UniqueId.
-- Sane: sane_wrapper/. Status is SaneStatus.cpp; Backend is the interface of the SANE library, an
--   argument of everything above it; Device is SaneDevice.{hpp,cpp}; Mock is mock/SaneMock.{hpp,cpp},
--   which fills the interface.
-- Scan: server/src/Reactors/ScanResponseReactor.{hpp,cpp}, one scan on the server. gRPC calls the
--   reactor, and the calls that the reactor makes are recorded in order.
-- Session: gui-app/src/Service/SessionService.{hpp,cpp} (Store, Load) and the session part of
--   gui-app/src/Ui/ImageView.{hpp,cpp}: Memory, Item and Items are the bytes of the pages, Restore
--   is `showEvent`, Lifecycle the flag that disables saving over runs of the program.
-- Reader: gui-app/src/Readers/ScanResponseReader.{hpp,cpp}, one scan at the client, and EndToEnd,
--   where the calls of the server's reactor reach it.
-- Service: sane_wrapper/src/Sane.cpp and server/src/Service/ScannerService.{hpp,cpp}, the list of
--   devices, its refreshing and the lookup of the device to scan.
-- View: the page container of gui-app/src/Ui/ImageView.{hpp,cpp}. Layout is the interface of Qt's box
--   layout, an argument of the rest; Edit, Pages and Moved are the operations on the pages; Document
--   is the list of pages that a container stands for, Refines joins the two, Sorted sorts them.
-- Pdf: gui-app/src/Utils/Pdf/Pdf.{hpp,cpp} and `sl_save_pdf` of gui-app/src/Ui/ImageView.cpp. Hpdf is
--   what libharu, an argument, is taken to do; Geometry
--   is the page that is made for a picture under a matrix, Preview sets it beside the preview of
--   the page, Spans bounds it; Builder has the other images and how a document is made.
-- Window: the slots of `CImageView` in gui-app/src/Ui/ImageView.cpp, which join View, Session and Pdf,
--   and gui-app/src/Ui/MainWindow.cpp. Pages is about the document shown, Closing about the question
--   for unsaved changes, Recovery about the session file after a stop; Restart and Reopening are
--   about the document that the next start shows, Turned about the buttons of a page and its place
--   in the document.
-- Globals: gui-app/src/Utils/Globals.hpp, the proxies of gui-app/src/Utils/ServiceProxy and
--   gui-app/src/Ui/MainApp.hpp: the services, who hears their signals, and the watchers' threads.
--   Wiring has the connections of a generation, App is about the life of the program, Searching and
--   Search join it to Mdns and Semaphore.
-- Ocr: gui-app/src/Ocr/OcrMyPdfProcess.{hpp,cpp}; Restarting is about calls one after the other.
-- Panel: the controls that choose a scanner: gui-app/src/Service/DeviceList.{hpp,cpp}, the combo box
--   and the buttons of gui-app/src/Ui/Select and gui-app/src/Ui/Scan, and the swap of the services in
--   gui-app/src/Utils/Globals.hpp. Listed has closed forms of its loops; Selected joins it to Service.
-- Semaphore: gui-app/src/Ui/SemaphoreWidget.{hpp,cpp}, the light that the Watcher and Mdns drive.
-- UniqueId: gui-app/src/Service/UniqueIdGenerator.{hpp,cpp}; Common.Bits has the law of the bitwise or.
-- Startup: server/src/StartupOrchestrator.cpp, with the loops of `CAutoRestartableAvahiService` and of
--   `CIPC`: five threads and the handler of SIGINT as sequences of turns. Stopping, Draining and Join
--   are about a stop that ends the server, Lost about one that does not.
-- Watcher: gui-app/src/Service/ChannelStateChangeService.{hpp,cpp}, which looks for a server; Thread is
--   its thread.
-- Mdns: gui-app/src/Utils/mDNS/: Sockets, Replies, Heard, Query, Results and Address are
--   mDns.{hpp,cpp}, AutoFind and Worker are mDnsAutoFind.{hpp,cpp}.
-- Avahi: server/src/mDns/AvahiServiceRegistration.hpp, which announces the server.
-- Ipc: server/src/IPC/IPC.{hpp,cpp}, the control socket; Text has the bytes of its answers.
-- Ctl: serverctl/src/main.cpp, the program that asks for the port over the control socket; what is
--   behind the sockets of a machine is a record.
-- Logger: utils/src/Logger.{hpp,cpp}.
-- Synchronized: utils/src/SynchronizedAccess.hpp, an object behind a shared mutex. Exclusion counts the
--   owners of the mutex, Stability is about what a guard protects.
--
-- How the state corresponds: an object is a record of its fields; an operation takes and returns
-- it. A null pointer is `none`. A SANE handle is an index. The device that two reactors share is
-- passed from one to the other explicitly; in Service a device is an address in a heap, and the shared
-- pointers to it are lists of addresses. What the other components log is left out. In Pdf.Geometry numbers are
-- whole: turning and mirroring make no others, and `float` holds them exactly up to 2^24.
--
-- Fuel: the loop of `next_packet` takes one unit for each read, and the reads of a device that
-- yields its data in n reads are done in n + 1; the loop of `deserialize_items` takes one for each
-- page and one more; `create_service` takes one for each collision and one more.
--
-- Interleavings: in Startup, Mdns.Worker and Watcher.Thread a run is a list of turns of the threads,
-- and what the libraries and the clients do is part of a turn; in Panel, Window and Globals it is a
-- list of events, in Synchronized one of operations.
--
-- Not modelled: packet parsing, which the mdns library does, the descriptors of the sockets, the Windows
-- branches, Qt's painting and layout, the call of the text recognition after a save, gRPC's own threads, channels and settings, the generated protocol
-- code, the program that recognises the text.
pub mod Common
pub mod Avahi
pub mod Ctl
pub mod Files
pub mod Globals
pub mod Ipc
pub mod Logger
pub mod Mdns
pub mod Ocr
pub mod Panel
pub mod Pdf
pub mod Reader
pub mod Sane
pub mod Scan
pub mod Semaphore
pub mod Service
pub mod Session
pub mod Startup
pub mod Synchronized
pub mod UniqueId
pub mod View
pub mod Watcher
pub mod Window
