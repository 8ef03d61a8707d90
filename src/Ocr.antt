-- ===== src/Ocr.antt =====
-- The text recognition of a document: gui-app/src/Ocr/OcrMyPdfProcess.{hpp,cpp}. `QProcess` is an
-- interface: its state, what it was started with, its start and its end by `kill`.
pub mod Restarting
mod Runs
use Prim.Native.String.{String}
use sane_in_the_membrane.Common.{
  ℕ, suc, Bool, true, false, List, [], ◌∷◌, ◌++◌, ◌||◌, ◌==◌, if◌then◌else◌,
}

pub data ProcessState : Type 0 where
  not_running starting running : ProcessState

abbrev pub is_starting : ProcessState → Bool
is_starting not_running = false
is_starting starting = true
is_starting running = false

abbrev pub is_running : ProcessState → Bool
is_running not_running = false
is_running starting = false
is_running running = true

pub record QProcess : Type 1 where
  pub Process : Type 0
  pub new_process : Process
  pub state : Process → ProcessState
  pub arguments : Process → List String
  pub start : String → List String → Process → Process
  pub kill : Process → Process

-- A connection of Qt: who sends, and which of the signals of a process.
pub data Sender : Type 0 where
  process notifier : Sender

pub data ProcessSignal : Type 0 where
  started ready_read_standard_error ready_read_standard_output : ProcessSignal

pub record Connection : Type 0 where
  pub sender : Sender
  pub signal : ProcessSignal

-- `COcrMyPdfNotifier::connect`.
abbrev pub connect : List Connection → List Connection
connect connections =
    connections
    ++ (record { sender = process; signal = started }
        ∷ record { sender = process; signal = ready_read_standard_error }
        ∷ record { sender = process; signal = ready_read_standard_output }
        ∷ [])

-- `QObject::disconnect(this)` of the notifier: what the notifier sends is disconnected.
abbrev pub unless_notifier : Sender → Connection → List Connection → List Connection
unless_notifier process c connections = c ∷ connections
unless_notifier notifier c connections = connections

abbrev pub disconnect_connections : List Connection → List Connection
disconnect_connections [] = []
disconnect_connections (c ∷ connections) =
    unless_notifier c.sender c (disconnect_connections connections)

module _ (q : QProcess) where
  pub record OcrMyPdfProcess : Type 0 where
    pub process : q.Process
    pub connections : List Connection
    pub installed : Bool

  -- `ocrmypdf --version` is run, and its result noted.
  abbrev pub new_ocr_process : ℕ → OcrMyPdfProcess
  new_ocr_process result = record {
    process = q.new_process;
    connections = [];
    installed = result == 0;
  }

  unfoldable pub stop_ocr : OcrMyPdfProcess → OcrMyPdfProcess
  stop_ocr o = record o {
    process =
        if is_running (q.state o.process) || is_starting (q.state o.process)
        then q.kill o.process
        else o.process;
    connections = disconnect_connections o.connections;
  }

  unfoldable pub start_ocr : String → OcrMyPdfProcess → OcrMyPdfProcess
  start_ocr input_file o = record o {
    process = q.start "ocrmypdf" ("--force-ocr" ∷ input_file ∷ input_file ∷ []) o.process;
    connections = connect o.connections;
  }

  unfoldable pub ocr : String → OcrMyPdfProcess → OcrMyPdfProcess
  unfolding stop_ocr start_ocr
  ocr input_file o = start_ocr input_file (stop_ocr o)

  -- One call after the other, before Qt notices that a process ended.
  unfoldable pub ocr_all : List String → OcrMyPdfProcess → OcrMyPdfProcess
  unfolding ocr
  ocr_all [] o = o
  ocr_all (input_file ∷ input_files) o = ocr_all input_files (ocr input_file o)
