-- ===== src/Ocr/Restarting.antt =====
-- What becomes of a second text recognition (gui-app/src/Ocr/OcrMyPdfProcess.cpp).
use Prim.Native.String.{String}
use sane_in_the_membrane.Common.{
  ℕ, suc, ◌+◌, ◌≡◌, ◌≢◌, refl, sym, ap, ◌∙◌, List, [], ◌∷◌, ◌++◌, length, arith,
}
use sane_in_the_membrane.Ocr.{
  not_running, starting, QProcess, Sender, process, notifier, ProcessSignal, started,
  ready_read_standard_error, ready_read_standard_output, Connection, connect, unless_notifier,
  disconnect_connections, OcrMyPdfProcess, new_ocr_process, stop_ocr, start_ocr, ocr, ocr_all,
}

-- What Qt documents: a process that runs is not started again, and one that is killed counts as running
-- until its end is noticed.
pub record IsQProcess (q : QProcess) : Type 0 where
  pub idle : q.state q.new_process ≡ not_running
  pub start_running :
      (name : String) (arguments : List String) (p : q.Process)
      → q.state p ≢ not_running
      → q.start name arguments p ≡ p
  pub start_state :
      (name : String) (arguments : List String) (p : q.Process)
      → q.state p ≡ not_running
      → q.state (q.start name arguments p) ≡ starting
  pub start_arguments :
      (name : String) (arguments : List String) (p : q.Process)
      → q.state p ≡ not_running
      → q.arguments (q.start name arguments p) ≡ arguments
  pub kill_state : (p : q.Process) → q.state (q.kill p) ≡ q.state p
  pub kill_arguments : (p : q.Process) → q.arguments (q.kill p) ≡ q.arguments p

-- Reference: how many handlers are called when the process writes to its standard error. The first of
-- them takes what was written.
abbrev pub handles : ProcessSignal → ℕ
handles started = 0
handles ready_read_standard_error = 1
handles ready_read_standard_output = 0

abbrev pub handlers : List Connection → ℕ
handlers [] = 0
handlers (c ∷ connections) = handles c.signal + handlers connections

handlers-append : (xs ys : List Connection) → handlers (xs ++ ys) ≡ handlers xs + handlers ys
handlers-append [] ys = omega arith
handlers-append (c ∷ xs) ys = omega (arith, handlers-append xs ys)

unless_notifier-append :
    (sender : Sender) (c : Connection) (xs ys : List Connection)
    → unless_notifier sender c xs ++ ys ≡ unless_notifier sender c (xs ++ ys)
unless_notifier-append process c xs ys = refl
unless_notifier-append notifier c xs ys = refl

disconnect_connections-append :
    (xs ys : List Connection)
    → disconnect_connections (xs ++ ys) ≡ disconnect_connections xs ++ disconnect_connections ys
disconnect_connections-append [] ys = refl
disconnect_connections-append (c ∷ xs) ys =
    ap (unless_notifier c.sender c) (disconnect_connections-append xs ys)
    ∙ sym
        (unless_notifier-append c.sender c (disconnect_connections xs) (disconnect_connections ys))

starting_ne : starting ≢ not_running
starting_ne e = cc e

connected-kept :
    (connections : List Connection)
    → disconnect_connections connections ≡ connections
    → let after = connect (disconnect_connections connections) in
      disconnect_connections after ≡ after
connected-kept connections h =
    disconnect_connections-append (disconnect_connections connections) _
    ∙ ap (λ xs. connect (disconnect_connections xs)) h

connected-heard :
    (connections : List Connection)
    → disconnect_connections connections ≡ connections
    → handlers (connect (disconnect_connections connections)) ≡ suc (handlers connections)
connected-heard connections h =
    omega (arith, handlers-append (disconnect_connections connections) (connect []), ap handlers h)

module _ (q : QProcess) (laws : IsQProcess q) where
  -- A process that was started with arguments, and whose connections are all heard after a number of
  -- calls.
  record Ongoing (arguments : List String) (n : ℕ) (o : OcrMyPdfProcess q) : Type 0 where
    busy : q.state o.process ≡ starting
    begun : q.arguments o.process ≡ arguments
    kept : disconnect_connections o.connections ≡ o.connections
    heard : handlers o.connections ≡ n

  killed :
      (o : OcrMyPdfProcess q)
      → q.state o.process ≡ starting
      → (file : String)
      → (ocr q file o).process
        ≡ q.start "ocrmypdf" ("--force-ocr" ∷ file ∷ file ∷ []) (q.kill o.process)
  unfolding ocr stop_ocr start_ocr
  killed o e file = rw e refl

  Ongoing-ocr :
      (arguments : List String) (n : ℕ) (file : String) (o : OcrMyPdfProcess q)
      → Ongoing arguments n o
      → Ongoing arguments (suc n) (ocr q file o)
  unfolding ocr stop_ocr start_ocr
  Ongoing-ocr arguments n file o g =
      let still : q.state (q.kill o.process) ≢ not_running =
        λ e. starting_ne (sym g.busy ∙ sym (laws.kill_state o.process) ∙ e) in
      let same =
        killed o g.busy file
        ∙ laws.start_running "ocrmypdf" ("--force-ocr" ∷ file ∷ file ∷ []) (q.kill o.process)
            still in
      record {
        busy = ap q.state same ∙ laws.kill_state o.process ∙ g.busy;
        begun = ap q.arguments same ∙ laws.kill_arguments o.process ∙ g.begun;
        kept = connected-kept o.connections g.kept;
        heard = connected-heard o.connections g.kept ∙ ap suc g.heard;
      }

  Ongoing-ocr_all :
      (arguments : List String) (n : ℕ) (files : List String) (o : OcrMyPdfProcess q)
      → Ongoing arguments n o
      → Ongoing arguments (length files + n) (ocr_all q files o)
  unfolding ocr_all
  Ongoing-ocr_all arguments n [] o g = record {
    busy = g.busy;
    begun = g.begun;
    kept = g.kept;
    heard = omega (arith, g.heard);
  }
  Ongoing-ocr_all arguments n (file ∷ files) o g =
      let later =
        Ongoing-ocr_all arguments (suc n) files (ocr q file o) (Ongoing-ocr arguments n file o g) in
      record {
        busy = later.busy;
        begun = later.begun;
        kept = later.kept;
        heard = omega (arith, later.heard);
      }

  Ongoing-first :
      (result : ℕ) (file : String)
      → Ongoing ("--force-ocr" ∷ file ∷ file ∷ []) 1 (ocr q file (new_ocr_process q result))
  unfolding ocr stop_ocr start_ocr
  Ongoing-first result file =
      let same : (stop_ocr q (new_ocr_process q result)).process ≡ q.new_process =
        rw laws.idle refl in
      let begin = ap (q.start "ocrmypdf" ("--force-ocr" ∷ file ∷ file ∷ [])) same in
      record {
        busy = ap q.state begin ∙ laws.start_state "ocrmypdf" _ q.new_process laws.idle;
        begun = ap q.arguments begin ∙ laws.start_arguments "ocrmypdf" _ q.new_process laws.idle;
        kept = refl;
        heard = refl;
      }

-- A text recognition that is asked for before Qt has noticed the end of the one before does not begin:
-- if a process that runs is not started again, and a killed one counts as running, then after calls
-- for a file and for any others, one after the other, the process is still that of the first file,
-- and its standard error has one handler for each of the calls.
pub ocr_all-first :
    (q : QProcess) (result : ℕ) (file : String) (files : List String)
    → IsQProcess q
    → let o = ocr_all q (file ∷ files) (new_ocr_process q result) in
      (q.state o.process ≡ starting)
      × (q.arguments o.process ≡ "--force-ocr" ∷ file ∷ file ∷ [])
      × (handlers o.connections ≡ length files + 1)
unfolding ocr_all
ocr_all-first q result file files laws =
    let g = Ongoing-ocr_all q laws _ 1 files _ (Ongoing-first q laws result file) in
    (g.busy, g.begun, g.heard)
