-- ===== src/Ocr/Runs.antt =====
-- A process that is a state and its arguments, and the theorem at it.
use Prim.Native.String.{String}
use sane_in_the_membrane.Common.{◌≡◌, ◌≢◌, ap, refl, List, [], ◌∷◌}
use sane_in_the_membrane.Ocr.{
  ProcessState, not_running, starting, running, QProcess, new_ocr_process, ocr_all,
}
use sane_in_the_membrane.Ocr.Restarting.{IsQProcess, handlers, ocr_all-first}

abbrev started_with : List String → ProcessState × List String → ProcessState × List String
started_with arguments (not_running, old) = (starting, arguments)
started_with arguments (starting, old) = (starting, old)
started_with arguments (running, old) = (running, old)

abbrev simple : QProcess
simple = record {
  Process = ProcessState × List String;
  new_process = (not_running, []);
  state = λ p. p.0;
  arguments = λ p. p.1;
  start = λ name arguments p. started_with arguments p;
  kill = λ p. p;
}

abbrev state_of : ProcessState × List String → ProcessState
state_of p = p.0

abbrev arguments_of : ProcessState × List String → List String
arguments_of p = p.1

busy_stays :
    (state : ProcessState) (arguments old : List String)
    → state ≢ not_running
    → started_with arguments (state, old) ≡ (state, old)
busy_stays not_running arguments old n = absurd (n refl)
busy_stays starting arguments old n = refl
busy_stays running arguments old n = refl

begins :
    (state : ProcessState) (arguments old : List String)
    → state ≡ not_running
    → started_with arguments (state, old) ≡ (starting, arguments)
begins not_running arguments old e = refl
begins starting arguments old e = cc e
begins running arguments old e = cc e

simple-IsQProcess : IsQProcess simple
simple-IsQProcess = record {
  idle = refl;
  start_running = λ name arguments p n. busy_stays p.0 arguments p.1 n;
  start_state = λ name arguments p e. ap state_of (begins p.0 arguments p.1 e);
  start_arguments = λ name arguments p e. ap arguments_of (begins p.0 arguments p.1 e);
  kill_state = λ p. refl;
  kill_arguments = λ p. refl;
}

ocr_all-first_example :
    let o = ocr_all simple ("a.pdf" ∷ "b.pdf" ∷ "c.pdf" ∷ []) (new_ocr_process simple 0) in
    (o.process.0 ≡ starting)
    × (o.process.1 ≡ "--force-ocr" ∷ "a.pdf" ∷ "a.pdf" ∷ [])
    × (handlers o.connections ≡ 3)
ocr_all-first_example = ocr_all-first simple 0 "a.pdf" ("b.pdf" ∷ "c.pdf" ∷ []) simple-IsQProcess
