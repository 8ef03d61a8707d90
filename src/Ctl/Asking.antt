-- ===== src/Ctl/Asking.antt =====
-- What serverctl/src/main.cpp prints of the server's port.
use Prim.Native.String.{String}
use text.Mathlib.TextPositions.{eq_refl}
use sane_in_the_membrane.Common.{
  ℕ, ◌^◌, ◌<◌, ◌≡◌, refl, ap, Bool, true, List, [], ◌∷◌, some, length, drop, take-all, arith,
}
use sane_in_the_membrane.Ipc.{c_string, current_port, port_word, serve}
use sane_in_the_membrane.Ipc.Requests.{serve-answer_to}
use sane_in_the_membrane.Ipc.Text.{render, port_prefix, read_number, read_number-render}
use sane_in_the_membrane.Ctl.{
  server_path, ipc_path, is_reached, printed, send_message, main, first_answer, with_server,
}

-- The two programs look in the same place.
same_path : (userid : String) (e e' : Bool) → (server_path userid e).0 ≡ (ipc_path userid e').0
unfolding server_path ipc_path
same_path userid e e' = refl

is_reached_user :
    (userid : String) (e e' : Bool)
    → is_reached (some (server_path userid e).0) (ipc_path userid e').0 ≡ true
is_reached_user userid e e' = rw (same_path userid e e') (eq_refl (ipc_path userid e').0)

port_answer :
    (port : ℕ) (buffer : List ℕ)
    → length buffer ≡ 1024
    → first_answer (serve port buffer (some port_word ∷ [])) ≡ some (render (current_port port))
unfolding c_string
port_answer port buffer whole =
    ap first_answer
      (serve-answer_to port buffer (port_word ∷ []) whole ((omega arith, omega arith), tt))

-- On a machine where the server of a user runs, on a port below 2^31, the control program of the same
-- user, once its socket is open and its message is sent, prints the answer of the server whole, and
-- the port is read back from what follows the prefix.
pub main-printed :
    (userid : String) (server_dir client_dir : Bool) (port : ℕ) (buffer : List ℕ)
    → port < 2 ^ 31
    → length buffer ≡ 1024
    → (bytes : List ℕ) × (main true true
          (with_server userid server_dir port buffer)
          userid
          client_dir
        ≡ printed bytes)
      × (read_number 0 (drop (length port_prefix) bytes) ≡ some port)
unfolding main send_message
main-printed userid e e' port buffer small whole =
    let (reads, short) = read_number-render port small in
    (
      render (current_port port),
      simp (
        is_reached_user userid e e',
        port_answer port buffer whole,
        take-all 1024 (render (current_port port)) short,
      ),
      reads,
    )
