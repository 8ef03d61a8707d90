-- ===== src/Ctl.antt =====
-- The control program: serverctl/src/main.cpp, and where it meets `CIPC` of server/src/IPC/IPC.cpp.
pub mod Asking
mod Runs
use Prim.Native.String.{String, ◌++◌ as str_append}
use text.Mathlib.Text.{◌==◌ as str_eq}
use sane_in_the_membrane.Common.{
  ℕ, Bool, true, false, List, [], ◌∷◌, ◌++◌, Option, none, some, take, if◌then◌else◌,
}
use sane_in_the_membrane.Ipc.{Response, port_word, serve}
use sane_in_the_membrane.Ipc.Text.{render}

-- `CIPC::ipc_path` of a user, and the directories that it makes if there are none.
unfoldable pub server_path : String → Bool → String × List String
server_path userid exists =
    let base_dir = str_append "/run/user/" (str_append userid "/sane_in_the_membrane") in
    (str_append base_dir "/sitm.sock", if exists then [] else base_dir ∷ [])

-- `ipc_path` of the control program.
unfoldable pub ipc_path : String → Bool → String × List String
ipc_path userid exists =
    let base_dir = str_append "/run/user/" (str_append userid "/sane_in_the_membrane") in
    (str_append base_dir "/sitm.sock", if exists then [] else base_dir ∷ [])

-- What is behind the sockets of a machine: where a server listens, and what `recv` gets after a
-- message was sent to it; `none` is an error.
pub record Machine : Type 0 where
  pub listening : Option String
  pub answers : List ℕ → Option (List ℕ)

abbrev pub is_reached : Option String → String → Bool
is_reached none path = false
is_reached (some bound) path = str_eq bound path

pub data Exchange : Type 0 where
  exit_failure : String → Exchange
  printed : List ℕ → Exchange

abbrev pub received : Option (List ℕ) → Exchange
received none = exit_failure "Failed to read response"
received (some bytes) = printed (take 1024 bytes)

-- `opened` and `sent` say whether `socket` and `send` succeed.
unfoldable pub send_message : Bool → Bool → Machine → String → List ℕ → Exchange
send_message opened sent m path message =
    if opened
    then (if is_reached m.listening path
        then if sent then received (m.answers message) else exit_failure "Failed to send message"
        else exit_failure "Failed to connect to server socket. Is socket available ?")
    else exit_failure "Failed to open unix socket"

-- `main`, of a user.
unfoldable pub main : Bool → Bool → Machine → String → Bool → Exchange
unfolding send_message ipc_path
main opened sent m userid exists = send_message opened sent m (ipc_path userid exists).0 port_word

-- The bytes of the first answer on a connection, none if the server closes it.
abbrev pub first_answer : List Response → Option (List ℕ)
first_answer [] = some []
first_answer (r ∷ responses) = some (render r)

-- A machine on which the server of a user runs, with what its buffer holds.
abbrev pub with_server : String → Bool → ℕ → List ℕ → Machine
with_server userid exists port buffer = record {
  listening = some (server_path userid exists).0;
  answers = λ message. first_answer (serve port buffer (some message ∷ []));
}
