-- ===== src/Ipc.antt =====
-- The server's control socket: `CIPC` of server/src/IPC/IPC.{hpp,cpp}. A string is its bytes.
pub mod Requests
pub mod Text
use sane_in_the_membrane.Common.{
  ℕ, suc, ◌+◌, ◌-◌, Bool, true, false, List, [], ◌∷◌, ◌++◌, Option, none, some, ◌==◌, ◌&&◌, ltb,
  set, if◌then◌else◌, length, take, drop,
}

abbrev pub read_buffer_size : ℕ
read_buffer_size = 1024

-- `std::string{read_buffer}`: up to the first null byte.
unfoldable pub c_string : List ℕ → List ℕ
c_string [] = []
c_string (b ∷ bs) = let rest = c_string bs in if b == 0 then [] else b ∷ rest

abbrev pub starts_with : List ℕ → List ℕ → Bool
starts_with [] ys = true
starts_with (a ∷ xs) [] = false
starts_with (a ∷ xs) (b ∷ ys) = (a == b) && starts_with xs ys

-- `std::string::find`: where the pattern stands first.
unfoldable pub find : List ℕ → List ℕ → Option ℕ
find pattern [] = if starts_with pattern [] then some 0 else none
find pattern (b ∷ bs) =
    let later = elim (find pattern bs) as (λ _. Option ℕ) [ none ↦ none | some i ↦ some (suc i) ] in
    if starts_with pattern (b ∷ bs) then some 0 else later

pub data Response : Type 0 where
  current_port : ℕ → Response
  unknown_request : Response

abbrev pub port_word : List ℕ
port_word = b'p' ∷ b'o' ∷ b'r' ∷ b't' ∷ []

abbrev pub answer_at : ℕ → Option ℕ → Response
answer_at port none = unknown_request
answer_at port (some i) = if i == 0 then current_port port else unknown_request

unfoldable pub process_request : ℕ → List ℕ → Response
unfolding find
process_request port request = answer_at port (find port_word request)

-- `read` puts a message, of at most the buffer's size, over the front of the buffer; a null byte is
-- put behind it, over its last byte if it fills the buffer.
unfoldable pub fill_buffer : List ℕ → List ℕ → List ℕ
fill_buffer buffer message =
    let size = length message in
    set (message ++ drop size buffer)
      (if size == read_buffer_size then read_buffer_size - 1 else size) 0

-- The inner loop, over the results of `read` on one connection: `none` is an error; an empty message
-- is the end of the stream.
unfoldable pub serve : ℕ → List ℕ → List (Option (List ℕ)) → List Response
unfolding fill_buffer c_string process_request
serve port buffer [] = []
serve port buffer (none ∷ reads) = []
serve port buffer (some [] ∷ reads) = []
serve port buffer (some (b ∷ message) ∷ reads) =
    let filled = fill_buffer buffer (b ∷ message) in
    process_request port (c_string filled) ∷ serve port filled reads
