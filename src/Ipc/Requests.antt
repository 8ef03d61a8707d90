-- ===== src/Ipc/Requests.antt =====
-- What the control socket of server/src/IPC/IPC.cpp answers.
use sane_in_the_membrane.Common.{
  ℕ, zero, suc, ◌≤◌, ◌<◌, ◌≡◌, refl, ap, ◌∙◌, sym, List, [], ◌∷◌, ◌++◌, Option, none, some, ◌==◌,
  set, if◌then◌else◌, length, take, drop, arith, Bool-cases, inl, inr, All, length-append,
  take-append, take-all, length-drop, length-set, ==_iff, map,
}
use sane_in_the_membrane.Ipc.{
  c_string, starts_with, find, Response, current_port, unknown_request, port_word, answer_at,
  process_request, fill_buffer, serve,
}

answer_at-later :
    (port : ℕ) (o : Option ℕ)
    → answer_at port (elim o as (λ _. Option ℕ) [ none ↦ none | some i ↦ some (suc i) ])
      ≡ unknown_request
answer_at-later port none = refl
answer_at-later port (some i) = ground arith

-- A request is answered with the port if it starts with the word, and not at all otherwise: a word
-- that stands later does not count.
pub process_request-starts_with :
    (port : ℕ) (request : List ℕ)
    → process_request port request
      ≡ (if starts_with port_word request then current_port port else unknown_request)
unfolding process_request find
process_request-starts_with port [] = refl
process_request-starts_with port (b ∷ bs) = elim (Bool-cases (starts_with port_word (b ∷ bs))) [
  | inl e ↦ rw e refl
  | inr e ↦ rw e (answer_at-later port (find port_word bs))
]

c_string-set :
    (bytes : List ℕ) (n : ℕ) → n < length bytes → c_string (set bytes n 0) ≡ c_string (take n bytes)
unfolding c_string
c_string-set [] n h = absurd (omega (arith, h))
c_string-set (b ∷ bytes) zero h = refl
c_string-set (b ∷ bytes) (suc n) h = rw (c_string-set bytes n (omega arith)) refl

module _ (buffer message : List ℕ) (whole : length buffer ≡ 1024)
    (fits : length message ≤ 1024) where
  length-over : length (message ++ drop (length message) buffer) ≡ 1024
  length-over = omega (
    arith,
    length-append message (drop (length message) buffer),
    length-drop (length message) buffer,
    whole,
    fits,
  )

  length-fill_buffer : length (fill_buffer buffer message) ≡ 1024
  unfolding fill_buffer
  length-fill_buffer = length-set (message ++ drop (length message) buffer) _ 0 ∙ length-over

  -- What is left of a message: its first 1023 bytes, up to a null byte; nothing of an older message.
  c_string-fill_buffer : c_string (fill_buffer buffer message) ≡ c_string (take 1023 message)
  unfolding fill_buffer
  c_string-fill_buffer = elim (Bool-cases (length message == 1024)) [
    | inl full ↦ rw full (
        c_string-set (message ++ drop (length message) buffer) 1023 (omega (arith, length-over))
        ∙ ap c_string (
            take-append 1023 message (drop (length message) buffer)
              (omega (arith, (==_iff (length message) 1024).0 full))))
    | inr short ↦
        let few : length message ≤ 1023 = ground (arith, fits, short) in
        rw short (
          c_string-set (message ++ drop (length message) buffer) (length message)
            (omega (arith, length-over, few))
          ∙ ap c_string (
              take-append (length message) message (drop (length message) buffer) (omega arith)
              ∙ take-all (length message) message (omega arith)
              ∙ sym (take-all 1023 message few)))
  ]

abbrev pub IsMessage : List ℕ → Type 0
IsMessage m = (0 < length m) × (length m ≤ 1024)

-- The answer that a message gets.
abbrev pub answer_to : ℕ → List ℕ → Response
answer_to port m =
    if starts_with port_word (c_string (take 1023 m)) then current_port port else unknown_request

-- A client that sends messages of up to 1024 bytes gets one answer for each, in order: the port if
-- the first 1023 bytes, up to a null byte, start with the word, whatever was in the buffer before.
pub serve-answer_to :
    (port : ℕ) (buffer : List ℕ) (messages : List (List ℕ))
    → length buffer ≡ 1024
    → All IsMessage messages
    → serve port buffer (map some messages) ≡ map (answer_to port) messages
unfolding serve
serve-answer_to port buffer [] whole h = refl
serve-answer_to port buffer ([] ∷ messages) whole h = absurd (omega (arith, h.0.0))
serve-answer_to port buffer ((b ∷ m) ∷ messages) whole h =
    let filled = fill_buffer buffer (b ∷ m) in
    let rest =
      serve-answer_to port filled messages (length-fill_buffer buffer (b ∷ m) whole h.0.1) h.1 in
    let first : process_request port (c_string filled) ≡ answer_to port (b ∷ m) =
      process_request-starts_with port (c_string filled)
      ∙ ap (λ s. if starts_with port_word s then current_port port else unknown_request)
          (c_string-fill_buffer buffer (b ∷ m) whole h.0.1) in
    ap (λ r. r ∷ serve port filled (map some messages)) first
    ∙ ap (◌∷◌ (answer_to port (b ∷ m))) rest
