-- ===== src/Ipc/Text.antt =====
-- The bytes of an answer of `CIPC::process_request` (server/src/IPC/IPC.cpp), with the decimal
-- digits that `std::format` makes of a port, and how they are read back.
use sane_in_the_membrane.Common.{
  ℕ, ◌+◌, ◌-◌, ◌*◌, ◌^◌, ◌≤◌, ◌<◌, ◌≡◌, refl, ap, ◌∙◌, List, [], ◌∷◌, ◌++◌, Option, none, some,
  ◌==◌, if◌then◌else◌, length, drop, drop-length-append, arith, length-append, All,
}
use sane_in_the_membrane.Common.Decimal.{
  digits, IsDigit, value_of, digits-IsDigit, value_of-digits, length-digits,
}
use Prim.Native.Char.{code}
use Prim.Native.String.{String}
use sane_in_the_membrane.Ipc.{Response, current_port, unknown_request}

abbrev pub codes : String → List ℕ
codes String.[] = []
codes (String.◌∷◌ c s) = code c ∷ codes s

abbrev pub port_prefix : List ℕ
port_prefix = codes "Current port is: `"

unfoldable pub render : Response → List ℕ
unfolding digits
render (current_port port) = port_prefix ++ (digits 10 port ++ (b'`' ∷ []))
render unknown_request = codes "Unknown request"

-- Reference: the number that stands before a backquote.
abbrev pub read_number : ℕ → List ℕ → Option ℕ
read_number n [] = none
read_number n (b ∷ bytes) =
    let rest = read_number (n * 10 + (b - 48)) bytes in if b == b'`' then some n else rest

read_number-value_of :
    (n : ℕ) (ds : List ℕ)
    → All IsDigit ds
    → read_number n (ds ++ (b'`' ∷ [])) ≡ some (value_of n ds)
read_number-value_of n [] h = refl
read_number-value_of n (d ∷ ds) h =
    grind (arith, h.0, read_number-value_of (n * 10 + (d - 48)) ds h.1)

-- The port can be read from the answer, which is short.
pub read_number-render :
    (port : ℕ)
    → port < 2 ^ 31
    → (read_number 0 (drop (length port_prefix) (render (current_port port))) ≡ some port)
      × (length (render (current_port port)) ≤ 1024)
unfolding render
read_number-render port small = (
  ap (read_number 0) (drop-length-append port_prefix (digits 10 port ++ (b'`' ∷ [])))
      ∙ read_number-value_of 0 (digits 10 port) (digits-IsDigit 10 port)
      ∙ ap some (value_of-digits 10 port (omega arith)),
  omega (
    arith,
    length-append port_prefix (digits 10 port ++ (b'`' ∷ [])),
    length-append (digits 10 port) (b'`' ∷ []),
    length-digits 10 port,
  ),
)
