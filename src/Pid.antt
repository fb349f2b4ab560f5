-- ===== src/Pid.antt =====
-- `parse_pid` of raptorq/enc/src/main.rs and of raptorq/dec/src/main.rs, which are alike, on
-- the bytes of the argument.
pub mod Digits
use live_video.Prelude.{
  ℕ, zero, suc, ◌+◌, ◌-◌, ◌*◌, ◌^◌, Bool, ◌&&◌, ◌||◌, List, [], ◌∷◌, Option, none, some, leb, ltb,
  ◌==◌, if◌then◌else◌, Outcome, ok, err, ◌>>=◌,
}

-- The kinds of `ParseIntError`.
pub data PidError : Type 0 where
  empty : PidError
  invalid_digit : PidError
  pos_overflow : PidError

-- `trim_start_matches` with the pattern `0` and one more byte.
unfoldable pub trim : ℕ → List ℕ → List ℕ
trim x [] = []
trim x (a ∷ []) = a ∷ []
trim x (a ∷ b ∷ s) = let rest = trim x s in if (a == 0x30) && (b == x) then rest else a ∷ b ∷ s

-- `to_digit(16)`
unfoldable pub to_digit : ℕ → Option ℕ
to_digit c =
    if leb 0x30 c && leb c 0x39
    then some (c - 0x30)
    else if leb 0x41 c && leb c 0x46
    then some (c - 0x41 + 10)
    else if leb 0x61 c && leb c 0x66
    then some (c - 0x61 + 10)
    else none

-- The value behind another digit, if the digit is one and the value fits 16 bits.
unfoldable pub push_digit : ℕ → Option ℕ → Outcome PidError ℕ
push_digit acc none = err invalid_digit
push_digit acc (some d) =
    if ltb (acc * 16 + d) (2 ^ 16) then ok (acc * 16 + d) else err pos_overflow

-- The loop of `from_str_radix`, with the value so far.
unfoldable pub from_digits : ℕ → List ℕ → Outcome PidError ℕ
unfolding push_digit
from_digits acc [] = ok acc
from_digits acc (c ∷ cs) = push_digit acc (to_digit c) >>= (λ v. from_digits v cs)

-- `u16::from_str_radix` in base 16: a sign `+` may stand in front of digits.
unfoldable pub from_str_radix : List ℕ → Outcome PidError ℕ
unfolding from_digits
from_str_radix [] = err empty
from_str_radix (c ∷ []) =
    if (c == 0x2b) || (c == 0x2d) then err invalid_digit else from_digits 0 (c ∷ [])
from_str_radix (c ∷ d ∷ s) = if c == 0x2b then from_digits 0 (d ∷ s) else from_digits 0 (c ∷ d ∷ s)

unfoldable pub parse_pid : List ℕ → Outcome PidError ℕ
unfolding trim from_str_radix
parse_pid s = from_str_radix (trim 0x58 (trim 0x78 s))
