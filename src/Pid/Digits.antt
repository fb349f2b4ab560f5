-- ===== src/Pid/Digits.antt =====
-- `parse_pid` of raptorq/enc/src/main.rs and raptorq/dec/src/main.rs on hexadecimal numbers.
use live_video.Prelude.{
  ℕ, ◌+◌, ◌*◌, ◌^◌, ◌≤◌, ◌<◌, ◌≡◌, refl, ◌∙◌, ap, false, ◌&&◌, ◌||◌, List, [], ◌∷◌, map, some, ltb,
  ◌==◌, if◌then◌else◌, Bool-cases, inl, inr, Outcome, ok, err, ◌>>=◌, arith,
}
use live_video.Pid.{
  PidError, pos_overflow, trim, to_digit, push_digit, from_digits, from_str_radix, parse_pid,
}

-- The character of a digit, in lower case.
unfoldable pub hex_char : ℕ → ℕ
hex_char d = if ltb d 10 then 0x30 + d else 0x57 + d

abbrev pub AllDigits : List ℕ → Type 0
AllDigits [] = Unit {0}
AllDigits (d ∷ ds) = (d < 16) × AllDigits ds

-- The number with these digits behind those of `acc`.
unfoldable pub value_from : ℕ → List ℕ → ℕ
value_from acc [] = acc
value_from acc (d ∷ ds) = value_from (acc * 16 + d) ds

-- A number, if it fits 16 bits.
unfoldable pub in_u16 : ℕ → Outcome PidError ℕ
in_u16 v = if ltb v (2 ^ 16) then ok v else err pos_overflow

to_digit-hex_char : (d : ℕ) → d < 16 → to_digit (hex_char d) ≡ some d
unfolding to_digit hex_char
to_digit-hex_char d h = ground arith

value_from_le : (acc : ℕ) (ds : List ℕ) → acc ≤ value_from acc ds
unfolding value_from
value_from_le acc [] = omega arith
value_from_le acc (d ∷ ds) = omega (arith, value_from_le (acc * 16 + d) ds)

from_digits-hex :
    (acc : ℕ) (ds : List ℕ)
    → acc < 2 ^ 16
    → AllDigits ds
    → from_digits acc (map hex_char ds) ≡ in_u16 (value_from acc ds)
unfolding from_digits push_digit value_from in_u16
from_digits-hex acc [] small h = ground arith
from_digits-hex acc (d ∷ ds) small h = elim (Bool-cases (ltb (acc * 16 + d) (2 ^ 16))) [
  | inl fits ↦
      ap (λ o. push_digit acc o >>= (λ v. from_digits v (map hex_char ds)))
        (to_digit-hex_char d h.0)
      ∙ rw fits (from_digits-hex (acc * 16 + d) ds (ground arith) h.1)
  | inr over ↦
      ap (λ o. push_digit acc o >>= (λ v. from_digits v (map hex_char ds)))
        (to_digit-hex_char d h.0)
      ∙ rw over (ground (arith, value_from_le (acc * 16 + d) ds))
]

not_x :
    (d : ℕ)
    → d < 16
    → ((hex_char d == 0x78) ≡ false)
      × ((hex_char d == 0x58) ≡ false)
      × ((hex_char d == 0x2b) ≡ false)
      × ((hex_char d == 0x2d) ≡ false)
unfolding hex_char
not_x d h = (ground arith, ground arith, ground arith, ground arith)

trim-hex :
    (x : ℕ) (ds : List ℕ)
    → ((d : ℕ) → d < 16 → (hex_char d == x) ≡ false)
    → AllDigits ds
    → trim x (map hex_char ds) ≡ map hex_char ds
unfolding trim
trim-hex x [] other h = refl
trim-hex x (d ∷ []) other h = refl
trim-hex x (d ∷ e ∷ ds) other h =
    let differs : ((hex_char d == 0x30) && (hex_char e == x)) ≡ false =
      ground (arith, other e h.1.0) in
    rw (differs, trim) refl

from_str_radix-hex :
    (d : ℕ) (ds : List ℕ)
    → AllDigits (d ∷ ds)
    → from_str_radix (map hex_char (d ∷ ds)) ≡ in_u16 (value_from 0 (d ∷ ds))
unfolding from_str_radix
from_str_radix-hex d [] h =
    let (nx, nX, plus, minus) = not_x d h.0 in
    let neither : ((hex_char d == 0x2b) || (hex_char d == 0x2d)) ≡ false = ground arith in
    rw (neither, from_str_radix) (from_digits-hex 0 (d ∷ []) (omega arith) h)
from_str_radix-hex d (e ∷ ds) h =
    let (nx, nX, plus, minus) = not_x d h.0 in
    rw (plus, from_str_radix) (from_digits-hex 0 (d ∷ e ∷ ds) (omega arith) h)

-- A number written in hexadecimal with the prefix `0x` and at least one digit is read as its
-- value, if that fits 16 bits, and is an overflow otherwise.
pub parse_pid-hex :
    (d : ℕ) (ds : List ℕ)
    → AllDigits (d ∷ ds)
    → parse_pid (0x30 ∷ 0x78 ∷ map hex_char (d ∷ ds)) ≡ in_u16 (value_from 0 (d ∷ ds))
unfolding parse_pid trim
parse_pid-hex d ds h =
    let trimmed : trim 0x78 (map hex_char (d ∷ ds)) ≡ map hex_char (d ∷ ds) =
      trim-hex 0x78 (d ∷ ds) (λ e less. (not_x e less).0) h in
    ap (λ s. from_str_radix (trim 0x58 s)) trimmed
    ∙ ap from_str_radix (trim-hex 0x58 (d ∷ ds) (λ e less. (not_x e less).1) h)
    ∙ from_str_radix-hex d ds h
