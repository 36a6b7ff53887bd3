-- ===== src/Text/Decimal.antt =====
-- Unsigned integers in decimal: `Display` and `FromStr` of Rust's `u8`, `u16` and `u32`.
pub mod RoundTrip
use notifs_piper.Common.{
  ℕ, zero, suc, ◌+◌, ◌-◌, ◌*◌, ◌/◌, ◌%◌, ◌^◌, ◌≡◌, refl, ◌&&◌, [], ◌∷◌, Bool, ltb, leb, ◌==◌,
  if◌then◌else◌, Outcome, ok, err, not,
}
use notifs_piper.Text.{Text, codes}

abbrev pub max_of : ℕ → ℕ
max_of w = 2 ^ w - 1

-- The texts of `ParseIntError`.
abbrev pub no_digits : Text
no_digits = codes "cannot parse integer from empty string"

abbrev pub invalid_digit : Text
invalid_digit = codes "invalid digit found in string"

abbrev pub too_large : Text
too_large = codes "number too large to fit in target type"

abbrev pub is_digit : ℕ → Bool
is_digit c = leb b'0' c && leb c b'9'

-- The digits of `s` behind a number `n` that is already read, with the checks for overflow.
scan : ℕ → Text → ℕ → Outcome Text ℕ
scan most [] n = ok n
scan most (c ∷ s) n =
    if not (is_digit c)
    then err invalid_digit
    else if ltb most (n * 10 + (c - b'0'))
    then err too_large
    else scan most s (n * 10 + (c - b'0'))

-- `from_str` of the unsigned integers up to `most`; a sign `+` is accepted before digits.
unfoldable pub from_str : ℕ → Text → Outcome Text ℕ
unfolding scan
from_str most [] = err no_digits
from_str most (c ∷ []) = if c == b'+' then err invalid_digit else scan most (c ∷ []) 0
from_str most (c ∷ d ∷ s) = if c == b'+' then scan most (d ∷ s) 0 else scan most (c ∷ d ∷ s) 0

-- The digits of `n` before those already written; each round writes one.
digits : ℕ → ℕ → Text → Text
digits zero n out = out
digits (suc f) n out =
    let rest = digits f (n / 10) ((b'0' + n % 10) ∷ out) in if n == 0 then out else rest

-- `to_string`
unfoldable pub to_string : ℕ → Text
unfolding digits
to_string n = if n == 0 then b'0' ∷ [] else digits n n []

to_string_u32 : to_string 4294967295 ≡ codes "4294967295"
unfolding to_string
to_string_u32 = refl

from_str_signed : from_str (max_of 16) (codes "+00042") ≡ ok 42
unfolding from_str
from_str_signed = refl

from_str_large : from_str (max_of 16) (codes "65536") ≡ err too_large
unfolding from_str
from_str_large = refl
