-- ===== src/Text/Decimal/RoundTrip.antt =====
-- Printing and reading of unsigned integers: the digits of a number, at every width.
use notifs_piper.Common.{
  ℕ, zero, suc, ◌+◌, ◌/◌, ◌%◌, ◌≤◌, ◌≡◌, ◌≢◌, refl, [], ◌∷◌, arith, All, ok, ◌==◌, Bool-cases, inl,
  inr,
}
use notifs_piper.Text.{Text}
use notifs_piper.Text.Split.{hash, Lacks}
use notifs_piper.Text.Decimal.{scan, from_str, digits, to_string}

abbrev pub IsDigit : ℕ → Type 0
IsDigit c = (b'0' ≤ c) × (c ≤ b'9')

-- Reading the last digit of `n` behind the digits before it gives `n`.
scan_last :
    (most n : ℕ) (out : Text)
    → n ≤ most
    → scan most ((b'0' + n % 10) ∷ out) (n / 10) ≡ scan most out n
unfolding scan
scan_last most n out h = ground arith

scan-digits :
    (most f n : ℕ) (out : Text) → n ≤ f → n ≤ most → scan most (digits f n out) 0 ≡ scan most out n
unfolding digits
scan-digits most zero n out h fits = let e : n ≡ 0 = omega arith in ground arith
scan-digits most (suc f) n out h fits =
    ground (arith, scan-digits most f (n / 10) ((b'0' + n % 10) ∷ out), scan_last most n out fits)

digits-All : (f n : ℕ) (out : Text) → All IsDigit out → All IsDigit (digits f n out)
unfolding digits
digits-All zero n out h = h
digits-All (suc f) n out h = elim (Bool-cases (n == 0)) [
  | inl e ↦ rw e h
  | inr e ↦ rw e (digits-All f (n / 10) ((b'0' + n % 10) ∷ out) ((omega arith, omega arith), h))
]

to_string-All : (n : ℕ) → All IsDigit (to_string n)
unfolding to_string
to_string-All n = ground (arith, digits-All n n [] tt)

digits-ne-nil : (f n : ℕ) (out : Text) → out ≢ [] → digits f n out ≢ []
unfolding digits
digits-ne-nil zero n out h = h
digits-ne-nil (suc f) n out h = ground (arith, digits-ne-nil f (n / 10) ((b'0' + n % 10) ∷ out))

to_string-ne-nil : (n : ℕ) → to_string n ≢ []
unfolding to_string digits
to_string-ne-nil zero = ground arith
to_string-ne-nil (suc n) = ground (arith, digits-ne-nil n (suc n / 10) ((b'0' + suc n % 10) ∷ []))

-- What the parsers of the wire format need of a printed number: its first byte and the others.
pub record Printed (n : ℕ) : Type 0 where
  pub first : ℕ
  pub others : Text
  pub text : to_string n ≡ first ∷ others
  pub digit : All IsDigit (first ∷ others)

Printed-of : (n : ℕ) (t : Text) → to_string n ≡ t → t ≢ [] → All IsDigit t → Printed n
Printed-of n [] e h d = absurd (h refl)
Printed-of n (c ∷ t) e h d = record { first = c; others = t; text = e; digit = d }

pub printed : (n : ℕ) → Printed n
printed n = Printed-of n (to_string n) refl (to_string-ne-nil n) (to_string-All n)

pub All-IsDigit-Lacks : (s : Text) → All IsDigit s → Lacks hash s
All-IsDigit-Lacks [] _ = tt
All-IsDigit-Lacks (c ∷ s) (h, hs) = (omega arith, All-IsDigit-Lacks s hs)

-- No printed number holds a delimiter.
pub to_string-Lacks : (n : ℕ) → Lacks hash (to_string n)
to_string-Lacks n = All-IsDigit-Lacks (to_string n) (to_string-All n)

from_str-scan : (most : ℕ) (s : Text) → s ≢ [] → All IsDigit s → from_str most s ≡ scan most s 0
unfolding from_str
from_str-scan most [] h _ = absurd (h refl)
from_str-scan most (c ∷ []) h d = ground arith
from_str-scan most (c ∷ e ∷ s) h d = ground arith

-- A number that fits is read back from its decimal print.
pub from_str-to_string : (most n : ℕ) → n ≤ most → from_str most (to_string n) ≡ ok n
unfolding to_string scan
from_str-to_string most n h =
    rw (from_str-scan most (to_string n) (to_string-ne-nil n) (to_string-All n))
      (ground (arith, scan-digits most n n []))
