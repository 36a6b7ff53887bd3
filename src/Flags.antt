-- ===== src/Flags.antt =====
-- `Flags` of server/jobs/mod.rs: the options of a request, as the bits of a `u8`.
use notifs_piper.Common.{
  ℕ, zero, suc, ◌<◌, ◌≡◌, refl, Bool, true, not, ◌&&◌, ◌||◌, bit_and, bit_or, arith, ◌==◌, ==_iff,
  Bool-cases, inl, inr, if◌then◌else◌,
}

pub data Flags : Type 0 where
  none_flag silent force : Flags

-- `self as FlagsRepr`
abbrev pub repr : Flags → ℕ
repr none_flag = 0x00
repr silent = 0x01
repr force = 0x02

unfoldable pub is : Flags → ℕ → Bool
is f int = not (bit_and (repr f) int == 0)

unfoldable pub join : ℕ → Flags → ℕ
join int other = bit_or int (repr other)

-- Whether two tests of a byte agree on the first `n` bytes.
agree : (ℕ → Bool) → (ℕ → Bool) → ℕ → Bool
agree p q zero = true
agree p q (suc n) = (if p n then q n else not (q n)) && agree p q n

agree-eq : (p q : ℕ → Bool) (n int : ℕ) → int < n → agree p q n ≡ true → p int ≡ q int
unfolding agree
agree-eq p q zero int small done = absurd (omega arith)
agree-eq p q (suc n) int small done =
    let earlier = agree-eq p q n int in
    elim (Bool-cases (int == n)) [
      | inl last ↦ let e = (==_iff int n).0 last in rw e (ground arith)
      | inr before ↦ earlier (ground arith) (ground arith)
    ]

joined_table :
    (f g : Flags) → agree (λ int. is f (join int g)) (λ int. is f int || is f (repr g)) 256 ≡ true
unfolding agree is join
joined_table none_flag none_flag = refl
joined_table none_flag silent = refl
joined_table none_flag force = refl
joined_table silent none_flag = refl
joined_table silent silent = refl
joined_table silent force = refl
joined_table force none_flag = refl
joined_table force silent = refl
joined_table force force = refl

-- In any flags byte, joining `g` sets the bit of `g`, keeps the others, and sets nothing else.
pub is-join : (f g : Flags) (int : ℕ) → int < 256 → is f (join int g) ≡ (is f int || is f (repr g))
is-join f g int small = agree-eq _ _ 256 int small (joined_table f g)
