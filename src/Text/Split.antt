-- ===== src/Text/Split.antt =====
-- `str::split_once`, and the splits of the wire format's delimiters.
use notifs_piper.Common.{
  ℕ, ◌≡◌, ◌≢◌, refl, Option, none, some, [], ◌∷◌, ◌++◌, arith, ◌==◌, if◌then◌else◌, All,
}
use notifs_piper.Text.{Text}

abbrev pub hash : ℕ
hash = b'#'

-- The rest of the text behind a prefix.
abbrev pub strip_prefix : Text → Text → Option Text
strip_prefix [] s = some s
strip_prefix (d ∷ ds) [] = none
strip_prefix (d ∷ ds) (c ∷ s) = if d == c then strip_prefix ds s else none

abbrev pub before : ℕ → Option (Text × Text) → Option (Text × Text)
before c none = none
before c (some (a, b)) = some (c ∷ a, b)

-- The texts before and behind the first occurrence of a delimiter that is not empty.
pub split_once : Text → Text → Option (Text × Text)
split_once d [] = none
split_once d (c ∷ s) = elim (strip_prefix d (c ∷ s)) [
  | some rest ↦ some ([], rest)
  | none ↦ before c (split_once d s)
]

abbrev pub Lacks : ℕ → Text → Type 0
Lacks b = All (λ c. c ≢ b)

-- At its first `#` a text is cut, whatever follows.
pub split_once-hash :
    (a b : Text) → Lacks hash a → split_once (hash ∷ []) (a ++ hash ∷ b) ≡ some (a, b)
unfolding split_once
split_once-hash [] b _ = refl
split_once-hash (c ∷ a) b (h, hs) = ground (arith, split_once-hash a b hs)

-- A text with no `#` is not cut.
pub split_once-Lacks : (a : Text) → Lacks hash a → split_once (hash ∷ []) a ≡ none
unfolding split_once
split_once-Lacks [] _ = refl
split_once-Lacks (c ∷ a) (h, hs) = ground (arith, split_once-Lacks a hs)

pub split_once-hashes :
    (a b : Text) → Lacks hash a → split_once (hash ∷ hash ∷ []) (a ++ hash ∷ hash ∷ b) ≡ some (a, b)
unfolding split_once
split_once-hashes [] b _ = refl
split_once-hashes (c ∷ a) b (h, hs) = ground (arith, split_once-hashes a b hs)

-- One `#` between two such texts does not stop the search for `##`, if the second is not empty.
pub split_once-hash-hashes :
    (a : Text) (c : ℕ) (b r : Text)
    → Lacks hash a
    → Lacks hash (c ∷ b)
    → split_once (hash ∷ hash ∷ []) (a ++ hash ∷ c ∷ b ++ hash ∷ hash ∷ r)
      ≡ some (a ++ hash ∷ c ∷ b, r)
unfolding split_once
split_once-hash-hashes [] c b r _ h = ground (arith, split_once-hashes (c ∷ b) r h)
split_once-hash-hashes (d ∷ a) c b r (e, es) h = ground (arith, split_once-hash-hashes a c b r es h)
