-- ===== src/Listener/Processes.antt =====
-- The maps from processes to streams, `HashMap` of `std`, as lists of keys and values.
use notifs_piper.Common.{
  ℕ, ◌≡◌, ◌≢◌, refl, true, false, Option, none, some, List, [], ◌∷◌, map, arith, ◌==◌, All,
  if◌then◌else◌,
}

module _ {V : Type 0} where
  unfoldable pub lookup : ℕ → List (ℕ × V) → Option V
  lookup k [] = none
  lookup k ((j, v) ∷ l) = if j == k then some v else lookup k l

  unfoldable pub remove : ℕ → List (ℕ × V) → List (ℕ × V)
  remove k [] = []
  remove k ((j, v) ∷ l) = let rest = remove k l in if j == k then rest else (j, v) ∷ rest

  abbrev pub insert : ℕ → V → List (ℕ × V) → List (ℕ × V)
  insert k v l = (k, v) ∷ remove k l

  unfoldable pub remove_all : List ℕ → List (ℕ × V) → List (ℕ × V)
  remove_all [] l = l
  remove_all (k ∷ ks) l = remove_all ks (remove k l)

  abbrev pub keys : List (ℕ × V) → List ℕ
  keys l = map (λ e. e.0) l

  pub lookup-remove : (k : ℕ) (l : List (ℕ × V)) → lookup k (remove k l) ≡ none
  unfolding lookup remove
  lookup-remove k [] = refl
  lookup-remove k ((j, v) ∷ l) = ground (arith, lookup-remove k l)

  -- No entry has the key.
  abbrev pub Fresh : ℕ → List (ℕ × V) → Type 0
  Fresh k l = All (λ e. e.0 ≢ k) l

  -- No two entries have the same key.
  abbrev pub Distinct : List (ℕ × V) → Type 0
  Distinct [] = Unit {0}
  Distinct ((k, v) ∷ l) = Fresh k l × Distinct l

  pub remove-Fresh : (k : ℕ) (l : List (ℕ × V)) → Fresh k l → remove k l ≡ l
  unfolding remove
  remove-Fresh k [] h = refl
  remove-Fresh k ((j, v) ∷ l) (h, hs) = ground (arith, remove-Fresh k l hs)

  Fresh-remove : (k j : ℕ) (l : List (ℕ × V)) → Fresh j l → Fresh j (remove k l)
  unfolding remove
  Fresh-remove k j [] h = tt
  Fresh-remove k j ((i, v) ∷ l) (h, hs) = ground (arith, Fresh-remove k j l hs)

  removed_key-Fresh : (k : ℕ) (l : List (ℕ × V)) → Fresh k (remove k l)
  unfolding remove
  removed_key-Fresh k [] = tt
  removed_key-Fresh k ((i, v) ∷ l) = ground (arith, removed_key-Fresh k l)

  pub remove-Distinct : (k : ℕ) (l : List (ℕ × V)) → Distinct l → Distinct (remove k l)
  unfolding remove
  remove-Distinct k [] h = tt
  remove-Distinct k ((i, v) ∷ l) (h, hs) =
      ground (arith, remove-Distinct k l hs, Fresh-remove k i l h)

  pub insert-Distinct : (k : ℕ) (v : V) (l : List (ℕ × V)) → Distinct l → Distinct (insert k v l)
  insert-Distinct k v l h = (removed_key-Fresh k l, remove-Distinct k l h)

  pub lookup-insert : (k : ℕ) (v : V) (l : List (ℕ × V)) → lookup k (insert k v l) ≡ some v
  unfolding lookup
  lookup-insert k v l = ground arith

  -- Removing other keys leaves an entry in front.
  pub remove_all-cons :
      (ks : List ℕ) (k : ℕ) (v : V) (l : List (ℕ × V))
      → All (λ i. i ≢ k) ks
      → remove_all ks ((k, v) ∷ l) ≡ (k, v) ∷ remove_all ks l
  unfolding remove_all remove
  remove_all-cons [] k v l h = refl
  remove_all-cons (i ∷ ks) k v l (h, hs) =
      let e : (k == i) ≡ false = ground arith in rw e (remove_all-cons ks k v (remove i l) hs)

  pub remove_all-Distinct :
      (ks : List ℕ) (l : List (ℕ × V)) → Distinct l → Distinct (remove_all ks l)
  unfolding remove_all
  remove_all-Distinct [] l h = h
  remove_all-Distinct (k ∷ ks) l h = remove_all-Distinct ks (remove k l) (remove-Distinct k l h)

  -- Removing the key of the first entry leaves the others.
  pub remove_all-head :
      (ks : List ℕ) (k : ℕ) (v : V) (l : List (ℕ × V))
      → Fresh k l
      → remove_all (k ∷ ks) ((k, v) ∷ l) ≡ remove_all ks l
  unfolding remove_all remove
  remove_all-head ks k v l h =
      let same : (k == k) ≡ true = ground arith in rw (same, remove-Fresh k l h)

  pub lookup-remove_other :
      (p q : ℕ) (l : List (ℕ × V)) → p ≢ q → lookup p (remove q l) ≡ lookup p l
  unfolding lookup remove
  lookup-remove_other p q [] h = refl
  lookup-remove_other p q ((j, v) ∷ l) h = ground (arith, lookup-remove_other p q l h)

  pub insert_found : (p q : ℕ) (v : V) (l : List (ℕ × V)) → q ≡ p → lookup p (insert q v l) ≢ none
  unfolding lookup
  insert_found p q v l e = ground arith

  pub lookup-insert_other :
      (p q : ℕ) (v : V) (l : List (ℕ × V)) → p ≢ q → lookup p (insert q v l) ≡ lookup p l
  unfolding lookup
  lookup-insert_other p q v l h = ground (arith, lookup-remove_other p q l h)
