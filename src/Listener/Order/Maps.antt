-- ===== src/Listener/Order/Maps.antt =====
-- The maps of processes in another order.
use mathlib.Core.List.Permᴰ.{nil, cons, swap, trans}
use mathlib.Core.List.{Permᴰ}
use mathlib.Core.List.Permᴰ
use mathlib.Core.Path.{subst}
use notifs_piper.Common.{
  ℕ, ◌≡◌, ◌≢◌, refl, sym, ap, ◌∙◌, Bool, true, false, not, ◌||◌, some, List, [], ◌∷◌, ◌++◌, map,
  arith, All, ◌==◌, if◌then◌else◌, Bool-cases, inl, inr,
}
use notifs_piper.Text.{Text}
use notifs_piper.Flags.{is, silent}
use notifs_piper.Listener.Processes.{lookup, remove, Fresh, Distinct}
use notifs_piper.Listener.{Watcher}
use notifs_piper.Listener.Delivery.{working, any_loud}

All-reordered : {A : Type 0} (P : A → Type 0) {l m : List A} → Permᴰ l m → All P l → All P m
All-reordered P nil h = tt
All-reordered P (cons e p) (h, hs) = (subst P e h, All-reordered P p hs)
All-reordered P (swap e e') (h, (h', hs)) = (subst P e' h', (subst P e h, hs))
All-reordered P (trans p q) h = All-reordered P q (All-reordered P p h)

module _ {V : Type 0} where
  pub remove-reordered : (k : ℕ) {l m : List (ℕ × V)} → Permᴰ l m → Permᴰ (remove k l) (remove k m)
  unfolding remove
  remove-reordered k nil = nil
  remove-reordered k (cons {a} {b} e p) = elim (Bool-cases (a.0 == k)) [
    | inl q ↦ rw (← e, q) (remove-reordered k p)
    | inr q ↦ rw (← e, q) (cons refl (remove-reordered k p))
  ]
  remove-reordered k (swap {a} {b} {l = l} e e') =
      rw (← e, ← e')
        (elim (Bool-cases (a.0 == k)) [
          | inl q ↦ rw q (Permᴰ.refl _)
          | inr q ↦ elim (Bool-cases (b.0 == k)) [
            | inl r ↦ rw (q, r) (Permᴰ.refl _)
            | inr r ↦ rw (q, r) (swap refl refl)
          ]
        ])
  remove-reordered k (trans p q) = trans (remove-reordered k p) (remove-reordered k q)

  pub Distinct-reordered : {l m : List (ℕ × V)} → Permᴰ l m → Distinct l → Distinct m
  Distinct-reordered nil d = d
  Distinct-reordered (cons {a} e p) (f, d) =
      (rw (← e) (All-reordered (λ x. x.0 ≢ a.0) p f), Distinct-reordered p d)
  Distinct-reordered (swap {a} {b} {l = l} e e') ((h, f), (g, d)) = (
    (λ q. h (ap (λ x. x.0) e' ∙ sym q ∙ sym (ap (λ x. x.0) e)), subst (λ x. Fresh x.0 l) e' g),
    (subst (λ x. Fresh x.0 l) e f, d),
  )
  Distinct-reordered (trans p q) d = Distinct-reordered q (Distinct-reordered p d)

  -- The order decides nothing for a lookup where no key is there twice.
  pub lookup-reordered :
      (k : ℕ) {l m : List (ℕ × V)} → Permᴰ l m → Distinct l → lookup k l ≡ lookup k m
  unfolding lookup
  lookup-reordered k nil d = refl
  lookup-reordered k (cons {a} e p) (f, d) =
      rw (← e) (ap (λ o. if a.0 == k then some a.1 else o) (lookup-reordered k p d))
  lookup-reordered k (swap {a} {b} e e') ((h, f), (g, d)) = rw (← e, ← e') (ground arith)
  lookup-reordered k (trans p q) d =
      lookup-reordered k p d ∙ lookup-reordered k q (Distinct-reordered p d)

module _ (fails : ℕ → Bool) where
  pub working-reordered :
      {l m : List (ℕ × Watcher)} → Permᴰ l m → Permᴰ (working fails l) (working fails m)
  working-reordered nil = nil
  working-reordered (cons {a} e p) = elim (Bool-cases (fails a.1.stream)) [
    | inl q ↦ rw (← e, q) (working-reordered p)
    | inr q ↦ rw (← e, q) (cons refl (working-reordered p))
  ]
  working-reordered (swap {a} {b} e e') =
      rw (← e, ← e')
        (elim (Bool-cases (fails a.1.stream)) [
          | inl q ↦ rw q (Permᴰ.refl _)
          | inr q ↦ elim (Bool-cases (fails b.1.stream)) [
            | inl r ↦ rw (q, r) (Permᴰ.refl _)
            | inr r ↦ rw (q, r) (swap refl refl)
          ]
        ])
  working-reordered (trans p q) = trans (working-reordered p) (working-reordered q)

or_swap : (a b c : Bool) → (a || (b || c)) ≡ (b || (a || c))
or_swap true true c = refl
or_swap true false c = refl
or_swap false true c = refl
or_swap false false c = refl

pub any_loud-reordered : {l m : List (ℕ × Watcher)} → Permᴰ l m → any_loud l ≡ any_loud m
any_loud-reordered nil = refl
any_loud-reordered (cons {a} e p) =
    rw (← e) (ap (λ b. not (is silent a.1.flags) || b) (any_loud-reordered p))
any_loud-reordered (swap {a} {b} e e') =
    rw (← e, ← e') (or_swap (not (is silent a.1.flags)) (not (is silent b.1.flags)) _)
any_loud-reordered (trans p q) = any_loud-reordered p ∙ any_loud-reordered q

-- The texts written to one stream, in their order.
abbrev pub on : ℕ → List (ℕ × Text) → List Text
on s [] = []
on s ((r, t) ∷ l) = let rest = on s l in if r == s then t ∷ rest else rest

pub on-append : (s : ℕ) (a b : List (ℕ × Text)) → on s (a ++ b) ≡ on s a ++ on s b
on-append s [] b = refl
on-append s ((r, t) ∷ a) b = ground (arith, on-append s a b)

twice_or_once :
    (b c : Bool) (t : Text) (r : List Text)
    → (if b then t ∷ (if c then t ∷ r else r) else (if c then t ∷ r else r))
      ≡ (if c then t ∷ (if b then t ∷ r else r) else (if b then t ∷ r else r))
twice_or_once true true t r = refl
twice_or_once true false t r = refl
twice_or_once false true t r = refl
twice_or_once false false t r = refl

-- One text written to each stream of a map: no stream tells in which order.
pub on-reordered :
    (s : ℕ) (t : Text) {l m : List (ℕ × Watcher)}
    → Permᴰ l m
    → on s (map (λ e. (e.1.stream, t)) l) ≡ on s (map (λ e. (e.1.stream, t)) m)
on-reordered s t nil = refl
on-reordered s t (cons {a} e p) =
    rw (← e) (ap (λ r. if a.1.stream == s then t ∷ r else r) (on-reordered s t p))
on-reordered s t (swap {a} {b} {l = l} e e') =
    rw (← e, ← e')
      (twice_or_once (a.1.stream == s) (b.1.stream == s) t (on s (map (λ e. (e.1.stream, t)) l)))
on-reordered s t (trans p q) = on-reordered s t p ∙ on-reordered s t q
