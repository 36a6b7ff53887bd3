-- ===== src/Listener/Tasks/Counting.antt =====
-- How many requests of a process are in the lists of the tasks.
use notifs_piper.Common.{
  ℕ, ◌+◌, ◌≡◌, ◌≢◌, ◌⊎◌, inl, inr, refl, ap, List, [], ◌∷◌, ◌++◌, arith, Bool-cases, ◌==◌,
  if◌then◌else◌,
}
use notifs_piper.Job.{JobDesc}
use notifs_piper.Listener.Tasks.{times, pids}

pub times-append : (p : ℕ) (a b : List ℕ) → times p (a ++ b) ≡ times p a + times p b
times-append p [] b = omega arith
times-append p (q ∷ a) b = omega (arith, times-append p a b)

pub pids-append : {Hints : Type 0} (a b : List (JobDesc Hints)) → pids (a ++ b) ≡ pids a ++ pids b
pids-append [] b = refl
pids-append (x ∷ a) b = ap (◌∷◌ x.desc.pid) (pids-append a b)

times-middle :
    (p q : ℕ) (a b : List ℕ) → times p (a ++ q ∷ b) ≡ (if q == p then 1 else 0) + times p (a ++ b)
times-middle p q a b = omega (arith, times-append p a (q ∷ b), times-append p a b)

pub eq_cases : (a b : ℕ) → (a ≡ b) ⊎ (a ≢ b)
eq_cases a b = elim (Bool-cases (a == b)) [
  | inl e ↦ inl (ground arith)
  | inr e ↦ inr (λ q. ground arith)
]

pub taken-times :
    (p q : ℕ) (l a b : List ℕ) → l ≡ a ++ q ∷ b → times p l ≡ times p (q ∷ []) + times p (a ++ b)
taken-times p q l a b e = rw e (omega (arith, times-middle p q a b))

pub taken-pids :
    {Hints : Type 0} (p : ℕ) (jd : JobDesc Hints) (l a b : List (JobDesc Hints))
    → l ≡ a ++ jd ∷ b
    → times p (pids l) ≡ times p (jd.desc.pid ∷ []) + times p (pids (a ++ b))
taken-pids p jd l a b e =
    rw (pids-append a b)
      (taken-times p jd.desc.pid (pids l) (pids a) (pids b) (rw e (pids-append a (jd ∷ b))))

pub added-pids :
    {Hints : Type 0} (p : ℕ) (jd : JobDesc Hints) (l l' : List (JobDesc Hints))
    → l' ≡ l ++ jd ∷ []
    → times p (pids l') ≡ times p (pids l) + times p (jd.desc.pid ∷ [])
added-pids p jd l l' e =
    rw (e, pids-append l (jd ∷ [])) (times-append p (pids l) (jd.desc.pid ∷ []))

pub times-same : (p q : ℕ) (l : List ℕ) → q ≡ p → times p (q ∷ l) ≡ times p l + 1
times-same p q l e = ground arith

pub times-other : (p q : ℕ) (l : List ℕ) → q ≢ p → times p (q ∷ l) ≡ times p l
times-other p q l e = ground arith

pub times-zero : (p : ℕ) (l : List ℕ) → p ≢ 0 → times p l + times p (0 ∷ []) ≡ times p l
times-zero p l z = ground arith
