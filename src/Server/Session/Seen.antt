-- ===== src/Server/Session/Seen.antt =====
-- The ids of the logs and of the broadcasts in the queue.
use mathlib.Core.List.{Mem, Subset, mem-cons_self, cons-subset, subset-cons_of_subset}
use notifs_piper.Common.{ℕ, ◌≡◌, ◌≢◌, ◌⊎◌, inl, inr, refl, List, [], ◌∷◌, ◌++◌}
use notifs_piper.Event.{NotificationEvent}
use notifs_piper.Job.{Job, JobDesc, broadcast}
use notifs_piper.Manager.Removal.{ids}
use notifs_piper.Execute.Invariants.{IsFresh}

pub cons-Subset : (i : ℕ) (xs ys : List ℕ) → Subset xs ys → Subset (i ∷ xs) (i ∷ ys)
cons-Subset i xs ys h = cons-subset.1 (mem-cons_self, subset-cons_of_subset i h)

module _ {Hints : Type 0} where
  -- The job may run where these ids have been used.
  abbrev pub IsNew : List ℕ → Job Hints → Type 0
  IsNew seen (broadcast ne) =
      ((ne.replaces_id ≢ 0) × (ne.id ≡ ne.replaces_id))
      ⊎ ((ne.replaces_id ≡ 0) × (¬ Mem ne.id seen))
  IsNew seen _ = Unit {0}

  abbrev pub noted : Job Hints → List ℕ → List ℕ
  noted (broadcast ne) seen = ne.id ∷ seen
  noted _ seen = seen

  -- Each job of the queue may run behind those before it.
  abbrev pub AllNew : List ℕ → List (JobDesc Hints) → Type 0
  AllNew seen [] = Unit
  AllNew seen (jd ∷ q) = IsNew seen jd.cmd × AllNew (noted jd.cmd seen) q

  abbrev pub seen_after : List ℕ → List (JobDesc Hints) → List ℕ
  seen_after seen [] = seen
  seen_after seen (jd ∷ q) = seen_after (noted jd.cmd seen) q

  pub IsNew-IsFresh :
      (l : List (NotificationEvent Hints)) (job : Job Hints) → IsNew (ids l) job → IsFresh l job
  IsNew-IsFresh l (broadcast ne) h = h
  IsNew-IsFresh l job h = tt

  pub noted-Subset :
      (job : Job Hints) (xs ys : List ℕ) → Subset xs ys → Subset (noted job xs) (noted job ys)
  noted-Subset (broadcast ne) xs ys h = cons-Subset ne.id xs ys h
  noted-Subset job xs ys h = h

  IsNew-Subset : (job : Job Hints) (xs ys : List ℕ) → Subset xs ys → IsNew ys job → IsNew xs job
  IsNew-Subset (broadcast ne) xs ys h (inl replaces) = inl replaces
  IsNew-Subset (broadcast ne) xs ys h (inr (z, absent)) = inr (z, λ m. absent (h ne.id m))
  IsNew-Subset job xs ys h new = tt

  -- With fewer ids used, the queue may still run.
  pub AllNew-Subset :
      (q : List (JobDesc Hints)) (xs ys : List ℕ) → Subset xs ys → AllNew ys q → AllNew xs q
  AllNew-Subset [] xs ys h new = tt
  AllNew-Subset (jd ∷ q) xs ys h (new, rest) = (
    IsNew-Subset jd.cmd xs ys h new,
    AllNew-Subset q (noted jd.cmd xs) (noted jd.cmd ys) (noted-Subset jd.cmd xs ys h) rest,
  )

  pub seen_after-Subset :
      (q : List (JobDesc Hints)) (xs ys : List ℕ)
      → Subset xs ys
      → Subset (seen_after xs q) (seen_after ys q)
  seen_after-Subset [] xs ys h = h
  seen_after-Subset (jd ∷ q) xs ys h =
      seen_after-Subset q (noted jd.cmd xs) (noted jd.cmd ys) (noted-Subset jd.cmd xs ys h)

  pub AllNew-append :
      (q : List (JobDesc Hints)) (jd : JobDesc Hints) (seen : List ℕ)
      → AllNew seen q
      → IsNew (seen_after seen q) jd.cmd
      → AllNew seen (q ++ jd ∷ [])
  AllNew-append [] jd seen h new = (new, tt)
  AllNew-append (x ∷ q) jd seen (first, rest) new =
      (first, AllNew-append q jd (noted x.cmd seen) rest new)

  pub seen_after-append :
      (q : List (JobDesc Hints)) (jd : JobDesc Hints) (seen : List ℕ)
      → seen_after seen (q ++ jd ∷ []) ≡ noted jd.cmd (seen_after seen q)
  seen_after-append [] jd seen = refl
  seen_after-append (x ∷ q) jd seen = seen_after-append q jd (noted x.cmd seen)
