-- ===== src/Dbus/Ids.antt =====
-- The ids that `notify` gives out.
use mathlib.Core.List.{Mem, not-mem-nil, eq-or-mem_of_mem-cons}
use mathlib.Core.HLevel.{⊥_prop}
use mathlib.Core.Logic.Or
use notifs_piper.Common.{
  ℕ, ◌+◌, ◌^◌, ◌≤◌, ◌<◌, ◌≡◌, ◌≢◌, inl, inr, refl, ap, ◌∙◌, true, false, Bool, List, [], ◌∷◌, ◌++◌,
  All, ok, panic, arith, max, ◌==◌, Bool-cases, if◌then◌else◌,
}
use notifs_piper.Event.{NotificationEvent}
use notifs_piper.Job.{broadcast}
use notifs_piper.Manager.Removal.{ids}
use notifs_piper.Execute.Invariants.{IsFresh}
use notifs_piper.Dbus.{
  Notifications, NotifyCall, internal, push_job, choose_id, made, notify, max_id,
}

-- No stored id is above the counter.
abbrev pub IdsBelow : {Hints : Type 0} → ℕ → List (NotificationEvent Hints) → Type 0
IdsBelow c l = All (λ e. e.id ≤ c) l

not-mem_above :
    {Hints : Type 0} (c : ℕ) (l : List (NotificationEvent Hints))
    → IdsBelow c l
    → ¬ Mem (c + 1) (ids l)
not-mem_above c [] h = not-mem-nil
not-mem_above c (x ∷ l) (h, hs) =
    λ m. Or.elim ⊥_prop (eq-or-mem_of_mem-cons m) (λ here. omega arith) (not-mem_above c l hs)

All-le :
    {Hints : Type 0} (a b : ℕ) (l : List (NotificationEvent Hints))
    → a ≤ b
    → IdsBelow a l
    → IdsBelow b l
All-le a b [] h _ = tt
All-le a b (x ∷ l) h (k, ks) = (omega arith, All-le a b l h ks)

-- The counter of a fresh start is not below any id of the earlier sessions.
pub max_id-IdsBelow : {Hints : Type 0} (l : List (NotificationEvent Hints)) → IdsBelow (max_id l) l
unfolding max_id
max_id-IdsBelow [] = tt
max_id-IdsBelow (x ∷ l) =
    (omega arith, All-le (max_id l) (max x.id (max_id l)) l (omega arith) (max_id-IdsBelow l))

pub choose_fresh :
    (checks : Bool) (replaces_id counter : ℕ)
    → replaces_id ≡ 0
    → counter + 1 < 2 ^ 32
    → choose_id checks replaces_id counter ≡ ok (counter + 1, counter + 1)
unfolding choose_id
choose_fresh checks replaces_id counter z room = ground arith

choose_full :
    (checks : Bool) (replaces_id counter : ℕ)
    → replaces_id ≡ 0
    → counter + 1 ≡ 2 ^ 32
    → choose_id checks replaces_id counter ≡ (if checks then panic else ok (0, 0))
unfolding choose_id
choose_full checks replaces_id counter z full = ground arith

module _ {Hints : Type 0} (checks : Bool) (time : ℕ) (call : NotifyCall Hints)
    (n : Notifications Hints) where
  -- The state behind a call that has queued its job.
  abbrev pub queued : ℕ → ℕ → Notifications Hints
  queued id counter = record {
    counter = counter;
    channel = record n.channel {
      queue = n.channel.queue ++ internal (broadcast (made call time id)) ∷ [];
      signals = n.channel.signals + 1;
    };
  }

  -- If no stored id is above the counter, the counter is below its greatest value and the manager
  -- runs, a call without a replacement returns the next number and counts on; the job that it
  -- queues carries that id, which no stored notification has.
  pub notify-IsFresh :
      (l : List (NotificationEvent Hints))
      → call.replaces_id ≡ 0
      → n.counter + 1 < 2 ^ 32
      → n.channel.manager_up ≡ true
      → IdsBelow n.counter l
      → (n' : Notifications Hints) × (notify checks time call n ≡ ok (n', n.counter + 1))
        × (n'.counter ≡ n.counter + 1)
        × (n'.channel.queue
            ≡ n.channel.queue ++ internal (broadcast (made call time (n.counter + 1))) ∷ [])
        × IsFresh l (broadcast (made call time (n.counter + 1)))
  unfolding notify choose_id push_job
  notify-IsFresh l no_id room up below = (
    queued (n.counter + 1) (n.counter + 1),
    rw (choose_fresh checks call.replaces_id n.counter no_id room, up),
    refl,
    refl,
    inr (no_id, not-mem_above n.counter l below),
  )

  -- If the manager runs, a call with a replacement returns the id that it was given and leaves the
  -- counter; the job that it queues replaces the notification of its own id.
  pub notify_replaces :
      (l : List (NotificationEvent Hints))
      → call.replaces_id ≢ 0
      → n.channel.manager_up ≡ true
      → (n' : Notifications Hints) × (notify checks time call n ≡ ok (n', call.replaces_id))
        × (n'.counter ≡ n.counter)
        × (n'.channel.queue
            ≡ n.channel.queue ++ internal (broadcast (made call time call.replaces_id)) ∷ [])
        × IsFresh l (broadcast (made call time call.replaces_id))
  unfolding notify choose_id push_job
  notify_replaces l given up =
      let e : (call.replaces_id == 0) ≡ false = ground arith in
      (queued call.replaces_id n.counter, rw (e, up), refl, refl, inl (given, refl))

  -- If the manager runs, a call without a replacement at the greatest value of the counter panics
  -- in a build with overflow checks; in one without, it queues a notification with the id 0,
  -- returns that id and counts on from 0.
  pub notify_overflow :
      call.replaces_id ≡ 0
      → n.counter + 1 ≡ 2 ^ 32
      → n.channel.manager_up ≡ true
      → notify checks time call n ≡ (if checks then panic else ok (queued 0 0, 0))
  unfolding notify choose_id push_job
  notify_overflow no_id full up = elim (Bool-cases checks) [
    | inl c ↦ rw (choose_full checks call.replaces_id n.counter no_id full, c)
    | inr c ↦ rw (choose_full checks call.replaces_id n.counter no_id full, c, up)
  ]

-- If the manager runs and the counter is below its greatest value, a client that replaces a
-- notification one above the counter is given that id, and the next client that asks for a new one
-- is given the same.
pub notify_gives_twice :
    {Hints : Type 0} (checks : Bool) (t t' : ℕ) (first second : NotifyCall Hints)
    (n : Notifications Hints)
    → first.replaces_id ≡ n.counter + 1
    → second.replaces_id ≡ 0
    → n.counter + 1 < 2 ^ 32
    → n.channel.manager_up ≡ true
    → (n' n'' : Notifications Hints) × (notify checks t first n ≡ ok (n', n.counter + 1))
      × (notify checks t' second n' ≡ ok (n'', n.counter + 1))
unfolding notify choose_id push_job
notify_gives_twice checks t t' first second n given no_id room up =
    let e : (first.replaces_id == 0) ≡ false = ground arith in
    let n' = queued checks t first n first.replaces_id n.counter in
    let p : notify checks t first n ≡ ok (n', first.replaces_id) = rw (e, up) in
    let n'' = queued checks t' second n' (n.counter + 1) (n.counter + 1) in
    (
      n',
      n'',
      p ∙ ap (λ k. ok (n', k)) given,
      rw (choose_fresh checks second.replaces_id n.counter no_id room, up),
    )
