-- ===== src/Execute/Closing.antt =====
-- The branches of `Close` in server/jobs/close.rs, and its check of the clock.
use notifs_piper.Common.{
  ℕ, zero, suc, ◌+◌, ◌<◌, ◌≡◌, ◌⊎◌, ◌≢◌, inl, inr, refl, List, err, Option-cases, Bool-cases, Bool,
  true, false, not, ◌&&◌, ◌%◌, ◌^◌, none, some, ok, panic, arith, ltb, if◌then◌else◌,
}
use notifs_piper.Common.Int.{ℤ, pos, negsuc}
use notifs_piper.Text.{Text, codes}
use notifs_piper.Flags.{is, force}
use notifs_piper.Event.{NotificationEvent, set_closed}
use notifs_piper.Job.{NotificationClosed, expired, closed_repr, Desc}
use notifs_piper.Fulfilled.{EventType, FulfilledJob}
use notifs_piper.Manager.{LogsManager, position, find, modify_found, map_timeout}
use notifs_piper.Manager.Buffer.{position-found, position-none}
use notifs_piper.Execute.Bus.{Env, notification_closed, Server, dropped}
use notifs_piper.Execute.Signals.{run_signal, none_or_closed}
use notifs_piper.Execute.Close.{
  execute_close, nth_found, drops, not_expired, close_found, mark_closed, is_expired, still_running,
  add_u128,
}

nth_found-find :
    {Hints : Type 0} (id : ℕ) (l : List (NotificationEvent Hints))
    → nth_found l (position id l) ≡ find id l
nth_found-find id l = elim (Option-cases (find id l)) [
  | inl e ↦ rw (position-none id l e, e)
  | inr (ne, e) ↦ let (i, p, g, _) = position-found id l ne e in rw (p, e) g
]

module _ {Hints : Type 0} (env : Env) (id : ℕ) (reason : NotificationClosed) (desc : Desc)
    (s : Server Hints) where
  -- Without the flag `FORCE`, a close of a notification that is not in the buffer or is already
  -- closed leaves the state as it was and has the result `Ok(None)`.
  pub execute_close_silent :
      none_or_closed (find id s.man.logs_buffer) ≡ true
      → is force desc.flags ≡ false
      → execute_close env id reason desc s ≡ ok (dropped s)
  unfolding execute_close
  execute_close_silent h f = rw (nth_found-find id s.man.logs_buffer, h, f)

  -- With the flag `FORCE`, a close of a notification that is not in the buffer panics.
  pub execute_close_forced_missing :
      find id s.man.logs_buffer ≡ none
      → is force desc.flags ≡ true
      → execute_close env id reason desc s ≡ panic
  unfolding execute_close
  execute_close_forced_missing h f = rw (position-none id s.man.logs_buffer h, f)

  -- The server behind a close: the first notification with the id is closed, no other is changed,
  -- and the buffer is to be written.
  abbrev pub closed_server : Server Hints
  closed_server = record s {
    man = record s.man { logs_buffer = modify_found set_closed id s.man.logs_buffer; dirty = true };
  }

  pub execute_close_found :
      (ne : NotificationEvent Hints) (early : Bool)
      → find id s.man.logs_buffer ≡ some ne
      → (ne.closed ≡ false) ⊎ (is force desc.flags ≡ true)
      → drops env s.man reason ne ≡ ok early
      → execute_close env id reason desc s
        ≡ ok (
            if early
            then dropped s
            else run_signal env
                (codes "Cannot emit 'notification_closed' signal.")
                (notification_closed id (closed_repr reason))
                (EventType.close id)
                closed_server)
  unfolding execute_close close_found mark_closed
  execute_close_found ne true h o d =
      let (i, p, g, m) = position-found id s.man.logs_buffer ne h in
      let goes_on : (ne.closed && not (is force desc.flags)) ≡ false = ground arith in
      rw (p, g, goes_on, d)
  execute_close_found ne false h o d =
      let (i, p, g, m) = position-found id s.man.logs_buffer ne h in
      let goes_on : (ne.closed && not (is force desc.flags)) ≡ false = ground arith in
      rw (p, g, goes_on, d, m set_closed)

  -- Where the check of the clock panics, the close does.
  pub execute_close_late :
      (ne : NotificationEvent Hints)
      → find id s.man.logs_buffer ≡ some ne
      → (ne.closed ≡ false) ⊎ (is force desc.flags ≡ true)
      → drops env s.man reason ne ≡ panic
      → execute_close env id reason desc s ≡ panic
  unfolding execute_close
  execute_close_late ne h o d =
      let (i, p, g, m) = position-found id s.man.logs_buffer ne h in
      let goes_on : (ne.closed && not (is force desc.flags)) ≡ false = ground arith in
      rw (p, g, goes_on, d) refl

module _ {Hints : Type 0} (env : Env) (man : LogsManager Hints) (ne : NotificationEvent Hints) where
  -- With automatic closing, a close on expiry comes too early exactly while the wall clock is
  -- before the notification's time plus its timeout, where this sum fits in 128 bits; a notification
  -- without a valid timeout never expires.
  pub drops_expired :
      man.logs_config.auto_close ≡ true
      → ((v : ℕ)
          → ne.timeout ≢ pos 0
          → map_timeout man ne.timeout ≡ ok (some v)
          → v + ne.time < 2 ^ 128
          → drops env man expired ne ≡ ok (ltb env.system_time (v + ne.time)))
        × (ne.timeout ≡ pos 0 → drops env man expired ne ≡ ok true)
        × ((e : Text) → map_timeout man ne.timeout ≡ err e → drops env man expired ne ≡ ok true)
  unfolding drops not_expired add_u128
  drops_expired auto = (λ v t m f. ground arith, λ t. ground arith, λ e m. ground arith)

  -- Closes for another reason, and all closes without automatic closing, are never too early.
  pub drops_other :
      (reason : NotificationClosed)
      → (is_expired reason && man.logs_config.auto_close) ≡ false
      → drops env man reason ne ≡ ok false
  unfolding drops
  drops_other reason h = rw h

  still_running_cases :
      (v : ℕ)
      → ((early : Bool) × (still_running env ne.time (ok (some v)) ≡ ok early))
        ⊎ ((env.overflow_checks ≡ true) × (still_running env ne.time (ok (some v)) ≡ panic))
  unfolding add_u128
  still_running_cases v = elim (Bool-cases (ltb (v + ne.time) (2 ^ 128))) [
    | inl e ↦ inl (ltb env.system_time (v + ne.time), rw e refl)
    | inr e ↦ elim (Bool-cases env.overflow_checks) [
      | inl c ↦ inr (c, rw (e, c) refl)
      | inr c ↦ inl (ltb env.system_time ((v + ne.time) % 2 ^ 128), rw (e, c) refl)
    ]
  ]

  not_expired_cases :
      (t : ℤ)
      → ne.timeout ≡ t
      → ((early : Bool) × (not_expired env man ne ≡ ok early))
        ⊎ ((env.overflow_checks ≡ true) × (not_expired env man ne ≡ panic))
  unfolding not_expired map_timeout
  not_expired_cases (pos zero) e = inl (true, rw e refl)
  not_expired_cases (pos (suc n)) e = rw e (still_running_cases (suc n % 2 ^ 16))
  not_expired_cases (negsuc zero) e = rw e (still_running_cases man.logs_config.default_timeout)
  not_expired_cases (negsuc (suc n)) e = inl (true, rw e refl)

  -- The check of the clock panics at most in a build with overflow checks, and on expiry.
  pub drops_cases :
      (reason : NotificationClosed)
      → ((early : Bool) × (drops env man reason ne ≡ ok early))
        ⊎ (((is_expired reason && env.overflow_checks) ≡ true) × (drops env man reason ne ≡ panic))
  unfolding drops
  drops_cases reason = elim (Bool-cases (is_expired reason && man.logs_config.auto_close)) [
    | inl e ↦ elim (not_expired_cases ne.timeout refl) [
      | inl (early, d) ↦ inl (early, rw e d)
      | inr (c, d) ↦ inr (ground arith, rw e d)
    ]
    | inr e ↦ inl (false, rw e refl)
  ]

module _ {Hints : Type 0} (env : Env) (id : ℕ) (desc : Desc) (s : Server Hints) where
  -- With automatic closing, the close that a timer sends for an open notification with a valid
  -- timeout other than 0 does nothing while the wall clock is before the notification's time plus
  -- its timeout, and from then on marks it as closed and runs the signal, where this sum fits in 128
  -- bits.
  pub execute_close_expired :
      (ne : NotificationEvent Hints) (v : ℕ)
      → s.man.logs_config.auto_close ≡ true
      → find id s.man.logs_buffer ≡ some ne
      → ne.closed ≡ false
      → ne.timeout ≢ pos 0
      → map_timeout s.man ne.timeout ≡ ok (some v)
      → v + ne.time < 2 ^ 128
      → execute_close env id expired desc s
        ≡ ok (
            if ltb env.system_time (v + ne.time)
            then dropped s
            else run_signal env
                (codes "Cannot emit 'notification_closed' signal.")
                (notification_closed id 1)
                (EventType.close id)
                (closed_server env id expired desc s))
  execute_close_expired ne v auto found open_ne timed m fits =
      execute_close_found env id expired desc s ne _ found (inl open_ne)
        ((drops_expired env s.man ne auto).0 v timed m fits)

  -- Without the flag `FORCE` a close does not panic, if its reason is not the expiry or the build
  -- has no overflow checks.
  pub execute_close_total :
      (reason : NotificationClosed)
      → is force desc.flags ≡ false
      → (is_expired reason && env.overflow_checks) ≡ false
      → (r : Server Hints × FulfilledJob) × (execute_close env id reason desc s ≡ ok r)
  execute_close_total reason f calm = elim (Option-cases (find id s.man.logs_buffer)) [
    | inl e ↦ (dropped s, execute_close_silent env id reason desc s (rw e) f)
    | inr (ne, e) ↦ elim (Bool-cases ne.closed) [
      | inl shut ↦ (dropped s, execute_close_silent env id reason desc s (rw e shut) f)
      | inr open_ne ↦ elim (drops_cases env s.man ne reason) [
        | inl (early, d) ↦ (_, execute_close_found env id reason desc s ne early e (inl open_ne) d)
        | inr (c, d) ↦ absurd (cc (c, calm))
      ]
    ]
  ]

-- A close that goes through, as the signal that it runs.
abbrev pub closes :
    {Hints : Type 0}
    → Env
    → ℕ
    → NotificationClosed
    → Desc
    → Server Hints
    → Server Hints × FulfilledJob
closes env id reason desc s =
    run_signal env (codes "Cannot emit 'notification_closed' signal.")
      (notification_closed id (closed_repr reason)) (EventType.close id)
      (closed_server env id reason desc s)

module _ {Hints : Type 0} (env : Env) (id : ℕ) (reason : NotificationClosed) (desc : Desc)
    (s : Server Hints) where
  found_cases :
      (ne : NotificationEvent Hints)
      → find id s.man.logs_buffer ≡ some ne
      → (ne.closed ≡ false) ⊎ (is force desc.flags ≡ true)
      → (execute_close env id reason desc s ≡ panic)
        ⊎ ((execute_close env id reason desc s ≡ ok (dropped s))
            ⊎ (execute_close env id reason desc s ≡ ok (closes env id reason desc s)))
  found_cases ne e o = elim (drops_cases env s.man ne reason) [
    | inl (early, d) ↦ inr (by_time early d)
    | inr (c, d) ↦ inl (execute_close_late env id reason desc s ne e o d)
  ]
    where
      by_time :
          (early : Bool)
          → drops env s.man reason ne ≡ ok early
          → (execute_close env id reason desc s ≡ ok (dropped s))
            ⊎ (execute_close env id reason desc s ≡ ok (closes env id reason desc s))
      by_time true d = inl (execute_close_found env id reason desc s ne true e o d)
      by_time false d = inr (execute_close_found env id reason desc s ne false e o d)

  -- Every close panics, does nothing, or goes through.
  pub execute_close_cases :
      (execute_close env id reason desc s ≡ panic)
      ⊎ ((execute_close env id reason desc s ≡ ok (dropped s))
          ⊎ (execute_close env id reason desc s ≡ ok (closes env id reason desc s)))
  execute_close_cases = elim (Bool-cases (is force desc.flags)) [
    | inl f ↦ elim (Option-cases (find id s.man.logs_buffer)) [
      | inl e ↦ inl (execute_close_forced_missing env id reason desc s e f)
      | inr (ne, e) ↦ found_cases ne e (inr f)
    ]
    | inr f ↦ elim (Bool-cases (none_or_closed (find id s.man.logs_buffer))) [
      | inl h ↦ inr (inl (execute_close_silent env id reason desc s h f))
      | inr h ↦ elim (Option-cases (find id s.man.logs_buffer)) [
        | inl e ↦ absurd (ground arith)
        | inr (ne, e) ↦ found_cases ne e (inl (ground arith))
      ]
    ]
  ]
