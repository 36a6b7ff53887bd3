-- ===== src/Execute/Results/Reported.antt =====
-- What a query, a close and a signal answer, and what they give to the bus.
use notifs_piper.Common.{
  ℕ, ◌≡◌, ◌⊎◌, refl, sym, ◌∙◌, Bool, true, false, not, ◌&&◌, ◌||◌, some, List, [], ◌∷◌, ok, arith,
  inl, inr, Bool-cases, Option-cases, ok-injective, ◌==◌,
}
use mathlib.Core.Path.{subst}
use notifs_piper.Text.{Text, codes}
use notifs_piper.Flags.{is, force}
use notifs_piper.Event.{NotificationEvent}
use notifs_piper.Job.{Desc, NotificationClosed, closed_repr}
use notifs_piper.Fulfilled.{EventType, FulfilledJob}
use notifs_piper.Manager.{find}
use notifs_piper.Execute.Bus.{Env, Server, Signal, notification_closed}
use notifs_piper.Execute.Signals.{emit, run_signal, execute_signal}
use notifs_piper.Execute.Close.{execute_close, drops, is_expired}
use notifs_piper.Execute.Closing.{
  closed_server, execute_close_silent, execute_close_forced_missing, execute_close_found,
  execute_close_late, drops_cases, drops_other,
}
use notifs_piper.Execute.Spec.{
  told_closed, open_or_forced, takes_signals, IsQuiet, IsSignalled, IsReported,
}
use notifs_piper.Execute.{bool_text, closed_or_false}

-- A query answers what its client is to be told.
pub told_closed_lem :
    {Hints : Type 0} (id : ℕ) (l : List (NotificationEvent Hints))
    → bool_text (closed_or_false (find id l)) ≡ told_closed id l
unfolding find
told_closed_lem id [] = refl
told_closed_lem id (ne ∷ l) = elim (Bool-cases (ne.id == id)) [
  | inl e ↦ elim (Bool-cases ne.closed) [ inl c ↦ rw (e, c) refl | inr c ↦ rw (e, c) refl ]
  | inr e ↦ rw e (told_closed_lem id l)
]

module _ {Hints : Type 0} (env : Env) where
  run_signal-IsSignalled :
      (failed : Text) (signal : Signal) (ev : EventType) (s : Server Hints)
      → IsSignalled
          (takes_signals env s.man.interface)
          signal
          ev
          s.emitted
          (run_signal env failed signal ev s).0.emitted
          (run_signal env failed signal ev s).1
  unfolding run_signal emit
  run_signal-IsSignalled failed signal ev s = elim (Option-cases env.runtime_error) [
    | inr (e, p) ↦ rw p ((e, refl), refl)
    | inl p ↦ elim (Bool-cases s.man.interface) [
      | inr q ↦ rw (p, q) ((_, refl), refl)
      | inl q ↦ elim (Bool-cases env.interface_found) [
        | inr f ↦ rw (p, q, f) ((_, refl), refl)
        | inl f ↦ elim (Bool-cases env.emits) [
          | inr b ↦ rw (p, q, f, b) ((_, refl), refl)
          | inl b ↦ rw (p, q, f, b) (refl, refl)
        ]
      ]
    ]
  ]

  pub execute_signal-IsReported :
      (id : ℕ) (signal : Signal) (ev : EventType) (desc : Desc) (s : Server Hints)
      → IsReported
          (open_or_forced (find id s.man.logs_buffer) (is force desc.flags))
          (takes_signals env s.man.interface)
          signal
          ev
          s.emitted
          (execute_signal env id signal ev desc s).0.emitted
          (execute_signal env id signal ev desc s).1
  unfolding execute_signal
  execute_signal-IsReported id signal ev desc s =
      let sent = run_signal-IsSignalled (codes "Cannot emit signal.") signal ev s in
      elim (Bool-cases (is force desc.flags)) [
        | inl f ↦ elim (Option-cases (find id s.man.logs_buffer)) [
          | inl e ↦ rw (f, e) sent
          | inr (ne, e) ↦ elim (Bool-cases ne.closed) [
            | inl c ↦ rw (f, e, c) sent
            | inr c ↦ rw (f, e, c) sent
          ]
        ]
        | inr f ↦ elim (Option-cases (find id s.man.logs_buffer)) [
          | inl e ↦ rw (f, e) (refl, refl)
          | inr (ne, e) ↦ elim (Bool-cases ne.closed) [
            | inl c ↦ rw (f, e, c) (refl, refl)
            | inr c ↦ rw (f, e, c) sent
          ]
        ]
      ]

module _ {Hints : Type 0} (env : Env) (id : ℕ) (reason : NotificationClosed) (desc : Desc)
    (s : Server Hints) where
  -- How a close is reported.
  abbrev pub CloseReported : Server Hints × FulfilledJob → Type 0
  CloseReported r =
      IsReported (open_or_forced (find id s.man.logs_buffer) (is force desc.flags))
        (takes_signals env s.man.interface) (notification_closed id (closed_repr reason))
        (EventType.close id) s.emitted r.0.emitted r.1
      ⊎ (((is_expired reason && s.man.logs_config.auto_close) ≡ true)
          × IsQuiet s.emitted r.0.emitted r.1)

  -- Only a close on expiry comes too early.
  early_expired :
      (ne : NotificationEvent Hints)
      → drops env s.man reason ne ≡ ok true
      → (is_expired reason && s.man.logs_config.auto_close) ≡ true
  early_expired ne d = elim (Bool-cases (is_expired reason && s.man.logs_config.auto_close)) [
    | inl e ↦ e
    | inr e ↦ let q = drops_other env s.man ne reason e in absurd (cc (d, q))
  ]

  close_found-reported :
      (ne : NotificationEvent Hints) (r : Server Hints × FulfilledJob)
      → find id s.man.logs_buffer ≡ some ne
      → (ne.closed ≡ false) ⊎ (is force desc.flags ≡ true)
      → (not ne.closed || is force desc.flags) ≡ true
      → execute_close env id reason desc s ≡ ok r
      → CloseReported r
  close_found-reported ne r e o wanted h = elim (drops_cases env s.man ne reason) [
    | inr (c, d) ↦ let p = execute_close_late env id reason desc s ne e o d in absurd (cc (h, p))
    | inl (early, d) ↦ by_time early d
  ]
    where
      by_time : (early : Bool) → drops env s.man reason ne ≡ ok early → CloseReported r
      by_time true d =
          let p = execute_close_found env id reason desc s ne true e o d in
          subst (λ x. CloseReported x) (ok-injective (sym p ∙ h))
            (inr (early_expired ne d, (refl, refl)))
      by_time false d =
          let p = execute_close_found env id reason desc s ne false e o d in
          let sent =
            run_signal-IsSignalled env (codes "Cannot emit 'notification_closed' signal.")
              (notification_closed id (closed_repr reason)) (EventType.close id)
              (closed_server env id reason desc s) in
          subst (λ x. CloseReported x) (ok-injective (sym p ∙ h)) (inl (rw (e, wanted) sent))

  pub execute_close-reported :
      (r : Server Hints × FulfilledJob)
      → execute_close env id reason desc s ≡ ok r
      → CloseReported r
  execute_close-reported r h = elim (Bool-cases (is force desc.flags)) [
    | inl f ↦ elim (Option-cases (find id s.man.logs_buffer)) [
      | inl e ↦ let p = execute_close_forced_missing env id reason desc s e f in absurd (cc (h, p))
      | inr (ne, e) ↦ close_found-reported ne r e (inr f) (ground arith) h
    ]
    | inr f ↦ elim (Option-cases (find id s.man.logs_buffer)) [
      | inl e ↦
          let p = execute_close_silent env id reason desc s (rw e refl) f in
          subst (λ x. CloseReported x) (ok-injective (sym p ∙ h)) (inl (rw (e, f) (refl, refl)))
      | inr (ne, e) ↦ elim (Bool-cases ne.closed) [
        | inl c ↦
            let p = execute_close_silent env id reason desc s (rw (e, c) refl) f in
            subst (λ x. CloseReported x) (ok-injective (sym p ∙ h))
              (inl (rw (e, c, f) (refl, refl)))
        | inr c ↦ close_found-reported ne r e (inl c) (rw c refl) h
      ]
    ]
  ]
