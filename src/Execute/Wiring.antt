-- ===== src/Execute/Wiring.antt =====
-- The copies of `notifyer`: every job leaves the manager's as it was and gives one to its timer.
use notifs_piper.Common.{
  ℕ, ◌≡◌, sym, ap, ◌∙◌, true, not, List, [], All, All-append, ok, arith, ok-injective, >>=-eq-ok,
  Bool-cases, Option-cases, inl, inr, ◌&&◌,
}
use notifs_piper.Text.{Text, codes}
use notifs_piper.Flags.{is, silent}
use notifs_piper.Event.{NotificationEvent, Serde}
use notifs_piper.Job.{
  Job, acknowledge, broadcast, close, query, read, action_invoked, activation_token, watch, Desc,
  NotificationClosed,
}
use notifs_piper.Fulfilled.{EventType, FulfilledJob}
use notifs_piper.Manager.{
  LogsManager, find, append_notification, read_notification, read_logs, map_timeout,
}
use notifs_piper.Manager.Removal.{remove_notification-none, remove_notification-some}
use notifs_piper.Manager.Reading.{read_logs_cases}
use notifs_piper.Execute.Bus.{Env, Signal, Timer, Server}
use notifs_piper.Execute.Signals.{emit, run_signal, execute_signal}
use notifs_piper.Execute.Broadcast.{
  replace, spawn, spawn_timer, execute_broadcast, is_timed, unwrap_timeout,
}
use notifs_piper.Execute.Close.{execute_close}
use notifs_piper.Execute.Closing.{closed_server, execute_close_cases}
use notifs_piper.Execute.{execute, execute_query, execute_read}

-- The manager and every timer can signal.
abbrev pub IsWired : {Hints : Type 0} → Server Hints → Type 0
IsWired s = (s.man.notifyer ≡ true) × All (λ t. t.snd ≡ true) s.timers

module _ {Hints : Type 0} (env : Env) where
  wires-run_signal :
      (failed : Text) (signal : Signal) (ev : EventType) (s : Server Hints)
      → ((run_signal env failed signal ev s).0.man ≡ s.man)
        × ((run_signal env failed signal ev s).0.timers ≡ s.timers)
  unfolding run_signal emit
  wires-run_signal failed signal ev s = ground arith

  run_signal-IsWired :
      (failed : Text) (signal : Signal) (ev : EventType) (s : Server Hints)
      → IsWired s
      → IsWired (run_signal env failed signal ev s).0
  run_signal-IsWired failed signal ev s w =
      let (man, timers) = wires-run_signal failed signal ev s in rw (man, timers) w

  execute_signal-IsWired :
      (id : ℕ) (signal : Signal) (ev : EventType) (desc : Desc) (s : Server Hints)
      → IsWired s
      → IsWired (execute_signal env id signal ev desc s).0
  unfolding execute_signal
  execute_signal-IsWired id signal ev desc s w =
      ground (arith, run_signal-IsWired (codes "Cannot emit signal.") signal ev s w)

  close-IsWired :
      (id : ℕ) (reason : NotificationClosed) (desc : Desc) (s : Server Hints)
      (r : Server Hints × FulfilledJob)
      → execute_close env id reason desc s ≡ ok r
      → IsWired s
      → IsWired r.0
  close-IsWired id reason desc s r h w = elim (execute_close_cases env id reason desc s) [
    | inl p ↦ cc
    | inr (inl d) ↦ rw (← ok-injective (sym d ∙ h)) w
    | inr (inr c) ↦
        rw (← ok-injective (sym c ∙ h))
          (run_signal-IsWired _ _ _ (closed_server env id reason desc s) w)
  ]

module _ {Hints : Type 0} where
  notifyer-replace :
      (man : LogsManager Hints) (ne : NotificationEvent Hints)
      → (replace man ne).notifyer ≡ man.notifyer
  unfolding replace
  notifyer-replace man ne = elim (Option-cases (find ne.replaces_id man.logs_buffer)) [
    | inl e ↦ rw (remove_notification-none man ne.replaces_id e) (ground arith)
    | inr (old, e) ↦
        let (rest, removed, p) = remove_notification-some man ne.replaces_id old e in
        rw removed (ground arith)
  ]

  spawn-wired :
      (env : Env) (man : LogsManager Hints) (ne : NotificationEvent Hints) (timers : List Timer)
      → spawn env man ne ≡ ok timers
      → man.notifyer ≡ true
      → All (λ t. t.snd ≡ true) timers
  unfolding spawn spawn_timer
  spawn-wired env man ne timers h w =
      elim (Bool-cases (man.logs_config.auto_close && is_timed ne.timeout)) [
        | inl e ↦
            let q : spawn_timer env man ne ≡ ok timers = rw e at h in
            let (v, _, q') = >>=-eq-ok (unwrap_timeout (map_timeout man ne.timeout)) _ q in
            rw (← ok-injective q') (w, tt)
        | inr e ↦ let q : ok [] ≡ ok timers = rw e at h in rw (← ok-injective q) tt
      ]

  broadcast-IsWired :
      (serde : Serde Hints) (env : Env) (ne : NotificationEvent Hints) (s : Server Hints)
      (r : Server Hints × FulfilledJob)
      → execute_broadcast serde env ne s ≡ ok r
      → IsWired s
      → IsWired r.0
  unfolding execute_broadcast append_notification
  broadcast-IsWired serde env ne s r h (snd, timers) =
      let (spawned, p, e) = >>=-eq-ok (spawn env (replace s.man ne) ne) _ h in
      let kept = notifyer-replace s.man ne ∙ snd in
      rw (← ok-injective e) (
        kept,
        All-append _ s.timers spawned timers (spawn-wired env (replace s.man ne) ne spawned p kept),
      )

  read-IsWired :
      (serde : Serde Hints) (start end : ℕ) (desc : Desc) (s : Server Hints)
      (r : Server Hints × FulfilledJob)
      → execute_read serde start end desc s ≡ ok r
      → IsWired s
      → IsWired r.0
  unfolding execute_read
  read-IsWired serde start end desc s r h (snd, timers) =
      let update = not (is silent desc.flags) in
      let (got, p, e) = >>=-eq-ok (read_logs s.man start end update) _ h in
      rw (← ok-injective e) (elim (read_logs_cases s.man start end update got p) [
        | inl q ↦ (ap (λ m. m.notifyer) q ∙ snd, timers)
        | inr q ↦ (ap (λ m. m.notifyer) q ∙ snd, timers)
      ])

module _ {Hints : Type 0} (serde : Serde Hints) (env : Env) (desc : Desc) (s : Server Hints)
    (r : Server Hints × FulfilledJob) where
  pub execute-IsWired :
      (job : Job Hints) → execute serde env job desc s ≡ ok r → IsWired s → IsWired r.0
  unfolding execute execute_query read_notification
  execute-IsWired (acknowledge id) h w = rw (← ok-injective h) w
  execute-IsWired (broadcast ne) h w = broadcast-IsWired serde env ne s r h w
  execute-IsWired (close id reason) h w = close-IsWired env id reason desc s r h w
  execute-IsWired (query id) h w = rw (← ok-injective h) w
  execute-IsWired (read start end) h w = read-IsWired serde start end desc s r h w
  execute-IsWired (action_invoked id key) h w =
      rw (← ok-injective h) (execute_signal-IsWired env id _ _ desc s w)
  execute-IsWired (activation_token id token) h w =
      rw (← ok-injective h) (execute_signal-IsWired env id _ _ desc s w)
  execute-IsWired watch h w = rw (← ok-injective h) w
