-- ===== src/Execute/Results.antt =====
-- The jobs of server/jobs and what they answer.
pub mod Reported
use notifs_piper.Common.{
  ltb, ltb→lt, length, ℕ, ◌≡◌, refl, sym, ap, ◌∙◌, Bool, true, false, not, some, List, take, drop,
  ok, arith, inl, inr, Bool-cases, Option-cases, ok-injective, >>=-eq-ok, ◌-◌,
}
use mathlib.Core.Path.{subst}
use notifs_piper.Flags.{is, silent}
use notifs_piper.Event.{NotificationEvent, Serde}
use notifs_piper.Job.{
  Job, acknowledge, broadcast, close, query, read, action_invoked, activation_token, watch, Desc,
}
use notifs_piper.Fulfilled.{EventType, FulfilledJob, value, results}
use notifs_piper.Manager.{LogsManager, find, read_logs, append_notification}
use notifs_piper.Manager.Reading.{read_logs_lem, read_logs_beyond, read_logs_panic_iff}
use notifs_piper.Manager.Removal.{remove_notification-none, remove_notification-some}
use notifs_piper.Execute.Bus.{Env, Server, Signal}
use notifs_piper.Execute.Broadcast.{replace, spawn, execute_broadcast}
use notifs_piper.Execute.Later.{execute-Keeps}
use notifs_piper.Execute.Invariants.{man-execute_broadcast}
use notifs_piper.Execute.Spec.{Answers, takes_signals}
use notifs_piper.Execute.{execute, execute_read, execute_query}
use Reported.{told_closed_lem, execute_signal-IsReported, execute_close-reported}

module _ {Hints : Type 0} (serde : Serde Hints) (env : Env) (desc : Desc) (s s' : Server Hints)
    (fj : FulfilledJob) where
  broadcast-Answers :
      (ne : NotificationEvent Hints)
      → execute_broadcast serde env ne s ≡ ok (s', fj)
      → (fj ≡ record { result = value (some (serde.event_to_string ne)); typ = results })
        × (s'.emitted ≡ s.emitted)
  unfolding execute_broadcast
  broadcast-Answers ne h =
      let (timers, _, e) = >>=-eq-ok (spawn env (replace s.man ne) ne) _ h in
      (ap (λ r. r.1) (ok-injective (sym e)), ap (λ r. r.0.emitted) (ok-injective (sym e)))

  read_window :
      (start end : ℕ) (update : Bool) (r : LogsManager Hints × List (NotificationEvent Hints))
      → read_logs s.man start end update ≡ ok r
      → r.1 ≡ take (end - start) (drop start r.0.logs_buffer)
  read_window start end update r h = elim (Bool-cases (ltb end start)) [
    | inl back ↦ elim (Bool-cases (ltb end (length s.man.logs_buffer))) [
      | inl inside ↦
          let p =
            (read_logs_panic_iff s.man start end update).1 (ltb→lt _ _ back, ltb→lt _ _ inside) in
          absurd (cc (h, p))
      | inr beyond ↦
          let p = read_logs_beyond s.man start end update (ltb→lt _ _ back) (ground arith) in
          let nothing : end - start ≡ 0 = omega (arith, ltb→lt _ _ back) in
          subst (λ x. x.1 ≡ take (end - start) (drop start x.0.logs_buffer))
            (ok-injective (sym p ∙ h)) (rw nothing refl)
    ]
    | inr forth ↦
        let (man', p, _, _) = read_logs_lem s.man start end update (ground arith) in
        subst (λ x. x.1 ≡ take (end - start) (drop start x.0.logs_buffer))
          (ok-injective (sym p ∙ h)) refl
  ]

  read-Answers :
      (start end : ℕ)
      → execute_read serde start end desc s ≡ ok (s', fj)
      → (fj ≡ record {
        result =
            value
              (some (serde.logs_to_string (take (end - start) (drop start s'.man.logs_buffer))));
        typ = results;
      })
        × (s'.emitted ≡ s.emitted)
  unfolding execute_read
  read-Answers start end h =
      let update = not (is silent desc.flags) in
      let (got, p, e) = >>=-eq-ok (read_logs s.man start end update) _ h in
      let after = ok-injective (sym e) in
      (
        ap (λ r. r.1) after
            ∙ ap (λ t. record { result = value (some (serde.logs_to_string t)); typ = results })
                (read_window start end update got p
                  ∙ ap (λ r. take (end - start) (drop start r.0.man.logs_buffer)) (sym after)),
        ap (λ r. r.0.emitted) after,
      )

  -- What a job answers and gives to the bus.
  pub execute-Answers :
      (job : Job Hints)
      → execute serde env job desc s ≡ ok (s', fj)
      → Answers serde
          (takes_signals env s.man.interface)
          s.man.logs_config.auto_close
          job
          desc
          s.man.logs_buffer
          s'.man.logs_buffer
          s.emitted
          s'.emitted
          fj
  unfolding execute execute_query
  execute-Answers (acknowledge id) h =
      (ap (λ r. r.1) (ok-injective (sym h)), ap (λ r. r.0.emitted) (ok-injective (sym h)))
  execute-Answers (broadcast ne) h = broadcast-Answers ne h
  execute-Answers (close id reason) h = execute_close-reported env id reason desc s (s', fj) h
  execute-Answers (query id) h = (
    ap (λ r. r.1) (ok-injective (sym h))
        ∙ ap (λ t. record { result = value (some t); typ = results })
            (told_closed_lem id s.man.logs_buffer),
    ap (λ r. r.0.emitted) (ok-injective (sym h)),
  )
  execute-Answers (read start end) h = read-Answers start end h
  execute-Answers (action_invoked id key) h =
      subst
        (λ r.
          Answers serde (takes_signals env s.man.interface) s.man.logs_config.auto_close
            (action_invoked id key) desc s.man.logs_buffer r.0.man.logs_buffer s.emitted r.0.emitted
            r.1)
        (ok-injective h)
        (execute_signal-IsReported env id (Signal.action_invoked id key)
          (EventType.action_invoked id key) desc s)
  execute-Answers (activation_token id token) h =
      subst
        (λ r.
          Answers serde (takes_signals env s.man.interface) s.man.logs_config.auto_close
            (activation_token id token) desc s.man.logs_buffer r.0.man.logs_buffer s.emitted
            r.0.emitted r.1)
        (ok-injective h)
        (execute_signal-IsReported env id (Signal.activation_token id token)
          (EventType.activation_token id token) desc s)
  execute-Answers watch h =
      (ap (λ r. r.1) (ok-injective (sym h)), ap (λ r. r.0.emitted) (ok-injective (sym h)))

  -- No job changes whether there is a bus.
  pub execute-interface :
      (job : Job Hints)
      → execute serde env job desc s ≡ ok (s', fj)
      → s'.man.interface ≡ s.man.interface
  unfolding execute append_notification replace
  execute-interface (broadcast ne) h =
      rw (man-execute_broadcast serde env ne s (s', fj) h)
        (elim (Option-cases (find ne.replaces_id s.man.logs_buffer)) [
          | inl e ↦ rw (remove_notification-none s.man ne.replaces_id e) (ground arith)
          | inr (old, e) ↦
              let (rest, removed, p) = remove_notification-some s.man ne.replaces_id old e in
              rw removed (ground arith)
        ])
  execute-interface job h = (execute-Keeps serde env job desc s (s', fj) (λ x. x) h).interface
