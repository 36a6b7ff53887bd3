-- ===== src/Execute/Answers.antt =====
-- What the answers of the jobs look like on the wire.
use notifs_piper.Common.{
  ℕ, ◌≡◌, ◌≢◌, inl, inr, sym, ◌∙◌, not, Bool, true, false, none, some, [], ◌∷◌, ◌++◌, ok, arith,
  ok-injective, >>=-eq-ok,
}
use notifs_piper.Text.{Text, codes}
use notifs_piper.Event.{Serde}
use notifs_piper.Job.{
  Job, acknowledge, broadcast, close, query, read, action_invoked, activation_token, watch, Desc,
  NotificationClosed,
}
use notifs_piper.Fulfilled.{
  EventType, FulfilledJob, ResultType, JobResult, results, event, other, value, failure, typed_text,
  fulfilled_to_string,
}
use notifs_piper.Execute.Bus.{Env, Signal, Server}
use notifs_piper.Execute.Signals.{emit, run_signal, execute_signal}
use notifs_piper.Flags.{is, silent}
use notifs_piper.Manager.{read_logs}
use notifs_piper.Execute.Close.{execute_close}
use notifs_piper.Execute.Closing.{execute_close_cases}
use notifs_piper.Execute.Broadcast.{execute_broadcast, replace, spawn}
use notifs_piper.Execute.{execute, execute_read, execute_query}

-- Whether a failure travels under another tag than a plain result.
abbrev tagged_as : JobResult → ResultType → Bool
tagged_as (value v) t = true
tagged_as (failure e) results = false
tagged_as (failure e) (event ev) = true
tagged_as (failure e) other = true

abbrev tagged : FulfilledJob → Bool
tagged fj = tagged_as fj.result fj.typ

text-ne-err :
    (r : JobResult) (t : ResultType) (e : Text)
    → tagged_as r t ≡ true
    → typed_text t r ≢ codes "err#" ++ e
text-ne-err (value none) results e h = λ q. cc
text-ne-err (value (some [])) results e h = λ q. cc
text-ne-err (value (some (c ∷ s))) results e h = λ q. ground arith
text-ne-err (failure x) results e h = λ q. cc
text-ne-err r (event ev) e h = λ q. ground arith
text-ne-err r other e h = λ q. ground arith

module _ {Hints : Type 0} (env : Env) where
  emit-tagged :
      (failed : Text) (signal : Signal) (ev : EventType) (s : Server Hints)
      → tagged (run_signal env failed signal ev s).1 ≡ true
  unfolding emit run_signal
  emit-tagged failed signal ev s = ground arith

  signal-tagged :
      (id : ℕ) (signal : Signal) (ev : EventType) (desc : Desc) (s : Server Hints)
      → tagged (execute_signal env id signal ev desc s).1 ≡ true
  unfolding execute_signal
  signal-tagged id signal ev desc s =
      ground (arith, emit-tagged (codes "Cannot emit signal.") signal ev s)

  close-tagged :
      (id : ℕ) (reason : NotificationClosed) (desc : Desc) (s : Server Hints)
      (r : Server Hints × FulfilledJob)
      → execute_close env id reason desc s ≡ ok r
      → tagged r.1 ≡ true
  close-tagged id reason desc s r h = elim (execute_close_cases env id reason desc s) [
    | inl p ↦ cc
    | inr (inl d) ↦ ground arith
    | inr (inr c) ↦
        rw (← ok-injective (sym c ∙ h))
          (emit-tagged (codes "Cannot emit 'notification_closed' signal.") _ _ _)
  ]

module _ {Hints : Type 0} (serde : Serde Hints) (env : Env) where
  execute-tagged :
      (job : Job Hints) (desc : Desc) (s : Server Hints) (r : Server Hints × FulfilledJob)
      → execute serde env job desc s ≡ ok r
      → tagged r.1 ≡ true
  unfolding execute execute_query execute_read execute_broadcast
  execute-tagged (acknowledge id) desc s r h = ground arith
  execute-tagged (broadcast ne) desc s r h =
      let (spawned, _, e) = >>=-eq-ok (spawn env (replace s.man ne) ne) _ h in rw (← ok-injective e)
  execute-tagged (close id reason) desc s r h = close-tagged env id reason desc s r h
  execute-tagged (query id) desc s r h = ground arith
  execute-tagged (read start end) desc s r h =
      let ((man, slice), _, e) =
        >>=-eq-ok (read_logs s.man start end (not (is silent desc.flags))) _ h in
      rw (← ok-injective e)
  execute-tagged (action_invoked id key) desc s r h =
      rw (← ok-injective h) (signal-tagged env id _ _ desc s)
  execute-tagged (activation_token id token) desc s r h =
      rw (← ok-injective h) (signal-tagged env id _ _ desc s)
  execute-tagged watch desc s r h = ground arith

  -- Whatever the job, the state and the outside do, the text of the answer of a job that succeeds
  -- does not start with the tag `err`.
  pub execute-ne-err :
      (job : Job Hints) (desc : Desc) (s s' : Server Hints) (fj : FulfilledJob)
      → execute serde env job desc s ≡ ok (s', fj)
      → (e : Text) → fulfilled_to_string fj ≢ codes "err#" ++ e
  unfolding fulfilled_to_string
  execute-ne-err job desc s s' fj h e =
      text-ne-err fj.result fj.typ e (execute-tagged job desc s (s', fj) h)
