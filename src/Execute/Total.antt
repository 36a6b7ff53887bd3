-- ===== src/Execute/Total.antt =====
-- Which jobs of server/jobs always succeed.
use notifs_piper.Common.{
  Bool, ℕ, zero, suc, ◌+◌, ◌^◌, ◌%◌, ◌≤◌, ◌≡◌, refl, true, false, not, ◌&&◌, some, take, drop, ◌-◌,
  List, [], ◌∷◌, ◌++◌, ok, arith, Bool-cases, inl, inr,
}
use notifs_piper.Common.Int.{ℤ, pos, negsuc}
use notifs_piper.Manager.{LogsManager, append_notification, map_timeout}
use notifs_piper.Flags.{is, force, silent}
use notifs_piper.Event.{NotificationEvent, Serde}
use notifs_piper.Job.{
  Job, acknowledge, broadcast, close, query, read, action_invoked, activation_token, watch, Desc,
}
use notifs_piper.Fulfilled.{FulfilledJob, results, value}
use notifs_piper.Manager.Reading.{read_logs_lem}
use notifs_piper.Execute.Bus.{Env, Timer, Server}
use notifs_piper.Execute.Broadcast.{replace, spawn, spawn_timer, execute_broadcast, is_timed}
use notifs_piper.Execute.Close.{is_expired}
use notifs_piper.Execute.Closing.{execute_close_total}
use notifs_piper.Execute.{execute, execute_read}

module _ {Hints : Type 0} (env : Env) (man : LogsManager Hints) (ne : NotificationEvent Hints) where
  timed_total :
      (t : ℤ)
      → ne.timeout ≡ t
      → is_timed t ≡ true
      → (timers : List Timer) × (spawn_timer env man ne ≡ ok timers)
  unfolding spawn_timer map_timeout
  timed_total (pos zero) e timed = cc
  timed_total (pos (suc n)) e timed =
      (record { wakeup = env.instant + suc n % 2 ^ 16; id = ne.id; snd = man.notifyer } ∷ [], rw e)
  timed_total (negsuc zero) e timed = (
    record {
      wakeup = env.instant + man.logs_config.default_timeout;
      id = ne.id;
      snd = man.notifyer;
    }
        ∷ [],
    rw e,
  )
  timed_total (negsuc (suc n)) e timed = cc

  pub spawn_total : (timers : List Timer) × (spawn env man ne ≡ ok timers)
  unfolding spawn
  spawn_total = elim (Bool-cases (man.logs_config.auto_close && is_timed ne.timeout)) [
    | inl e ↦ rw e (timed_total ne.timeout refl (ground arith))
    | inr e ↦ ([], rw e)
  ]

module _ {Hints : Type 0} (serde : Serde Hints) (env : Env) (desc : Desc)
    (ne : NotificationEvent Hints) (s : Server Hints) where
  abbrev pub shown : FulfilledJob
  shown = record { result = value (some (serde.event_to_string ne)); typ = results }

  -- A broadcast always succeeds.
  pub execute-broadcast :
      (s' : Server Hints) × (execute serde env (broadcast ne) desc s ≡ ok (s', shown))
      × (s'.man ≡ append_notification (replace s.man ne) ne)
  unfolding execute execute_broadcast
  execute-broadcast =
      let (timers, e) = spawn_total env (replace s.man ne) ne in
      let s' : Server Hints = record s {
        man = append_notification (replace s.man ne) ne;
        timers = s.timers ++ timers;
      } in
      (s', rw e refl, refl)

-- No close by force, no reading whose end is before its start, and in a build with overflow checks no
-- close on expiry.
abbrev pub IsHarmless : {Hints : Type 0} → Bool → Job Hints → Desc → Type 0
IsHarmless checks (close id reason) desc =
    (is force desc.flags ≡ false) × ((is_expired reason && checks) ≡ false)
IsHarmless checks (read start end) desc = start ≤ end
IsHarmless checks job desc = Unit {0}

module _ {Hints : Type 0} (serde : Serde Hints) (env : Env) (desc : Desc) (s : Server Hints) where
  execute_read_total :
      (start end : ℕ)
      → start ≤ end
      → (r : Server Hints × FulfilledJob) × (execute_read serde start end desc s ≡ ok r)
  unfolding execute_read
  execute_read_total start end h =
      let (man, cut, _, _) = read_logs_lem s.man start end (not (is silent desc.flags)) h in
      (
        (
          record s { man = man },
          record {
            result =
                value
                  (some (serde.logs_to_string (take (end - start) (drop start man.logs_buffer))));
            typ = results;
          },
        ),
        rw cut refl,
      )

  pub execute_total :
      (job : Job Hints)
      → IsHarmless env.overflow_checks job desc
      → (r : Server Hints × FulfilledJob) × (execute serde env job desc s ≡ ok r)
  unfolding execute
  execute_total (acknowledge id) h = (_, refl)
  execute_total (broadcast ne) h =
      let (s', ran, _) = execute-broadcast serde env desc ne s in (_, ran)
  execute_total (close id reason) (h, calm) = execute_close_total env id desc s reason h calm
  execute_total (query id) h = (_, refl)
  execute_total (read start end) h = execute_read_total start end h
  execute_total (action_invoked id key) h = (_, refl)
  execute_total (activation_token id token) h = (_, refl)
  execute_total watch h = (_, refl)
