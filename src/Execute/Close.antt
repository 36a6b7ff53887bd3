-- ===== src/Execute/Close.antt =====
-- server/jobs/close.rs: a notification is closed, if it is there and open or the request forces it,
-- and if a close on expiry does not come too early.
use notifs_piper.Common.{
  ℕ, zero, ◌+◌, ◌^◌, ◌%◌, Bool, true, false, not, ◌&&◌, Option, none, some, List, get_elem?,
  modify_nth, Outcome, ok, err, panic, ◌>>=◌, unwrap, ltb, if◌then◌else◌,
}
use notifs_piper.Common.Int.{pos}
use notifs_piper.Text.{Text, codes}
use notifs_piper.Flags.{is, force}
use notifs_piper.Event.{NotificationEvent, set_closed}
use notifs_piper.Job.{
  NotificationClosed, expired, dismissed, call_close_notification, undefined, closed_repr, Desc,
}
use notifs_piper.Fulfilled.{EventType, FulfilledJob}
use notifs_piper.Manager.{LogsManager, position, map_timeout}
use notifs_piper.Execute.Bus.{Env, notification_closed, Server, dropped}
use notifs_piper.Execute.Signals.{run_signal, none_or_closed}

-- `val as u128 + time`; the profile `dev` checks the overflow, `release` wraps around.
unfoldable pub add_u128 : Bool → ℕ → ℕ → Outcome Text ℕ
add_u128 overflow_checks v time =
    if ltb (v + time) (2 ^ 128)
    then ok (v + time)
    else if overflow_checks
    then panic
    else ok ((v + time) % 2 ^ 128)

-- The timeout of `Close`: true where the job is dropped because the notification has not expired.
abbrev pub still_running : Env → ℕ → Outcome Text (Option ℕ) → Outcome Text Bool
still_running env time (err e) = ok true
still_running env time panic = panic
still_running env time (ok none) = panic
still_running env time (ok (some v)) = do
  ends ← add_u128 env.overflow_checks v time
  ok (ltb env.system_time ends)

abbrev pub is_expired : NotificationClosed → Bool
is_expired expired = true
is_expired dismissed = false
is_expired call_close_notification = false
is_expired undefined = false

module _ {Hints : Type 0} where
  unfoldable pub not_expired : Env → LogsManager Hints → NotificationEvent Hints → Outcome Text Bool
  not_expired env man ne = elim ne.timeout [
    | pos zero ↦ ok true
    | t ↦ still_running env ne.time (map_timeout man t)
  ]

  -- `self.reason == Expired && auto_close && …`
  unfoldable pub drops :
      Env → LogsManager Hints → NotificationClosed → NotificationEvent Hints → Outcome Text Bool
  drops env man reason ne =
      if is_expired reason && man.logs_config.auto_close then not_expired env man ne else ok false

  -- The notification at `pos` is marked, whatever the bus does then.
  unfoldable pub mark_closed : Server Hints → ℕ → Server Hints
  mark_closed s i = record s {
    man = record s.man { logs_buffer = modify_nth set_closed i s.man.logs_buffer; dirty = true };
  }

  unfoldable pub close_found :
      Env → ℕ → NotificationClosed → Server Hints → ℕ → Bool → Server Hints × FulfilledJob
  close_found env id reason s i true = dropped s
  close_found env id reason s i false =
      run_signal env (codes "Cannot emit 'notification_closed' signal.")
        (notification_closed id (closed_repr reason)) (EventType.close id) (mark_closed s i)

  abbrev pub nth_found :
      List (NotificationEvent Hints) → Option ℕ → Option (NotificationEvent Hints)
  nth_found l none = none
  nth_found l (some i) = get_elem? l i

  unfoldable pub execute_close :
      Env
      → ℕ
      → NotificationClosed
      → Desc
      → Server Hints
      → Outcome Text (Server Hints × FulfilledJob)
  execute_close env id reason desc s =
      let found = position id s.man.logs_buffer in
      let ne = nth_found s.man.logs_buffer found in
      if none_or_closed ne && not (is force desc.flags) then ok (dropped s) else do
        ne' ← unwrap ne
        drop ← drops env s.man reason ne'
        i ← unwrap found
        ok (close_found env id reason s i drop)
