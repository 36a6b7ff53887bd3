-- ===== src/Execute/Broadcast.antt =====
-- server/jobs/broadcast.rs: a new notification replaces an old one, is given a thread that closes
-- it, is stored, and is answered with its JSON.
use notifs_piper.Common.{
  ℕ, zero, suc, ◌+◌, Bool, true, false, ◌&&◌, none, some, Option, List, [], ◌∷◌, ◌++◌, Outcome, ok,
  err, panic, ◌>>=◌, ◌==◌, if◌then◌else◌,
}
use notifs_piper.Common.Int.{ℤ, pos, negsuc}
use notifs_piper.Text.{Text}
use notifs_piper.Event.{NotificationEvent, Serde}
use notifs_piper.Fulfilled.{FulfilledJob, results, value}
use notifs_piper.Manager.{LogsManager, remove_notification, append_notification, map_timeout}
use notifs_piper.Execute.Bus.{Env, Timer, Server}

-- `timeout != 0 && timeout >= -1`
abbrev pub is_timed : ℤ → Bool
is_timed (pos zero) = false
is_timed (pos (suc n)) = true
is_timed (negsuc zero) = true
is_timed (negsuc (suc n)) = false

-- The two `unwrap`s of the timeout.
abbrev pub unwrap_timeout : Outcome Text (Option ℕ) → Outcome Text ℕ
unwrap_timeout (ok (some v)) = ok v
unwrap_timeout (ok none) = panic
unwrap_timeout (err e) = panic
unwrap_timeout panic = panic

module _ {Hints : Type 0} where
  unfoldable pub replace : LogsManager Hints → NotificationEvent Hints → LogsManager Hints
  replace man ne = if ne.replaces_id == 0 then man else (remove_notification man ne.replaces_id).0

  -- The thread that `Broadcast` spawns, if any.
  unfoldable pub spawn_timer :
      Env → LogsManager Hints → NotificationEvent Hints → Outcome Text (List Timer)
  spawn_timer env man ne = do
    v ← unwrap_timeout (map_timeout man ne.timeout)
    ok (record { wakeup = env.instant + v; id = ne.id; snd = man.notifyer } ∷ [])

  unfoldable pub spawn :
      Env → LogsManager Hints → NotificationEvent Hints → Outcome Text (List Timer)
  unfolding spawn_timer
  spawn env man ne =
      if man.logs_config.auto_close && is_timed ne.timeout then spawn_timer env man ne else ok []

module _ {Hints : Type 0} (serde : Serde Hints) where
  unfoldable pub execute_broadcast :
      Env → NotificationEvent Hints → Server Hints → Outcome Text (Server Hints × FulfilledJob)
  execute_broadcast env ne s = do
    let man = replace s.man ne
    spawned ← spawn env man ne
    ok (
      record s { man = append_notification man ne; timers = s.timers ++ spawned },
      record { result = value (some (serde.event_to_string ne)); typ = results },
    )
