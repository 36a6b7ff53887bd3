-- ===== src/Execute/Bus.antt =====
-- What a job reaches beside the manager (the threads that sleep until a notification expires, and
-- the bus), and what the clock, the runtime and the bus do during one job.
use notifs_piper.Common.{ℕ, Bool, Option, none, List}
use notifs_piper.Text.{Text}
use notifs_piper.Fulfilled.{FulfilledJob, other, value}
use notifs_piper.Manager.{LogsManager}

-- What is outside of the program during one job: the wall clock and the monotonic clock in
-- milliseconds, the error of `build_local` if it fails, and whether the bus answers; and the profile of
-- the build, `overflow_checks`.
pub record Env : Type 0 where
  pub system_time : ℕ
  pub instant : ℕ
  pub runtime_error : Option Text
  pub interface_found : Bool
  pub emits : Bool
  pub overflow_checks : Bool

-- A thread that `Broadcast` has spawned: when it wakes, and what it closes; `snd` is its copy of
-- `notifyer`.
pub record Timer : Type 0 where
  pub wakeup : ℕ
  pub id : ℕ
  pub snd : Bool

pub data Signal : Type 0 where
  notification_closed : ℕ → ℕ → Signal
  action_invoked : ℕ → Text → Signal
  activation_token : ℕ → Text → Signal

pub record Server (Hints : Type 0) : Type 0 where
  pub man : LogsManager Hints
  pub timers : List Timer
  pub emitted : List Signal

module _ {Hints : Type 0} where
  -- A job that does nothing visible.
  abbrev pub dropped : Server Hints → Server Hints × FulfilledJob
  dropped s = (s, record { result = value none; typ = other })
