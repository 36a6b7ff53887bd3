-- ===== src/Server.antt =====
-- The threads of server/mod.rs as a step relation: producers (the bus, the listener's tasks, the
-- timers) push a job under the lock and then send a signal; the manager's thread receives a signal
-- and then runs `exec`. Pushing and sending are separate steps, since other threads may come
-- between. A call of `exec` that fails or panics ends the manager's thread, so no step follows from
-- it.
pub mod Signals
pub mod Safety
pub mod Session
pub mod Boot
pub mod Expiry
pub mod Announcing
pub mod History
pub mod Draining
pub mod Restart
use notifs_piper.Common.{
  ℕ, zero, suc, ◌+◌, ◌≤◌, ◌≡◌, Bool, true, false, List, [], ◌∷◌, ◌++◌, ok, if◌then◌else◌,
}
use notifs_piper.Text.{Text}
use notifs_piper.Event.{Serde}
use notifs_piper.Job.{JobDesc, close, expired}
use notifs_piper.Execute.Bus.{Timer}
use notifs_piper.Exec.{ExecState, Io, Daemon, exec}
use notifs_piper.Dbus.{internal}

pub record State (Hints : Type 0) : Type 0 where
  pub daemon : Daemon Hints
  -- producers that have pushed a job and not yet sent their signal
  pub in_flight : ℕ
  -- signals in the channel
  pub signals : ℕ
  -- whether the manager has received a signal and not yet run `exec`
  pub received : Bool

module _ {Hints : Type 0} where
  abbrev pub pushed : JobDesc Hints → Daemon Hints → Daemon Hints
  pushed jd d = record d { queue = d.queue ++ jd ∷ [] }

  -- The timers without the one that has woken.
  abbrev pub with_timers : List Timer → Daemon Hints → Daemon Hints
  with_timers timers d = record d { server = record d.server { timers = timers } }

-- `Step` holds what one thread may do next. A timer wakes at its time or later, and sends a signal
-- only if it has a copy of `notifyer`.
pub data Step {Hints : Type 0} (serde : Serde Hints) (s t : State Hints) : Type 0 where
  push :
      (jd : JobDesc Hints)
      → t ≡ record s { daemon = pushed jd s.daemon; in_flight = s.in_flight + 1 }
      → Step serde s t
  wake :
      (before after : List Timer) (timer : Timer) (now : ℕ)
      → s.daemon.server.timers ≡ before ++ timer ∷ after
      → timer.wakeup ≤ now
      → t ≡ record s {
        daemon =
            with_timers (before ++ after) (pushed (internal (close timer.id expired)) s.daemon);
        in_flight = s.in_flight + (if timer.snd then 1 else 0);
      }
      → Step serde s t
  send :
      (n : ℕ)
      → s.in_flight ≡ suc n
      → t ≡ record s { in_flight = n; signals = s.signals + 1 }
      → Step serde s t
  receive :
      (n : ℕ)
      → s.signals ≡ suc n
      → s.received ≡ false
      → t ≡ record s { signals = n; received = true }
      → Step serde s t
  run :
      (io : Io) (d : Daemon Hints) (st : ExecState)
      → s.received ≡ true
      → exec serde io s.daemon ≡ ok (d, st)
      → t ≡ record s { daemon = d; received = false }
      → Step serde s t

pub data Reach {Hints : Type 0} (serde : Serde Hints) (s : State Hints) : State Hints → Type 0 where
  here : Reach serde s s
  next : {t u : State Hints} → Reach serde s t → Step serde t u → Reach serde s u

-- The threads before any job: `start`, after the manager was made.
abbrev pub started : {Hints : Type 0} → Daemon Hints → State Hints
started d = record {
  daemon = record d { queue = [] };
  in_flight = 0;
  signals = 0;
  received = false;
}
