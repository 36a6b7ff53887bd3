-- ===== src/Server/Session.antt =====
-- The threads of server/mod.rs with the counter of the bus interface: `notify` (server/dbus.rs)
-- chooses an id and pushes its job. Its signal is a step of its own, as that of any other producer.
pub mod Seen
pub mod Stored
pub mod Distinct
use notifs_piper.Common.{ℕ, ◌+◌, ◌≤◌, ◌<◌, ◌^◌, ◌≡◌, Bool, ok}
use notifs_piper.Event.{Serde}
use notifs_piper.Job.{broadcast}
use notifs_piper.Execute.Later.{IsBroadcast}
use notifs_piper.Dbus.{NotifyCall, choose_id, made, internal, max_id}
use notifs_piper.Exec.{Daemon}
use notifs_piper.Server.{State, Step, push, pushed, started}

pub record Session (Hints : Type 0) : Type 0 where
  pub counter : ℕ
  pub state : State Hints

abbrev pub notified :
    {Hints : Type 0} → ℕ → NotifyCall Hints → ℕ → ℕ → Session Hints → Session Hints
notified time call id counter s = record {
  counter = counter;
  state = record s.state {
    daemon = pushed (internal (broadcast (made call time id))) s.state.daemon;
    in_flight = s.state.in_flight + 1;
  };
}

-- What may happen next: a call of `notify`, or a step of another thread.
pub data Move {Hints : Type 0} (serde : Serde Hints) (s t : Session Hints) : Type 0 where
  announce :
      (overflow_checks : Bool) (time : ℕ) (call : NotifyCall Hints) (id counter : ℕ)
      → choose_id overflow_checks call.replaces_id s.counter ≡ ok (id, counter)
      → t ≡ notified time call id counter s
      → Move serde s t
  other : (u : State Hints) → Step serde s.state u → t ≡ record s { state = u } → Move serde s t

pub data Moves {Hints : Type 0} (serde : Serde Hints) (s : Session Hints)
    : Session Hints → Type 0 where
  here : Moves serde s s
  next : {t u : Session Hints} → Moves serde s t → Move serde t u → Moves serde s u

-- The session before any call, with the counter that `start` gives to `Notifications::new`.
abbrev pub begun : {Hints : Type 0} → Daemon Hints → Session Hints
begun d = record { counter = max_id d.server.man.logs_buffer; state = started d }

module _ {Hints : Type 0} {serde : Serde Hints} where
  -- A step other than a call of `notify` that queues no broadcast.
  abbrev pub IsPlain : {s t : State Hints} → Step serde s t → Type 0
  IsPlain (push jd e) = ¬ IsBroadcast jd.cmd
  IsPlain _ = Unit {0}

  -- The clients of the bus replace only ids that the counter has reached, and the counter stays
  -- below its greatest value; no producer beside `notify` queues a broadcast.
  abbrev pub IsTame : {s t : Session Hints} → Move serde s t → Type 0
  IsTame {s} (announce overflow_checks time call id counter e e') =
      (call.replaces_id ≤ s.counter) × (s.counter + 1 < 2 ^ 32)
  IsTame (other u step e) = IsPlain step

  abbrev pub AllTame : {s t : Session Hints} → Moves serde s t → Type 0
  AllTame here = Unit
  AllTame (next moves move) = AllTame moves × IsTame move
