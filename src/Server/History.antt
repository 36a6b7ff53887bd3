-- ===== src/Server/History.antt =====
-- The daemon as a serial server: the jobs in the order in which the producers have pushed them, and
-- a machine that serves one after the other on the store of notifications.
pub mod Serving
pub mod Serial
use notifs_piper.Common.{ℕ, ◌≡◌, ◌<◌, Bool, true, false, length, List, [], ◌∷◌, ◌++◌, if◌then◌else◌}
use notifs_piper.Text.{Text}
use notifs_piper.Event.{NotificationEvent, Serde}
use notifs_piper.Job.{JobDesc, broadcast, close, expired}
use notifs_piper.Fulfilled.{FulfilledJob}
use notifs_piper.Transmission.{from_fulfilled, transmission_to_string}
use notifs_piper.Manager.Store.{Store}
use notifs_piper.Manager.{LogsConfig, find}
use notifs_piper.Execute.Bus.{Signal}
use notifs_piper.Execute.Spec.{Becomes, Answers, takes_signals}
use notifs_piper.Exec.{Daemon, is_value_none}
use notifs_piper.Dbus.{made, internal}
use notifs_piper.Server.{State, Step, push, wake, run}
use notifs_piper.Server.Session.{Session, Move, announce, other, Moves, here, next}

-- What is seen of the daemon: what is stored, what it has sent, and what it has given to the bus.
pub record Visible (Hints : Type 0) : Type 0 where
  pub logs : List (NotificationEvent Hints)
  pub sent : List Text
  pub emitted : List Signal

abbrev pub visible : {Hints : Type 0} → Daemon Hints → Visible Hints
visible d = record { logs = d.server.man.logs_buffer; sent = d.sent; emitted = d.server.emitted }

abbrev pub store_of : {Hints : Type 0} → Visible Hints → Store Hints
store_of v = λ id. find id v.logs

-- What is sent of an answer.
abbrev pub texts_of : ℕ → FulfilledJob → List Text
texts_of pid fj =
    if is_value_none fj.result then [] else transmission_to_string (from_fulfilled fj pid) ∷ []

module _ {Hints : Type 0} (serde : Serde Hints) (config : LogsConfig) where
  -- One job is served, where `bus` tells whether the bus takes its signals: the store changes as the
  -- job may change it, and its answer is sent behind the others. No notification has to go while
  -- there is room for another.
  pub record Served (bus : Bool) (jd : JobDesc Hints) (v v' : Visible Hints) : Type 0 where
    pub full : Bool
    pub answer : FulfilledJob
    pub room : length v.logs < config.max_logs → full ≡ false
    pub changes : Becomes full config.auto_close jd.cmd (store_of v) (store_of v')
    pub answers :
        Answers serde bus config.auto_close jd.cmd jd.desc v.logs v'.logs v.emitted v'.emitted
          answer
    pub sends : v'.sent ≡ v.sent ++ texts_of jd.desc.pid answer

  -- The jobs of a list are served in its order; the second list tells for each whether the bus takes
  -- its signals.
  pub data Serves (v : Visible Hints)
      : List (JobDesc Hints) → List Bool → Visible Hints → Type 0 where
    idle : Serves v [] [] v
    serve :
        {jobs : List (JobDesc Hints)} {buses : List Bool} {w x : Visible Hints} (jd : JobDesc Hints)
        (bus : Bool)
        → Serves v jobs buses w
        → Served bus jd w x
        → Serves v (jobs ++ jd ∷ []) (buses ++ bus ∷ []) x

abbrev pub first_of : {Hints : Type 0} → List (JobDesc Hints) → List (JobDesc Hints)
first_of [] = []
first_of (jd ∷ rest) = jd ∷ []

abbrev pub bus_of : {Hints : Type 0} → Bool → List (JobDesc Hints) → List Bool
bus_of bus [] = []
bus_of bus (jd ∷ rest) = bus ∷ []

module _ {Hints : Type 0} {serde : Serde Hints} where
  -- The job that a step pushes.
  abbrev pub pushes : {s t : State Hints} → Step serde s t → List (JobDesc Hints)
  pushes (push jd e) = jd ∷ []
  pushes (wake before after timer now e w e') = internal (close timer.id expired) ∷ []
  pushes _ = []

  -- The job that a step executes.
  abbrev pub executes : {s t : State Hints} → Step serde s t → List (JobDesc Hints)
  executes {s} (run io d st r h e) = first_of s.daemon.queue
  executes _ = []

  -- Whether the bus takes signals during that job.
  abbrev pub bus_at : {s t : State Hints} → Step serde s t → List Bool
  bus_at {s} (run io d st r h e) = bus_of (takes_signals io.env true) s.daemon.queue
  bus_at _ = []

  abbrev pub pushed_by : {s t : Session Hints} → Move serde s t → List (JobDesc Hints)
  pushed_by (announce overflow_checks time call id counter e e') =
      internal (broadcast (made call time id)) ∷ []
  pushed_by (other u step e) = pushes step

  abbrev pub executed_by : {s t : Session Hints} → Move serde s t → List (JobDesc Hints)
  executed_by (announce overflow_checks time call id counter e e') = []
  executed_by (other u step e) = executes step

  abbrev pub bus_during : {s t : Session Hints} → Move serde s t → List Bool
  bus_during (announce overflow_checks time call id counter e e') = []
  bus_during (other u step e) = bus_at step

  -- The jobs of a run in the order in which they were pushed, and in that in which they were
  -- executed.
  abbrev pub all_pushed : {s t : Session Hints} → Moves serde s t → List (JobDesc Hints)
  all_pushed here = []
  all_pushed (next moves move) = all_pushed moves ++ pushed_by move

  abbrev pub all_executed : {s t : Session Hints} → Moves serde s t → List (JobDesc Hints)
  all_executed here = []
  all_executed (next moves move) = all_executed moves ++ executed_by move

  abbrev pub all_buses : {s t : Session Hints} → Moves serde s t → List Bool
  all_buses here = []
  all_buses (next moves move) = all_buses moves ++ bus_during move
