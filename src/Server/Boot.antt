-- ===== src/Server/Boot.antt =====
-- `start` of server/mod.rs, up to its threads: the runtimes, the manager with the logs of earlier
-- sessions, the name on the bus, and the socket. Which of these fail is a parameter.
pub mod Starting
use notifs_piper.Common.{
  Bool, true, false, Option, none, some, [], Outcome, ok, err, panic, ◌>>=◌, if◌then◌else◌,
}
use notifs_piper.Text.{Text}
use notifs_piper.Event.{Serde}
use notifs_piper.Manager.{LogsConfig, LogsManager}
use notifs_piper.Startup.{Files, new}
use notifs_piper.Listener.{Listener}
use notifs_piper.Exec.{Daemon}
use notifs_piper.Server.Session.{Session, begun}

pub record ServerConfig : Type 0 where
  pub listener_path : Text
  pub logs_path : Text
  pub logs_config : LogsConfig

-- `fs::remove_file` of the previous socket
pub data Removal : Type 0 where
  removed not_found : Removal
  failed : Text → Removal

pub record Boot : Type 0 where
  pub listener_rt_fails : Bool
  pub dbus_rt_fails : Bool
  pub bus_error : Option Text
  pub removal : Removal
  pub bind_error : Option Text

-- What runs behind `start`: the threads, the maps of the listener, and the files.
pub record Running (Hints : Type 0) : Type 0 where
  pub session : Session Hints
  pub listener : Listener Hints
  pub files : Files

-- The maps and the channel of `Listener::new`.
abbrev pub quiet : {Hints : Type 0} → Listener Hints
quiet = record {
  active = [];
  listening = [];
  written = [];
  channel = record { queue = []; signals = 0; manager_up = true };
}

-- `expect` and `unwrap`
abbrev pub expect : Bool → Outcome Text (Unit {0})
expect fails = if fails then panic else ok tt

-- `?`
abbrev pub propagated : Option Text → Outcome Text (Unit {0})
propagated none = ok tt
propagated (some e) = err e

abbrev pub socket_removed : Removal → Outcome Text (Unit {0})
socket_removed removed = ok tt
socket_removed not_found = ok tt
socket_removed (failed e) = panic

-- The task of `listen`, whose `unwrap` ends it where the socket cannot be bound; `start` is then
-- past what it takes for unreachable.
abbrev pub bound : Option Text → Outcome Text (Unit {0})
bound none = ok tt
bound (some e) = panic

abbrev pub booted : {Hints : Type 0} → LogsManager Hints → Files → Daemon Hints
booted man f = record {
  server = record { man = man; timers = []; emitted = [] };
  queue = [];
  logs_file = f.logs;
  sent = [];
}

unfoldable pub start :
    {Hints : Type 0} → Serde Hints → Boot → ServerConfig → Files → Outcome Text (Running Hints)
start serde boot config f = do
  _ ← expect boot.listener_rt_fails
  _ ← expect boot.dbus_rt_fails
  (man, f') ← new serde config.listener_path config.logs_path config.logs_config f
  _ ← propagated boot.bus_error
  _ ← socket_removed boot.removal
  _ ← bound boot.bind_error
  ok (record {
    session = begun (booted (record man { notifyer = true; interface = true }) f');
    listener = quiet;
    files = f';
  })
