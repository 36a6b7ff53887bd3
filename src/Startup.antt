-- ===== src/Startup.antt =====
-- `LogsManager::new` of server/manager.rs: the logs of earlier sessions are read at the start.
pub mod Recovery
use notifs_piper.Common.{
  Bool, true, false, Option, none, some, List, [], Outcome, ok, err, panic, ◌>>=◌, if◌then◌else◌,
}
use notifs_piper.Text.{Text, codes}
use notifs_piper.Event.{NotificationEvent, Serde}
use notifs_piper.Manager.{LogsConfig, LogsManager}

pub data ReadPathError : Type 0 where
  not_found unreadable : ReadPathError

pub data LogsDbError : Type 0 where
  read_path_error : ReadPathError → LogsDbError
  parse_error : Text → LogsDbError

-- The files at `logs_path` and at `logs_path.backup`, and which operations on them fail.
pub record Files : Type 0 where
  pub logs : Option Text
  pub backup : Option Text
  pub read_fails : Bool
  pub rename_fails : Bool
  pub write_fails : Bool

-- `fs::read_to_string`
abbrev pub read_to_string : Files → Outcome ReadPathError Text
read_to_string f =
    if f.read_fails then err unreadable else (elim f.logs [ none ↦ err not_found | some t ↦ ok t ])

module _ {Hints : Type 0} (serde : Serde Hints) where
  abbrev parsed :
      Outcome Text (List (NotificationEvent Hints))
      → Outcome LogsDbError (List (NotificationEvent Hints))
  parsed (ok l) = ok l
  parsed (err e) = err (parse_error e)
  parsed panic = panic

  abbrev parse_text :
      Outcome ReadPathError Text → Outcome LogsDbError (List (NotificationEvent Hints))
  parse_text (ok t) = parsed (serde.logs_from_str t)
  parse_text (err e) = err (read_path_error e)
  parse_text panic = panic

  unfoldable pub parse_logs : Files → Outcome LogsDbError (List (NotificationEvent Hints))
  parse_logs f = parse_text (read_to_string f)

  -- A file that cannot be parsed is moved away, and an empty list is written in its place.
  abbrev pub move_away : Files → Outcome Text Files
  move_away f =
      if f.rename_fails
      then panic
      else if f.write_fails
      then panic
      else ok (record f { logs = some (codes "[]"); backup = f.logs })

  abbrev recovered :
      Files
      → Outcome LogsDbError (List (NotificationEvent Hints))
      → Outcome Text (List (NotificationEvent Hints) × Files)
  recovered f (ok l) = ok (l, f)
  recovered f (err (read_path_error e)) = ok ([], f)
  recovered f (err (parse_error e)) = do f' ← move_away f; ok ([], f')
  recovered f panic = panic

abbrev pub initial :
    {Hints : Type 0} → Text → Text → LogsConfig → List (NotificationEvent Hints) → LogsManager Hints
initial listener_path logs_path logs_config buffer = record {
  listener_path = listener_path;
  logs_path = logs_path;
  logs_buffer = buffer;
  logs_config = logs_config;
  dirty = false;
  interface = false;
  notifyer = false;
}

module _ {Hints : Type 0} (serde : Serde Hints) where
  unfoldable pub new : Text → Text → LogsConfig → Files → Outcome Text (LogsManager Hints × Files)
  unfolding parse_logs
  new listener_path logs_path logs_config f = do
    (buffer, f') ← recovered serde f (parse_logs serde f)
    ok (initial listener_path logs_path logs_config buffer, f')
