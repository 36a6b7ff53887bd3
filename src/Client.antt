-- ===== src/Client.antt =====
-- main.rs: what each command asks of the daemon, and what it does on its connection.
pub mod Requests
pub mod Runs
pub mod Exchange
pub mod Watching
pub mod Crowd
pub mod Dismissing
use notifs_piper.Common.{
  ℕ, ◌+◌, ◌%◌, ◌^◌, Bool, true, false, Option, none, some, List, [], ◌∷◌, ◌++◌, Outcome, ok, err,
  panic, ◌>>=◌, ltb, if◌then◌else◌,
}
use notifs_piper.Text.{Text, codes}
use notifs_piper.Cli.{SignalKind, DaemonArgs, Sub}
use notifs_piper.Flags.{Flags, none_flag, silent, force, repr, join}
use notifs_piper.Event.{Serde}
use notifs_piper.Job.{
  Job, JobDesc, close, dismissed, query, read, action_invoked, activation_token, watch,
}
use notifs_piper.Job.Wire.{job_desc_to_string}
use notifs_piper.Payload.{PayloadError}
use notifs_piper.Server.Boot.{ServerConfig}
use notifs_piper.Transmission.{Transmission, incoming}
use notifs_piper.Socket
use notifs_piper.Socket.{ReadEvent, WriteEvent, Sending, ended}

-- What a command asks of the daemon: `send!` with its job, its flags and its pid.
pub record Request (Hints : Type 0) : Type 0 where
  pub job : Job Hints
  pub flags : ℕ
  pub pid : ℕ

abbrev join_all : ℕ → List Flags → ℕ
join_all flags [] = flags
join_all flags (f ∷ fs) = join_all (join flags f) fs

-- `flags = Flags::join(flags, $flags)` for each flag given, from `Flags::NONE`.
unfoldable pub joined : List Flags → ℕ
joined fs = join_all (repr none_flag) fs

-- `skip + count` on `u16`; the profile `dev` checks the overflow, `release` wraps around.
unfoldable pub add_u16 : Bool → ℕ → ℕ → Outcome Text ℕ
add_u16 overflow_checks skip count =
    if ltb (skip + count) (2 ^ 16)
    then ok (skip + count)
    else if overflow_checks
    then panic
    else ok ((skip + count) % 2 ^ 16)

module _ {Hints : Type 0} where
  abbrev signal_job : ℕ → SignalKind → Job Hints
  signal_job id (SignalKind.closed asks) = close id dismissed
  signal_job id (SignalKind.action_invoked action) = action_invoked id action
  signal_job id (SignalKind.activation_token token) = activation_token id token

  abbrev forced_request : ℕ → Bool → SignalKind → Request Hints
  forced_request id forced kind = record {
    job = signal_job id kind;
    flags = joined ((if forced then force else none_flag) ∷ []);
    pid = 0;
  }

  unfoldable pub signal_request : ℕ → ℕ → Bool → SignalKind → Request Hints
  signal_request process_id id forced (SignalKind.closed true) = record {
    job = query id;
    flags = joined [];
    pid = process_id;
  }
  signal_request process_id id forced kind = forced_request id forced kind

  unfoldable pub read_request : Bool → ℕ → ℕ → ℕ → Bool → Outcome Text (Request Hints)
  read_request overflow_checks process_id count skip quiet = do
    end ← add_u16 overflow_checks skip count
    ok (record {
      job = read skip end;
      flags = joined ((if quiet then silent else none_flag) ∷ []);
      pid = process_id;
    })

  unfoldable pub watch_request : ℕ → Bool → Request Hints
  watch_request process_id quiet = record {
    job = watch;
    flags = joined ((if quiet then silent else none_flag) ∷ []);
    pid = process_id;
  }

-- What a command has done: the bytes that it sent, the lines that it printed, and its result, if it
-- has ended.
pub record Run : Type 0 where
  pub sent : Text
  pub printed : List Text
  pub result : Option (Outcome Text (Unit {0}))

-- The connection: the error of `connect`, and what the system answers to the loops of `write` and,
-- for each call, of `read`.
pub record Peer : Type 0 where
  pub connect_error : Option Text
  pub writes : List WriteEvent
  pub reads : List (List ReadEvent)

module _ {Hints : Type 0} (serde : Serde Hints) where
  abbrev described : Request Hints → JobDesc Hints
  described r = record { cmd = r.job; desc = record { pid = r.pid; flags = r.flags } }

  abbrev written : Request Hints → List WriteEvent → Outcome PayloadError Text → Sending
  written r ws (ok text) = Socket.write (record { typ = incoming r.pid; data_text = text }) ws
  written r ws (err e) = ended panic
  written r ws panic = ended panic

  -- `send!`: the connection, then the request. A job that cannot be printed panics.
  unfoldable pub send : Request Hints → Peer → Sending
  send r peer = elim peer.connect_error [
    | some e ↦ ended (err e)
    | none ↦ written r peer.writes (job_desc_to_string serde (described r))
  ]

abbrev ended_with : Sending → Run
ended_with s = record { sent = s.bytes; printed = []; result = s.result }

abbrev print_one : Text → Option (Outcome Text Transmission) → Run
print_one sent none = record { sent = sent; printed = []; result = none }
print_one sent (some (ok tr)) = record {
  sent = sent;
  printed = tr.data_text ∷ [];
  result = some (ok tt);
}
print_one sent (some (err e)) = record { sent = sent; printed = []; result = some (err e) }
print_one sent (some panic) = record { sent = sent; printed = []; result = some panic }

abbrev pub interrupted : Text
interrupted = codes "The connection to the server was interrupted."

abbrev print_line : Text → Run → Run
print_line line r = record r { printed = line ∷ r.printed }

abbrev print_next : Text → Option (Outcome Text Transmission) → Run → Run
print_next sent none rest = record { sent = sent; printed = []; result = none }
print_next sent (some (ok tr)) rest = print_line tr.data_text rest
print_next sent (some (err e)) rest = record {
  sent = sent;
  printed = [];
  result = some (err interrupted);
}
print_next sent (some panic) rest = record { sent = sent; printed = []; result = some panic }

module _ (utf8_error : Text → Option Text) where
  abbrev first_read : List (List ReadEvent) → Option (Outcome Text Transmission)
  first_read [] = none
  first_read (es ∷ rest) = Socket.read utf8_error es

  -- `while let Ok(trans) = Listener::read(&stream).await`
  unfoldable pub print_all : Text → List (List ReadEvent) → Run
  print_all sent [] = record { sent = sent; printed = []; result = none }
  print_all sent (es ∷ rest) = print_next sent (Socket.read utf8_error es) (print_all sent rest)

-- What follows a request, once it is sent.
abbrev if_sent : Sending → (Text → Run) → Run
if_sent s next = elim s.result [ some (ok _) ↦ next s.bytes | _ ↦ ended_with s ]

-- A request that is computed behind the connection.
abbrev requested :
    {Hints : Type 0} → Peer → Outcome Text (Request Hints) → (Request Hints → Run) → Run
requested peer (ok r) next = next r
requested peer (err e) next = record { sent = []; printed = []; result = some (err e) }
requested peer panic next = elim peer.connect_error [
  | some e ↦ record { sent = []; printed = []; result = some (err e) }
  | none ↦ record { sent = []; printed = []; result = some panic }
]

module _ {Hints : Type 0} (serde : Serde Hints) (utf8_error : Text → Option Text)
    (peer : Peer) where
  -- `send_once_and_print!`
  unfoldable pub send_once_and_print : Request Hints → Run
  send_once_and_print r =
      if_sent (send serde r peer) (λ sent. print_one sent (first_read utf8_error peer.reads))

  abbrev signal_run : ℕ → ℕ → Bool → SignalKind → Run
  signal_run process_id id forced (SignalKind.closed true) =
      send_once_and_print (signal_request process_id id forced (SignalKind.closed true))
  signal_run process_id id forced kind =
      ended_with (send serde (signal_request process_id id forced kind) peer)

  -- The arms of `match parsed.subcommand` that talk to the daemon; `none` is the daemon itself.
  unfoldable pub run_command : Bool → ℕ → Sub → Option Run
  run_command overflow_checks process_id (Sub.daemon args) = none
  run_command overflow_checks process_id (Sub.signal id forced kind) =
      some (signal_run process_id id forced kind)
  run_command overflow_checks process_id (Sub.read count skip quiet) = some (
      requested peer (read_request overflow_checks process_id count skip quiet) send_once_and_print)
  run_command overflow_checks process_id (Sub.watch quiet) = some (
      if_sent (send serde (watch_request process_id quiet) peer)
        (λ sent. print_all utf8_error sent peer.reads))

-- The paths of the process: `XDG_DATA_HOME`, or `HOME` with its default below.
unfoldable pub data_path : Option Text → Option Text → Outcome Text Text
data_path (some xdg) home = ok (xdg ++ codes "/npiper")
data_path none (some home) = ok ((home ++ codes "/.local/share") ++ codes "/npiper")
data_path none none = panic

abbrev config_of : Text → DaemonArgs → Text → ServerConfig
config_of path args logs_path = record {
  listener_path = path ++ codes "/pipe";
  logs_path = logs_path;
  logs_config = record {
    max_logs = args.max;
    auto_close = args.auto_close;
    default_timeout = args.timeout;
  };
}

-- The arm of the daemon, up to `server::start`: whether the data directory can be made, and which
-- paths are files.
unfoldable pub daemon_config : Bool → (Text → Bool) → Text → DaemonArgs → Outcome Text ServerConfig
daemon_config makes_dir is_file path args =
    if makes_dir
    then (elim args.logs_file [
      | none ↦ ok (config_of path args (path ++ codes "/logs.json"))
      | some file ↦
          if is_file file
          then ok (config_of path args file)
          else err (codes "'logs-file' is not a valid file.")
    ])
    else panic
