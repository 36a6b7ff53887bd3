-- ===== src/Tests/Values.antt =====
-- Notifications, managers and daemons for the tests.
use mathlib.Core.List.{Nodup, Nodup-nil, Nodup-cons, Mem, eq-or-mem_of_mem-cons, not-mem-nil}
use mathlib.Core.HLevel.{⊥_prop}
use mathlib.Core.Logic.Or
use notifs_piper.Common.{ℕ, ◌≢◌, All, arith, Bool, true, false, none, some, List, [], ◌∷◌}
use notifs_piper.Common.Int.{pos, negsuc}
use notifs_piper.Text.{Text, codes}
use notifs_piper.Job.{Desc, JobDesc, Job}
use notifs_piper.Manager.{LogsManager}
use notifs_piper.Execute.Bus.{Env, Server}
use notifs_piper.Exec.{Io, Daemon}
use notifs_piper.Dbus.{NotifyCall, Notifications}
use notifs_piper.Startup.{Files}
use notifs_piper.Manager.Removal.{ids}
use notifs_piper.Tests.Codec.{NoHints, Event}

-- A notification that stays for a second.
abbrev pub event_of : ℕ → ℕ → Bool → Event
event_of id replaces_id closed = record {
  id = id;
  time = 500;
  read = false;
  closed = closed;
  app_name = codes "mail";
  replaces_id = replaces_id;
  app_icon = [];
  summary = codes "new #1";
  body = codes "a##b";
  actions = codes "open" ∷ [];
  hints = tt;
  timeout = pos 1000;
}

abbrev pub one : Event
one = event_of 1 0 false

abbrev pub two : Event
two = event_of 2 0 true

abbrev pub three : Event
three = event_of 3 0 false

abbrev pub four : Event
four = event_of 4 0 false

-- A notification that replaces the second one.
abbrev pub again : Event
again = event_of 2 2 false

abbrev pub manager : ℕ → List Event → LogsManager NoHints
manager most l = record {
  listener_path = codes "/tmp/s.sock";
  logs_path = codes "/tmp/logs";
  logs_buffer = l;
  logs_config = record { max_logs = most; auto_close = true; default_timeout = 5000 };
  dirty = false;
  interface = true;
  notifyer = true;
}

abbrev pub three_logs : LogsManager NoHints
three_logs = manager 3 (three ∷ two ∷ one ∷ [])

abbrev pub server : Server NoHints
server = record { man = three_logs; timers = []; emitted = [] }

-- The wall clock stands behind the expiry of the notifications.
abbrev pub env : Env
env = record {
  system_time = 2000;
  instant = 7;
  runtime_error = none;
  interface_found = true;
  emits = true;
  overflow_checks = true;
}

-- The bus does not answer.
abbrev pub silent_bus : Env
silent_bus = record env { emits = false }

abbrev pub io : Io
io = record { env = env; write_error = none; socket_error = none }

-- A request of the process 42.
abbrev pub request : ℕ → Desc
request flags = record { pid = 42; flags = flags }

abbrev pub asks : Job NoHints → JobDesc NoHints
asks job = record { cmd = job; desc = request 0 }

abbrev pub daemon : List (JobDesc NoHints) → Daemon NoHints
daemon queue = record { server = server; queue = queue; logs_file = none; sent = [] }

abbrev pub call : ℕ → NotifyCall NoHints
call replaces_id = record {
  app_name = codes "mail";
  replaces_id = replaces_id;
  app_icon = [];
  summary = codes "hello";
  body = [];
  actions = [];
  hints = tt;
  timeout = negsuc 0;
}

abbrev pub bus : ℕ → Notifications NoHints
bus counter = record {
  counter = counter;
  channel = record { queue = []; signals = 0; manager_up = true };
}

abbrev pub broken_file : Text → Files
broken_file t = record {
  logs = some t;
  backup = none;
  read_fails = false;
  rename_fails = false;
  write_fails = false;
}

pub absent : (x : ℕ) (l : List ℕ) → All (λ y. x ≢ y) l → ¬ Mem x l
absent x [] h = not-mem-nil
absent x (y ∷ l) (h, hs) = λ m. Or.elim ⊥_prop (eq-or-mem_of_mem-cons m) h (absent x l hs)

pub distinct : Nodup (ids three_logs.logs_buffer)
distinct = Nodup-cons.1 (
  absent 3 (2 ∷ 1 ∷ []) (omega arith),
  Nodup-cons.1 (absent 2 (1 ∷ []) (omega arith), Nodup-cons.1 (not-mem-nil, Nodup-nil)),
)
