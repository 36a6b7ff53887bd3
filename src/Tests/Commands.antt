-- ===== src/Tests/Commands.antt =====
-- The theorems of the command line and of the client, for the process 42.
use notifs_piper.Common.{
  ℕ, ◌≡◌, refl, ap, ◌&&◌, Bool, true, false, none, some, [], ◌∷◌, All, ok, panic, arith,
}
use notifs_piper.Text.{codes}
use notifs_piper.Text.Decimal.{to_string}
use notifs_piper.Event.{set_read}
use notifs_piper.Job.{query, read}
use notifs_piper.Job.Wire.{job_desc_to_string, job_to_string, desc_to_string}
use notifs_piper.Transmission.{transmission_to_string, type_to_string}
use notifs_piper.Flags.{is}
use notifs_piper.Execute.{execute}
use notifs_piper.Exec.{Daemon}
use notifs_piper.Listener.{Listener}
use notifs_piper.Socket.{took, write, write_loop}
use notifs_piper.Cli.{
  DaemonArgs, icon_multi, icon_static, capabilities_enumerated, contains, check_options,
  opts_checker, is_icon, capabilities,
}
use notifs_piper.Cli.Options.{capabilities_apart}
use notifs_piper.Client.{Request, Peer, send, read_request}
use notifs_piper.Client.Requests.{IsReceived, send-IsReceived, read_request-panic}
use notifs_piper.Client.Exchange.{round, window_reply, round_read}
use notifs_piper.Tests.Codec.{NoHints, codec, codec-IsLawful}
use notifs_piper.Tests.Values.{server, one, two, three, env, io, daemon, request}

abbrev asking : Request NoHints
asking = record { job = query 2; flags = 0; pid = 42 }

abbrev peer_taking : ℕ → Peer
peer_taking n = record { connect_error = none; writes = took n ∷ took 0 ∷ []; reads = [] }

asking_sent :
    send codec asking (peer_taking 22)
    ≡ record { bytes = codes "inc#42##42#0##query##2"; result = some (ok tt) }
unfolding send write write_loop job_desc_to_string job_to_string desc_to_string
    transmission_to_string type_to_string to_string
asking_sent = refl

send-IsReceived_example : IsReceived codec asking (send codec asking (peer_taking 22)).bytes
send-IsReceived_example =
    send-IsReceived codec-IsLawful asking (peer_taking 22) (omega arith)
      (ap (λ s. s.result) asking_sent)

abbrev pub never : ℕ → Bool
never stream = false

abbrev pub idle : Listener NoHints
idle = record {
  active = [];
  listening = [];
  written = [];
  channel = record { queue = []; signals = 0; manager_up = true };
}

abbrev reading : Request NoHints
reading = record { job = read 1 3; flags = 0; pid = 42 }

reading_sent :
    send codec reading (peer_taking 23)
    ≡ record { bytes = codes "inc#42##42#0##read##1#3"; result = some (ok tt) }
unfolding send write write_loop job_desc_to_string job_to_string desc_to_string
    transmission_to_string type_to_string to_string
reading_sent = refl

-- The window holds the two older notifications, which are marked.
round_read_example :
    (h' : Listener NoHints) × (d' : Daemon NoHints) × (round codec io never 80 81
        (send codec reading (peer_taking 23)).bytes
        idle
        (daemon [])
      ≡ ok (h', d'))
    × (h'.written ≡ window_reply codec 80 42 1 3 d'.server.man.logs_buffer ∷ [])
    × (d'.server.man.logs_buffer ≡ three ∷ set_read two ∷ set_read one ∷ [])
unfolding is
round_read_example =
    round_read codec-IsLawful io never 80 81 idle (daemon []) reading (peer_taking 23) 1 3 refl
      (omega arith) (omega arith) (ground arith) (ap (λ s. s.result) reading_sent) refl refl refl
      refl refl

-- A release build, asked for two notifications behind the first 65535.
read_request-panic_example :
    (r : Request NoHints) × (read_request false 42 2 65535 false ≡ ok r)
    × (execute codec env r.job (request 0) server ≡ panic)
read_request-panic_example =
    read_request-panic codec env (request 0) server 42 2 65535 false (omega arith) (omega arith)
      (omega arith) (omega arith)

abbrev some_options : DaemonArgs
some_options = record {
  logs_file = none;
  max = 100;
  auto_close = false;
  options = codes "body" ∷ icon_multi ∷ [];
  all = false;
  timeout = 5000;
}

options_pass : check_options false some_options.options ≡ ok some_options.options
unfolding check_options opts_checker is_icon contains
options_pass = refl

capabilities_apart_example :
    All (λ v. contains capabilities_enumerated v ≡ true) (capabilities some_options)
    × ((contains (capabilities some_options) icon_static
          && contains (capabilities some_options) icon_multi)
        ≡ false)
capabilities_apart_example = capabilities_apart some_options some_options.options options_pass
