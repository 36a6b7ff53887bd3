-- ===== src/Client/Dismissing.antt =====
-- `notifs-piper signal <id> closed`, and what the clients that query the notification are told then.
pub mod Serving
pub mod Told
use notifs_piper.Common.{ℕ, ◌≡◌, Bool, true, false, none, ◌++◌}
use notifs_piper.Text.{Text, codes}
use notifs_piper.Fulfilled.{EventType, event_to_string}
use notifs_piper.Transmission.{outgoing, transmission_to_string}
use notifs_piper.Execute.Bus.{Env, Server}
use notifs_piper.Exec.Answering.{answered}
use notifs_piper.Cli.{SignalKind}
use notifs_piper.Client.{Request, signal_request}
use notifs_piper.Client.Crowd.{Asker}

-- The request of `signal <id> closed`, with or without `--force`.
abbrev pub dismissal : {Hints : Type 0} → ℕ → ℕ → Bool → Request Hints
dismissal process_id id forced = signal_request process_id id forced (SignalKind.closed false)

-- The bus takes the signal.
abbrev pub Emits : {Hints : Type 0} → Env → Server Hints → Type 0
Emits env s =
    (env.runtime_error ≡ none)
    × (s.man.interface ≡ true)
    × (env.interface_found ≡ true)
    × (env.emits ≡ true)

-- What the watching processes are told of a close.
abbrev pub close_text : ℕ → Text
close_text id =
    transmission_to_string
      (record { typ = outgoing 0; data_text = codes "ev#" ++ event_to_string (EventType.close id) })

-- The answer that the notification is closed.
abbrev pub told : Asker → Text
told a =
    transmission_to_string (record { typ = outgoing a.pid; data_text = answered (codes "true") })
