-- ===== src/Tests/Watching.antt =====
-- A client of process 42 that watches while two notifications come.
use notifs_piper.Common.{
  ℕ, ◌≡◌, refl, ap, false, Option, none, some, List, [], ◌∷◌, ◌++◌, map, ok, err, arith,
}
use notifs_piper.Text.{Text, codes}
use notifs_piper.Event.{NotificationEvent}
use notifs_piper.Transmission.{transmission_to_string, type_to_string}
use notifs_piper.Text.Decimal.{to_string}
use notifs_piper.Job.Wire.{job_desc_to_string, job_to_string, desc_to_string}
use notifs_piper.Flags.{join}
use notifs_piper.Exec.Answering.{answered}
use notifs_piper.Socket
use notifs_piper.Socket.{read_loop, parsed_data, ReadEvent, got, took, write, write_loop, Sending}
use notifs_piper.Cli.{Sub}
use notifs_piper.Listener.{Listener}
use notifs_piper.Listener.Order.Maps.{on}
use notifs_piper.Client.{Peer, send, watch_request, joined, interrupted, run_command}
use notifs_piper.Client.Runs.{given}
use notifs_piper.Client.Watching.{broadcast_text, heard, relay}
use notifs_piper.Client.Watching.Printing.{watch-prints}
use notifs_piper.Tests.Codec.{NoHints, codec, codec-IsLawful}
use notifs_piper.Tests.Values.{two, three}
use notifs_piper.Tests.Commands.{never, idle}

abbrev shown : List (ℕ × NotificationEvent NoHints)
shown = (81, two) ∷ (82, three) ∷ []

-- The test of the bytes of a chunk takes all.
abbrev any_text : Text → Option Text
any_text t = none

abbrev peer : Peer
peer = record {
  connect_error = none;
  writes = took 26 ∷ took 0 ∷ [];
  reads =
      (got (broadcast_text codec two) ∷ [])
      ∷ (got (broadcast_text codec three) ∷ [])
      ∷ (ReadEvent.broken (codes "reset") ∷ [])
      ∷ [];
}

request_sent :
    send codec (watch_request 42 false) peer
    ≡ record { bytes = codes "inc#42##42#0##watch##watch"; result = some (ok tt) }
unfolding send write write_loop job_desc_to_string job_to_string desc_to_string
    transmission_to_string type_to_string to_string watch_request joined join
request_sent = refl

broadcasts_read :
    given any_text peer.reads
    ≡ map (λ x. some (parsed_data (ok (broadcast_text codec x.1)))) shown
      ++ some (err (codes "reset")) ∷ []
unfolding Socket.read read_loop transmission_to_string type_to_string to_string
broadcasts_read = refl

watch-prints_example :
    (h1 h2 : Listener NoHints) × (heard codec never 80
        (send codec (watch_request 42 false) peer).bytes
        idle
      ≡ ok h1)
    × (relay codec never shown h1 ≡ ok h2)
    × (on 80 h2.written ≡ broadcast_text codec two ∷ broadcast_text codec three ∷ [])
    × (run_command codec any_text peer false 42 (Sub.watch false)
        ≡ some (record {
          sent = (send codec (watch_request 42 false) peer).bytes;
          printed =
              answered (codec.event_to_string two) ∷ answered (codec.event_to_string three) ∷ [];
          result = some (err interrupted);
        }))
watch-prints_example =
    watch-prints codec-IsLawful never 80 idle any_text peer 42 false false shown (codes "reset") []
      (omega arith) (ap (λ s. s.result) request_sent) (tt, tt) refl tt refl refl broadcasts_read
