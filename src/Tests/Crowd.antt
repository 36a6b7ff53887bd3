-- ===== src/Tests/Crowd.antt =====
-- Two clients that query at once, the processes 42 and 43, also behind a close.
use notifs_piper.Common.{◌≡◌, refl, none, [], ◌∷◌, ok, arith, some, true, false, ◌++◌}
use notifs_piper.Text.Decimal.{to_string}
use notifs_piper.Job.Wire.{job_desc_to_string, job_to_string, desc_to_string}
use notifs_piper.Transmission.{transmission_to_string, type_to_string}
use notifs_piper.Socket.{took, write, write_loop}
use notifs_piper.Exec.{Daemon}
use notifs_piper.Manager.{find}
use notifs_piper.Listener.{Listener}
use notifs_piper.Client.{Peer, send, signal_request, joined}
use notifs_piper.Flags.{join}
use notifs_piper.Execute.Bus.{notification_closed}
use notifs_piper.Client.Dismissing.{dismissal, close_text, told}
use notifs_piper.Client.Dismissing.Told.{dismissal-told}
use notifs_piper.Client.Crowd.{Asker, request_of, reply_to, connections, served}
use notifs_piper.Client.Crowd.Answered.{crowd-answered}
use notifs_piper.Tests.Codec.{NoHints, codec, codec-IsLawful}
use notifs_piper.Tests.Values.{server, io, daemon, three}
use notifs_piper.Tests.Commands.{never, idle}

abbrev peer : Peer
peer = record { connect_error = none; writes = took 22 ∷ took 0 ∷ []; reads = [] }

abbrev first : Asker
first = record { stream = 80; peer = peer; pid = 42; flags = 0; id = 2 }

abbrev second : Asker
second = record { stream = 90; peer = peer; pid = 43; flags = 0; id = 7 }

first_sent : (send codec (request_of first) peer).result ≡ some (ok tt)
unfolding send write write_loop job_desc_to_string job_to_string desc_to_string
    transmission_to_string type_to_string to_string
first_sent = refl

second_sent : (send codec (request_of second) peer).result ≡ some (ok tt)
unfolding send write write_loop job_desc_to_string job_to_string desc_to_string
    transmission_to_string type_to_string to_string
second_sent = refl

-- The second notification is closed, the seventh is not stored.
crowd-answered_example :
    (h' : Listener NoHints) × (d' : Daemon NoHints) × (served codec io never 81
        (connections codec (first ∷ second ∷ []))
        idle
        (daemon [])
      ≡ ok (h', d'))
    × (h'.written
        ≡ (80, reply_to server.man.logs_buffer first)
          ∷ (90, reply_to server.man.logs_buffer second)
          ∷ [])
    × (d'.server.man.logs_buffer ≡ server.man.logs_buffer)
    × (h'.channel.queue ≡ [])
    × (h'.channel.manager_up ≡ true)
crowd-answered_example =
    crowd-answered codec-IsLawful io never 81 (first ∷ second ∷ []) idle (daemon [])
      (
        (omega arith, ground arith, first_sent, refl),
        ((omega arith, ground arith, second_sent, refl), tt),
      )
      ((omega arith, tt), (tt, tt)) refl refl refl refl

-- The process 50 watches; the third notification is open.
abbrev watched : Listener NoHints
watched = record idle { listening = (50, record { stream = 70; flags = 0 }) ∷ [] }

abbrev third : Asker
third = record { stream = 80; peer = peer; pid = 42; flags = 0; id = 3 }

abbrev third_too : Asker
third_too = record { stream = 90; peer = peer; pid = 43; flags = 0; id = 3 }

third_sent : (send codec (request_of third) peer).result ≡ some (ok tt)
unfolding send write write_loop job_desc_to_string job_to_string desc_to_string
    transmission_to_string type_to_string to_string
third_sent = refl

third_too_sent : (send codec (request_of third_too) peer).result ≡ some (ok tt)
unfolding send write write_loop job_desc_to_string job_to_string desc_to_string
    transmission_to_string type_to_string to_string
third_too_sent = refl

abbrev closer : Peer
closer = record { connect_error = none; writes = took 22 ∷ took 0 ∷ []; reads = [] }

close_sent : (send codec (dismissal {Hints = NoHints} 60 3 false) closer).result ≡ some (ok tt)
unfolding send write write_loop job_desc_to_string job_to_string desc_to_string
    transmission_to_string type_to_string to_string signal_request joined join
close_sent = refl

dismissal-told_example :
    (h1 : Listener NoHints) × (d1 : Daemon NoHints) × (h2 : Listener NoHints) × (d2 : Daemon
      NoHints)
    × (served codec io never 81
          ((62, (send codec (dismissal 60 3 false) closer).bytes) ∷ [])
          watched
          (daemon [])
        ≡ ok (h1, d1))
    × (h1.written ≡ (70, close_text 3) ∷ [])
    × (d1.server.emitted ≡ notification_closed 3 2 ∷ [])
    × (served codec io never 81 (connections codec (third ∷ third_too ∷ [])) h1 d1 ≡ ok (h2, d2))
    × (h2.written ≡ h1.written ++ (80, told third) ∷ (90, told third_too) ∷ [])
unfolding find
dismissal-told_example =
    dismissal-told codec-IsLawful io never 81 62 60 3 false closer watched (daemon [])
      (third ∷ third_too ∷ []) three (omega arith) close_sent refl refl (refl, refl, refl, refl)
      (tt, tt) refl refl refl refl
      (
        (omega arith, ground arith, third_sent, refl),
        ((omega arith, ground arith, third_too_sent, refl), tt),
      )
      ((omega arith, tt), (tt, tt)) (refl, (refl, tt))
