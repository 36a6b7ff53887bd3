-- ===== src/Tests/Daemon.antt =====
-- The theorems of `exec`, of a start, of the bus and of the threads on concrete states.
use notifs_piper.Common.{◌≡◌, ◌≢◌, refl, true, false, some, [], ◌∷◌, ◌++◌, ok, arith}
use notifs_piper.Text.{codes}
use notifs_piper.Text.Decimal.{to_string}
use notifs_piper.Job.{JobDesc, broadcast}
use notifs_piper.Fulfilled.{FulfilledJob, fulfilled_to_string}
use notifs_piper.Transmission.{from_fulfilled, transmission_to_string, type_to_string}
use notifs_piper.Manager.{append_notification, map_timeout}
use notifs_piper.Execute.Bus.{Server}
use notifs_piper.Execute.Broadcast.{execute_broadcast, replace, spawn, spawn_timer}
use notifs_piper.Execute.{execute}
use notifs_piper.Exec.{executed, noop, Daemon, persist, reply, run_job, exec}
use notifs_piper.Exec.Replies.{IsSent, exec-IsSent}
use notifs_piper.Startup.{initial, new}
use notifs_piper.Startup.Recovery.{moved_away, new_backup}
use notifs_piper.Dbus.{Notifications, internal, notify}
use notifs_piper.Dbus.Ids.{queued, notify_overflow, notify_gives_twice}
use notifs_piper.Server.{State, Reach, here, next, push, send, receive, run, started}
use notifs_piper.Server.Signals.{started_never_noop}
use notifs_piper.Tests.Codec.{NoHints, codec}
use notifs_piper.Tests.Values.{
  two, three, four, three_logs, env, io, server, daemon, call, bus, broken_file,
}

abbrev arrived : JobDesc NoHints
arrived = internal (broadcast four)

-- The notification was sent to process 0: to all that watch.
abbrev after_four : Daemon NoHints
after_four = record {
  server = record server {
    man = record three_logs { logs_buffer = four ∷ three ∷ two ∷ [] };
    timers = record { wakeup = 1007; id = 4; snd = true } ∷ [];
  };
  queue = [];
  logs_file = some (codec.logs_to_string (four ∷ three ∷ two ∷ []));
  sent = (codes "out#0##res#" ++ codec.event_to_string four) ∷ [];
}

ran_four : exec codec io (daemon (arrived ∷ [])) ≡ ok (after_four, executed)
unfolding exec run_job persist reply execute execute_broadcast replace spawn spawn_timer
    append_notification map_timeout from_fulfilled fulfilled_to_string transmission_to_string
    type_to_string to_string
ran_four = refl

abbrev saved_before : Daemon NoHints
saved_before = record (daemon (arrived ∷ [])) {
  logs_file = some (codec.logs_to_string three_logs.logs_buffer);
}

ran_saved : exec codec io saved_before ≡ ok (after_four, executed)
unfolding exec run_job persist reply execute execute_broadcast replace spawn spawn_timer
    append_notification map_timeout from_fulfilled fulfilled_to_string transmission_to_string
    type_to_string to_string
ran_saved = refl

exec-IsSent_example :
    (s : Server NoHints) × (fj : FulfilledJob) × (execute codec env
        (broadcast four)
        arrived.desc
        server
      ≡ ok (s, fj))
    × (after_four.server ≡ record s { man = record s.man { dirty = after_four.server.man.dirty } })
    × (after_four.queue ≡ [])
    × IsSent 0 fj [] after_four.sent
exec-IsSent_example =
    exec-IsSent codec io (daemon (arrived ∷ [])) after_four executed arrived [] refl (omega arith)
      ran_four

new_backup_example :
    new codec (codes "s") (codes "l") three_logs.logs_config (broken_file (codes "{"))
    ≡ ok (
      initial (codes "s") (codes "l") three_logs.logs_config [],
      moved_away (broken_file (codes "{")) (codes "{"),
    )
new_backup_example =
    new_backup codec (codes "s") (codes "l") three_logs.logs_config (broken_file (codes "{"))
      (codes "{") (codes "bad json") refl refl refl

-- A release build.
notify_overflow_example :
    notify false 700 (call 0) (bus 4294967295)
    ≡ ok (queued false 700 (call 0) (bus 4294967295) 0 0, 0)
notify_overflow_example =
    notify_overflow false 700 (call 0) (bus 4294967295) refl (omega arith) refl

notify_gives_twice_example :
    (n' n'' : Notifications NoHints) × (notify true 700 (call 4) (bus 3) ≡ ok (n', 4))
    × (notify true 800 (call 0) n' ≡ ok (n'', 4))
notify_gives_twice_example =
    notify_gives_twice true 700 800 (call 4) (call 0) (bus 3) refl refl (omega arith) refl

abbrev at_work : State NoHints
at_work = record { daemon = daemon (arrived ∷ []); in_flight = 0; signals = 0; received = true }

works : Reach codec (started (daemon [])) at_work
works = next (next (next here (push arrived refl)) (send 0 refl refl)) (receive 0 refl refl refl)

-- One notification has come in, and its signal was received.
started_never_noop_example : exec codec io (daemon (arrived ∷ [])) ≢ ok (after_four, noop)
started_never_noop_example = started_never_noop codec io (daemon []) after_four at_work works refl

abbrev before_four : State NoHints
before_four = record { daemon = saved_before; in_flight = 0; signals = 1; received = false }

abbrev behind_four : State NoHints
behind_four = record { daemon = after_four; in_flight = 0; signals = 0; received = false }

worked : Reach codec before_four behind_four
worked =
    next (next here (receive 0 refl refl refl)) (run io after_four executed refl ran_saved refl)
