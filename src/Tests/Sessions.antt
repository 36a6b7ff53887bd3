-- ===== src/Tests/Sessions.antt =====
-- The theorems of `start`, of the store and of the debugging lines.
use mathlib.Core.List.{Nodup}
use notifs_piper.Common.{◌≡◌, refl, true, false, none, some, [], ◌∷◌, ◌++◌, ok, arith}
use notifs_piper.Text.{codes}
use notifs_piper.Text.Decimal.{to_string}
use notifs_piper.Event.{NotificationEvent}
use notifs_piper.Job.{broadcast}
use notifs_piper.Fulfilled.{fulfilled_to_string}
use notifs_piper.Transmission.{from_fulfilled, transmission_to_string, type_to_string}
use notifs_piper.Manager.{append_notification, remove_notification, position, map_timeout}
use notifs_piper.Manager.Removal.{ids}
use notifs_piper.Manager.Store.{put, erase, view}
use notifs_piper.Execute.{execute, closed_or_false}
use notifs_piper.Execute.Broadcast.{execute_broadcast, replace, spawn, spawn_timer}
use notifs_piper.Execute.Refinement.{execute-Becomes}
use notifs_piper.Exec.{Daemon, executed, persist, reply, run_job, exec}
use notifs_piper.Startup.{Files}
use notifs_piper.Dbus.{choose_id, internal, made, max_id}
use notifs_piper.Server.{State, Reach, pushed, push, send, receive, run}
use notifs_piper.Server.Safety.{IsSafe}
use notifs_piper.Exec.Answering.{answered}
use notifs_piper.Execute.Bus.{Timer}
use notifs_piper.Listener.Delivery.{published}
use notifs_piper.Server.Announcing.{notify_round, notify_round_lem}
use notifs_piper.Server.Expiry.{expiry_closes}
use notifs_piper.Tests.Sockets.{gone, watched}
use notifs_piper.Tests.Values.{one, daemon}
use notifs_piper.Manager.{find}
use notifs_piper.Server.Session.{Session, notified, AllTame, Moves, here, next, announce, other}
use notifs_piper.Server.Boot.{ServerConfig, Boot, Running, not_found, start}
use notifs_piper.Server.Boot.Starting.{opened, start_lem, start-Nodup, start-IsSafe}
use notifs_piper.Tests.Codec.{NoHints, codec, codec-IsLawful}
use notifs_piper.Tests.Values.{
  two, three, three_logs, server, env, io, call, request, again, broken_file, distinct,
}
use notifs_piper.Tests.Jobs.{replaced, shown_again, replaces_two}

abbrev pub stored : Files
stored = broken_file (codec.logs_to_string three_logs.logs_buffer)

abbrev pub config : ServerConfig
config = record {
  listener_path = codes "/tmp/s.sock";
  logs_path = codes "/tmp/logs";
  logs_config = three_logs.logs_config;
}

-- The socket of an earlier session was removed with it.
abbrev pub boot : Boot
boot = record {
  listener_rt_fails = false;
  dbus_rt_fails = false;
  bus_error = none;
  removal = not_found;
  bind_error = none;
}

abbrev pub first : Running NoHints
first = opened codec boot config stored three_logs.logs_buffer

pub starts : start codec boot config stored ≡ ok first
starts =
    start_lem codec boot config stored three_logs.logs_buffer (refl, refl, refl, refl, refl) refl
      (codec-IsLawful.logs_round three_logs.logs_buffer)

abbrev pub fourth : NotificationEvent NoHints
fourth = made (call 0) 700 4

abbrev pub called : Session NoHints
called = notified 700 (call 0) 4 4 first.session

abbrev pub after_fourth : Daemon NoHints
after_fourth = record {
  server = record {
    man = record three_logs { logs_buffer = fourth ∷ three ∷ two ∷ [] };
    timers = record { wakeup = 5007; id = 4; snd = true } ∷ [];
    emitted = [];
  };
  queue = [];
  logs_file = some (codec.logs_to_string (fourth ∷ three ∷ two ∷ []));
  sent = (codes "out#0##res#" ++ codec.event_to_string fourth) ∷ [];
}

pub ran_fourth : exec codec io called.state.daemon ≡ ok (after_fourth, executed)
unfolding exec run_job persist reply execute execute_broadcast replace spawn spawn_timer
    append_notification map_timeout from_fulfilled fulfilled_to_string transmission_to_string
    type_to_string to_string
ran_fourth = refl

abbrev pub behind_fourth : Session NoHints
behind_fourth = record {
  counter = 4;
  state = record { daemon = after_fourth; in_flight = 0; signals = 0; received = false };
}

pub chosen : choose_id true 0 (max_id three_logs.logs_buffer) ≡ ok (4, 4)
unfolding choose_id max_id
chosen = refl

-- A client of the bus sends a notification, which is stored.
abbrev pub served : Moves codec first.session behind_fourth
served =
    next
      (next
        (next (next here (announce true 700 (call 0) 4 4 chosen refl))
          (other (record called.state { in_flight = 0; signals = 1 }) (send 0 refl refl) refl))
        (other (record called.state { in_flight = 0; received = true }) (receive 0 refl refl refl)
          refl))
      (other behind_fourth.state (run io after_fourth executed refl ran_fourth refl) refl)

pub served-tame : AllTame served
unfolding max_id
served-tame = ((((tt, (omega arith, omega arith)), tt), tt), tt)

start-Nodup_example : Nodup (ids (fourth ∷ three ∷ two ∷ []))
start-Nodup_example =
    start-Nodup codec boot config stored three_logs.logs_buffer first behind_fourth served refl
      (codec-IsLawful.logs_round three_logs.logs_buffer) starts served-tame distinct

abbrev pub pushed_state : State NoHints
pushed_state = record first.session.state {
  daemon = pushed (internal (broadcast fourth)) first.session.state.daemon;
  in_flight = 1;
}

pub ran : Reach codec first.session.state behind_fourth.state
ran =
    Reach.next
      (Reach.next
        (Reach.next (Reach.next Reach.here (push (internal (broadcast fourth)) refl))
          (send 0 refl refl))
        (receive 0 refl refl refl))
      (run io after_fourth executed refl ran_fourth refl)

start-IsSafe_example : IsSafe codec after_fourth
start-IsSafe_example =
    start-IsSafe codec boot config stored three_logs.logs_buffer codec-IsLawful first
      behind_fourth.state refl (codec-IsLawful.logs_round three_logs.logs_buffer) starts
      (omega arith) (omega arith) ran

-- The second notification is replaced.
execute-Becomes_example : view replaced.man ≡ put again (erase 2 (view server.man))
unfolding replace remove_notification position
execute-Becomes_example =
    execute-Becomes codec env (request 0) server replaced shown_again (broadcast again) distinct
      replaces_two

-- The fourth notification reaches two of three processes, and its `Acknowledge` is queued.
notify_round_lem_example :
    (d' : Daemon NoHints) × (notify_round codec io gone 9 true 700
        (call 0)
        (max_id three_logs.logs_buffer)
        watched
        (daemon [])
      ≡ ok (4, published gone watched (answered (codec.event_to_string fourth)) 4, d'))
    × (d'.server.man.logs_buffer
        ≡ (append_notification (replace three_logs fourth) fourth).logs_buffer)
    × (find 4 d'.server.man.logs_buffer ≡ some fourth)
notify_round_lem_example =
    notify_round_lem codec-IsLawful io gone 9 watched (daemon []) true 700 (call 0)
      (max_id three_logs.logs_buffer) 4 4 chosen (omega arith) refl refl refl refl

abbrev sleeping : Timer
sleeping = record { wakeup = 1007; id = 1; snd = true }

abbrev asleep : State NoHints
asleep = record {
  daemon = record (daemon []) { server = record server { timers = sleeping ∷ [] } };
  in_flight = 0;
  signals = 0;
  received = false;
}

find-one : find 1 server.man.logs_buffer ≡ some one
unfolding find
find-one = refl

one_second : map_timeout server.man one.timeout ≡ ok (some 1000)
unfolding map_timeout
one_second = refl

-- The oldest notification expires at 1500, and the clock stands at 2000.
expiry_closes_example :
    (t : State NoHints) × Reach codec asleep t
    × (closed_or_false (find 1 t.daemon.server.man.logs_buffer) ≡ true)
    × (t.daemon.queue ≡ [])
expiry_closes_example =
    expiry_closes codec io asleep [] [] sleeping one 1000 1007 refl refl (omega arith) refl refl
      refl find-one refl (ground arith) one_second (omega arith) (omega arith) refl refl
