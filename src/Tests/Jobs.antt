-- ===== src/Tests/Jobs.antt =====
-- The theorems of the jobs on a server with three notifications, of which the second is closed.
use notifs_piper.Common.{◌≡◌, ◌≢◌, refl, true, false, none, some, [], ◌∷◌, ◌++◌, ok, panic}
use notifs_piper.Text.{codes}
use notifs_piper.Flags.{is, force}
use notifs_piper.Job.{acknowledge, query, broadcast, dismissed, action_invoked}
use notifs_piper.Fulfilled.{
  EventType, FulfilledJob, results, value, failure, event, fulfilled_to_string,
}
use notifs_piper.Manager.{
  find, position, modify_found, append_notification, remove_notification, read_notification,
  map_timeout,
}
use notifs_piper.Event.{set_read}
use notifs_piper.Execute.Bus.{Server, dropped}
use notifs_piper.Execute.Signals.{none_or_closed, run_signal, emit, execute_signal}
use notifs_piper.Execute.Close.{execute_close}
use notifs_piper.Execute.Broadcast.{replace, spawn, spawn_timer, execute_broadcast}
use notifs_piper.Execute.{execute, execute_query, closed_or_false}
use notifs_piper.Execute.Closing.{execute_close_forced_missing}
use notifs_piper.Execute.Answers.{execute-ne-err}
use notifs_piper.Execute.Invariants.{execute_stays_closed, broadcast_forgets_closed}
use notifs_piper.Tests.Codec.{NoHints, codec}
use notifs_piper.Tests.Values.{
  one, two, three, four, again, silent_bus, three_logs, server, env, request,
}

find-two : find 2 three_logs.logs_buffer ≡ some two
unfolding find
find-two = refl

find_nine : find 9 three_logs.logs_buffer ≡ none
unfolding find
find_nine = refl

forced : is force 2 ≡ true
unfolding is
forced = refl

not_forced : is force 0 ≡ false
unfolding is
not_forced = refl

silent_two : none_or_closed (find 2 server.man.logs_buffer) ≡ true
unfolding find
silent_two = refl

-- A forced close of a notification of an earlier session.
execute_close_forced_missing_example : execute_close env 9 dismissed (request 2) server ≡ panic
execute_close_forced_missing_example =
    execute_close_forced_missing env 9 dismissed (request 2) server find_nine forced

abbrev shown : FulfilledJob
shown = record { result = value (some (codec.event_to_string four)); typ = results }

abbrev behind : Server NoHints
behind = record server {
  man = record three_logs { logs_buffer = four ∷ three ∷ two ∷ []; dirty = true };
  timers = record { wakeup = 1007; id = 4; snd = true } ∷ [];
}

pub executed_fourth : execute codec env (broadcast four) (request 0) server ≡ ok (behind, shown)
unfolding execute execute_broadcast replace spawn append_notification map_timeout spawn_timer
executed_fourth = refl

abbrev marked_one : Server NoHints
marked_one = record server {
  man = record three_logs { logs_buffer = three ∷ two ∷ set_read one ∷ []; dirty = true };
}

acknowledged : execute codec env (acknowledge 1) (request 0) server ≡ ok (dropped marked_one)
unfolding execute read_notification modify_found
acknowledged = refl

query_two : closed_or_false (find 2 server.man.logs_buffer) ≡ true
unfolding find
query_two = refl

execute_stays_closed_example : closed_or_false (find 2 marked_one.man.logs_buffer) ≡ true
execute_stays_closed_example =
    execute_stays_closed codec env (request 0) server marked_one (dropped marked_one).1
      (acknowledge 1) 2 acknowledged (λ x. x) query_two

abbrev pub replaced : Server NoHints
replaced = record server {
  man = record three_logs { logs_buffer = again ∷ three ∷ one ∷ []; dirty = true };
  timers = record { wakeup = 1007; id = 2; snd = true } ∷ [];
}

abbrev pub shown_again : FulfilledJob
shown_again = record { result = value (some (codec.event_to_string again)); typ = results }

pub replaces_two :
    execute codec env (broadcast again) (request 0) server ≡ ok (replaced, shown_again)
unfolding execute execute_broadcast replace spawn append_notification map_timeout
    remove_notification position spawn_timer
replaces_two = refl

-- The second notification was closed, and is open behind its replacement.
broadcast_forgets_closed_example : closed_or_false (find 2 replaced.man.logs_buffer) ≡ false
broadcast_forgets_closed_example =
    broadcast_forgets_closed codec env (request 0) server replaced shown_again again replaces_two

abbrev told : FulfilledJob
told = record { result = value (some (codes "true")); typ = results }

asked : execute codec env (query 2) (request 0) server ≡ ok (server, told)
unfolding execute execute_query find
asked = refl

abbrev not_sent : FulfilledJob
not_sent = record {
  result = failure (codes "Cannot emit signal.");
  typ = event (EventType.action_invoked 1 (codes "open"));
}

unheard :
    execute codec silent_bus (action_invoked 1 (codes "open")) (request 0) server
    ≡ ok (server, not_sent)
unfolding execute execute_signal run_signal emit find
unheard = refl

-- A signal that could not be emitted.
execute-ne-err_example : fulfilled_to_string not_sent ≢ codes "err#" ++ codes "Cannot emit signal."
execute-ne-err_example =
    execute-ne-err codec silent_bus (action_invoked 1 (codes "open")) (request 0) server server
      not_sent unheard (codes "Cannot emit signal.")
