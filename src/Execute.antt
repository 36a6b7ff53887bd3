-- ===== src/Execute.antt =====
-- `Job::execute` of every job in server/jobs, on the manager's thread.
pub mod Bus
pub mod Signals
pub mod Close
pub mod Broadcast
pub mod Closing
pub mod Answers
pub mod Later
pub mod Invariants
pub mod Spec
pub mod Refinement
pub mod Results
pub mod Total
pub mod Wiring
use notifs_piper.Common.{ℕ, Bool, true, false, not, Option, none, some, Outcome, ok, ◌>>=◌}
use notifs_piper.Text.{Text, codes}
use notifs_piper.Flags.{is, silent}
use notifs_piper.Event.{NotificationEvent, Serde}
use notifs_piper.Job.{
  Job, acknowledge, broadcast, close, query, read, action_invoked, activation_token, watch, Desc,
}
use notifs_piper.Fulfilled.{EventType, FulfilledJob, results, value}
use notifs_piper.Manager.{find, read_notification, read_logs}
use Bus.{Env, Signal, Server, dropped}
use Signals.{execute_signal}
use Close.{execute_close}
use Broadcast.{execute_broadcast}

abbrev pub bool_text : Bool → Text
bool_text true = codes "true"
bool_text false = codes "false"

module _ {Hints : Type 0} where
  abbrev pub closed_or_false : Option (NotificationEvent Hints) → Bool
  closed_or_false none = false
  closed_or_false (some ne) = ne.closed

  abbrev pub execute_acknowledge : ℕ → Server Hints → Server Hints × FulfilledJob
  execute_acknowledge id s = dropped (record s { man = read_notification s.man id })

  abbrev pub execute_watch : Server Hints → Server Hints × FulfilledJob
  execute_watch s = dropped s

  unfoldable pub execute_query : ℕ → Server Hints → Server Hints × FulfilledJob
  execute_query id s = (
    s,
    record {
      result = value (some (bool_text (closed_or_false (find id s.man.logs_buffer))));
      typ = results;
    },
  )

module _ {Hints : Type 0} (serde : Serde Hints) where
  unfoldable pub execute_read :
      ℕ → ℕ → Desc → Server Hints → Outcome Text (Server Hints × FulfilledJob)
  execute_read start end desc s = do
    (man, slice) ← read_logs s.man start end (not (is silent desc.flags))
    ok (
      record s { man = man },
      record { result = value (some (serde.logs_to_string slice)); typ = results },
    )

  unfoldable pub execute :
      Env → Job Hints → Desc → Server Hints → Outcome Text (Server Hints × FulfilledJob)
  execute env (acknowledge id) desc s = ok (execute_acknowledge id s)
  execute env (broadcast ne) desc s = execute_broadcast serde env ne s
  execute env (close id reason) desc s = execute_close env id reason desc s
  execute env (query id) desc s = ok (execute_query id s)
  execute env (read start end) desc s = execute_read start end desc s
  execute env (action_invoked id key) desc s = ok (
      execute_signal env id (Signal.action_invoked id key) (EventType.action_invoked id key) desc s)
  execute env (activation_token id token) desc s = ok (
      execute_signal env id (Signal.activation_token id token) (EventType.activation_token id token)
        desc s)
  execute env watch desc s = ok (execute_watch s)
