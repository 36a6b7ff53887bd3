-- ===== src/Exec.antt =====
-- `LogsManager::exec` of server/manager.rs: one job of the queue is run, the logs are written if
-- the queue was drained, and the answer is sent to the listener's socket. What other threads push
-- while a job runs goes behind the queue, which `exec` does not look at again.
pub mod Persistence
pub mod Replies
pub mod Answering
use notifs_piper.Common.{
  ℕ, Bool, true, false, ◌&&◌, Option, none, some, List, [], ◌∷◌, ◌++◌, Outcome, ok, err, ◌>>=◌,
  if◌then◌else◌,
}
use notifs_piper.Text.{Text}
use notifs_piper.Event.{Serde}
use notifs_piper.Job.{JobDesc}
use notifs_piper.Fulfilled.{FulfilledJob, JobResult, value, failure}
use notifs_piper.Transmission.{from_fulfilled, transmission_to_string}
use notifs_piper.Execute.Bus.{Env, Server}
use notifs_piper.Execute.{execute}

pub data ExecState : Type 0 where
  executed noop error : ExecState

-- What is outside during one call: that of the job, and the errors of the file and of the socket.
pub record Io : Type 0 where
  pub env : Env
  pub write_error : Option Text
  pub socket_error : Option Text

-- The manager's thread: the server, the shared queue, the file at `logs_path` if there is one, and
-- what was sent to the socket.
pub record Daemon (Hints : Type 0) : Type 0 where
  pub server : Server Hints
  pub queue : List (JobDesc Hints)
  pub logs_file : Option Text
  pub sent : List Text

module _ {Hints : Type 0} (serde : Serde Hints) where
  -- `serde_json::to_string(&self.logs_buffer)` is written over the file.
  abbrev pub saved : Daemon Hints → Daemon Hints
  saved d = record d {
    server = record d.server { man = record d.server.man { dirty = false } };
    logs_file = some (serde.logs_to_string d.server.man.logs_buffer);
  }

  unfoldable pub persist : Io → Bool → Daemon Hints → Outcome Text (Daemon Hints)
  persist io empty d =
      if empty && d.server.man.dirty
      then (elim io.write_error [ none ↦ ok (saved d) | some e ↦ err e ])
      else ok d

abbrev pub state_of : JobResult → ExecState
state_of (value v) = executed
state_of (failure e) = error

abbrev pub is_value_none : JobResult → Bool
is_value_none (value none) = true
is_value_none (value (some t)) = false
is_value_none (failure e) = false

module _ {Hints : Type 0} where
  -- `vd.is_empty()`
  abbrev pub is_drained : List (JobDesc Hints) → Bool
  is_drained [] = true
  is_drained (jd ∷ rest) = false

  -- The end of the socket that the listener reads.
  unfoldable pub reply :
      Io → ℕ → FulfilledJob → Daemon Hints → Outcome Text (Daemon Hints × ExecState)
  reply io pid fj d = if is_value_none fj.result then ok (d, executed) else (elim io.socket_error [
    | none ↦ ok (
      record d { sent = d.sent ++ transmission_to_string (from_fulfilled fj pid) ∷ [] },
      state_of fj.result,
    )
    | some e ↦ err e
  ])

module _ {Hints : Type 0} (serde : Serde Hints) where
  unfoldable pub run_job :
      Io → JobDesc Hints → Bool → Daemon Hints → Outcome Text (Daemon Hints × ExecState)
  run_job io jd empty d = do
    (server, fj) ← execute serde io.env jd.cmd jd.desc d.server
    d' ← persist serde io empty (record d { server = server })
    reply io jd.desc.pid fj d'

  unfoldable pub exec : Io → Daemon Hints → Outcome Text (Daemon Hints × ExecState)
  exec io d = elim d.queue [
    | [] ↦ ok (d, noop)
    | jd ∷ rest ↦ run_job io jd (is_drained rest) (record d { queue = rest })
  ]
