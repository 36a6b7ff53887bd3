-- ===== src/Server/Safety.antt =====
-- The logs in the states that the threads of server/mod.rs reach: their bound, and their file.
use notifs_piper.Common.{
  ◌<◌, ◌≡◌, refl, sym, ap, ◌∙◌, Bool, List, [], ◌∷◌, ok, arith, ok-injective, >>=-eq-ok,
}
use mathlib.Core.Path.{subst}
use notifs_piper.Event.{Serde, IsLawful}
use notifs_piper.Job.{Job, JobDesc, Desc, broadcast}
use notifs_piper.Fulfilled.{FulfilledJob}
use notifs_piper.Manager.{LogsManager}
use notifs_piper.Manager.Retention.{IsBounded, config-append_notification}
use notifs_piper.Execute.Bus.{Env, Server}
use notifs_piper.Execute.{execute}
use notifs_piper.Execute.Broadcast.{replace}
use notifs_piper.Execute.Later.{execute-Keeps}
use notifs_piper.Execute.Invariants.{execute-IsBounded, man-execute_broadcast, replace_shape}
use notifs_piper.Exec.{ExecState, Io, Daemon, persist, run_job, is_drained, exec}
use notifs_piper.Exec.Replies.{exec-nil}
use notifs_piper.Exec.Persistence.{IsSaved, exec-IsSaved, reply_keeps}
use notifs_piper.Server.{State, Step, push, wake, send, receive, run, Reach, here, next}

-- There is room for a notification, and the buffer is within its bound.
abbrev pub IsRoomy : {Hints : Type 0} → LogsManager Hints → Type 0
IsRoomy man = (0 < man.logs_config.max_logs) × IsBounded man

module _ {Hints : Type 0} (serde : Serde Hints) (env : Env) (desc : Desc) (s s' : Server Hints)
    (fj : FulfilledJob) where
  pub execute-config :
      (job : Job Hints)
      → execute serde env job desc s ≡ ok (s', fj)
      → s'.man.logs_config ≡ s.man.logs_config
  unfolding execute
  execute-config (broadcast ne) h =
      rw (man-execute_broadcast serde env ne s (s', fj) h)
        (config-append_notification (replace s.man ne) ne ∙ (replace_shape s.man ne).0)
  execute-config job h = (execute-Keeps serde env job desc s (s', fj) (λ x. x) h).config

  execute-IsRoomy :
      (job : Job Hints)
      → execute serde env job desc s ≡ ok (s', fj)
      → IsRoomy s.man
      → IsRoomy s'.man
  execute-IsRoomy job h (room, b) =
      (rw (execute-config job h) room, execute-IsBounded serde env desc s s' fj job h room b)

module _ {Hints : Type 0} (serde : Serde Hints) (io : Io) where
  persist-IsRoomy :
      (empty : Bool) (d d' : Daemon Hints)
      → persist serde io empty d ≡ ok d'
      → IsRoomy d.server.man
      → IsRoomy d'.server.man
  unfolding persist
  persist-IsRoomy empty d d' h r = ground arith

  run_job-IsRoomy :
      (jd : JobDesc Hints) (empty : Bool) (d : Daemon Hints) (r : Daemon Hints × ExecState)
      → run_job serde io jd empty d ≡ ok r
      → IsRoomy d.server.man
      → IsRoomy r.0.server.man
  unfolding run_job
  run_job-IsRoomy jd empty d r h room =
      let ((s, fj), he, h1) = >>=-eq-ok (execute serde io.env jd.cmd jd.desc d.server) _ h in
      let (d', hp, h2) = >>=-eq-ok (persist serde io empty (record d { server = s })) _ h1 in
      let (same_server, _, _) = reply_keeps io jd.desc.pid fj d' r h2 in
      rw same_server (
        persist-IsRoomy empty (record d { server = s }) d' hp
          (execute-IsRoomy serde io.env jd.desc d.server s fj jd.cmd he room))

  exec-IsRoomy :
      (queue : List (JobDesc Hints)) (d d' : Daemon Hints) (st : ExecState)
      → d.queue ≡ queue
      → exec serde io d ≡ ok (d', st)
      → IsRoomy d.server.man
      → IsRoomy d'.server.man
  unfolding exec
  exec-IsRoomy [] d d' st e h room =
      let q = ok-injective (sym (exec-nil serde io d e) ∙ h) in
      subst (λ x. IsRoomy x.server.man) (ap (λ x. x.0) q) room
  exec-IsRoomy (jd ∷ rest) d d' st e h room =
      run_job-IsRoomy jd (is_drained rest) (record d { queue = rest }) (d', st) (rw e at h) room

-- The buffer is within its bound, and it is in the file unless it is still to be written.
abbrev pub IsSafe : {Hints : Type 0} → Serde Hints → Daemon Hints → Type 0
IsSafe serde d = IsSaved serde d × IsRoomy d.server.man

module _ {Hints : Type 0} {serde : Serde Hints} (lawful : IsLawful serde) where
  Step-IsSafe : (s t : State Hints) → Step serde s t → IsSafe serde s.daemon → IsSafe serde t.daemon
  Step-IsSafe s t (push jd e) p = rw e p
  Step-IsSafe s t (wake before after timer now e w e') p = rw e' p
  Step-IsSafe s t (send n e e') p = rw e' p
  Step-IsSafe s t (receive n e r e') p = rw e' p
  Step-IsSafe s t (run io d st r h e) (kept, room) = rw e (
    exec-IsSaved lawful io s.daemon d st h kept,
    exec-IsRoomy serde io s.daemon.queue s.daemon d st refl h room,
  )

  -- If the JSON of the logs is read back as printed, this holds in every state that the threads
  -- reach from one where it holds, whatever jobs come in and whichever thread goes on: the buffer
  -- is within its bound, which leaves room for at least one notification, and either the manager is
  -- marked for writing or a start of the daemon would read the buffer from the file.
  pub Reach-IsSafe :
      (s t : State Hints) → Reach serde s t → IsSafe serde s.daemon → IsSafe serde t.daemon
  Reach-IsSafe s t here p = p
  Reach-IsSafe s t (next {t = u} reach step) p = Step-IsSafe u t step (Reach-IsSafe s u reach p)
