-- ===== src/Server/Restart.antt =====
-- The file of the logs when the queue is empty, and a start of the daemon from it.
use mathlib.Core.Path.{subst}
use notifs_piper.Common.{◌≡◌, refl, sym, ap, ◌∙◌, false, List, [], ◌∷◌, ◌++◌, ok, ok-injective, inr}
use notifs_piper.Event.{NotificationEvent, Serde, IsLawful}
use notifs_piper.Job.{JobDesc, close, expired}
use notifs_piper.Exec.{ExecState, Io, Daemon, exec}
use notifs_piper.Exec.Replies.{exec-nil, exec-queue}
use notifs_piper.Exec.Persistence.{load, IsSaved, exec-IsSaved, exec_last-load}
use notifs_piper.Startup.{Files}
use notifs_piper.Dbus.{max_id, internal}
use notifs_piper.Server.Boot.{ServerConfig, Boot, Running, start}
use notifs_piper.Server.Boot.Starting.{NoFailure, opened, start_lem, started_as}
use notifs_piper.Server.{State, Step, push, wake, send, receive, run, Reach, here, next}

module _ {Hints : Type 0} (serde : Serde Hints) where
  -- With no job in the queue a start would read the buffer from the file.
  abbrev IsWritten : Daemon Hints → Type 0
  IsWritten d =
      IsSaved serde d × (d.queue ≡ [] → load serde d.logs_file ≡ ok d.server.man.logs_buffer)

not_empty :
    {Hints : Type 0} (queue : List (JobDesc Hints)) (jd : JobDesc Hints) → ¬ (queue ++ jd ∷ [] ≡ [])
not_empty [] jd e = cc
not_empty (x ∷ queue) jd e = cc

module _ {Hints : Type 0} {serde : Serde Hints} (lawful : IsLawful serde) where
  exec-IsWritten :
      (io : Io) (queue : List (JobDesc Hints)) (d d' : Daemon Hints) (st : ExecState)
      → d.queue ≡ queue
      → exec serde io d ≡ ok (d', st)
      → IsWritten serde d
      → d'.queue ≡ []
      → load serde d'.logs_file ≡ ok d'.server.man.logs_buffer
  exec-IsWritten io [] d d' st e h (saved, written) =
      let same = ap (λ x. x.0) (ok-injective (sym (exec-nil serde io d e) ∙ h)) in
      λ q. subst (λ x. load serde x.logs_file ≡ ok x.server.man.logs_buffer) same (written e)
  exec-IsWritten io (jd ∷ []) d d' st e h (saved, written) =
      λ q. exec_last-load lawful io d d' st jd e h saved
  exec-IsWritten io (jd ∷ jd' ∷ rest) d d' st e h (saved, written) =
      λ q. let left = exec-queue serde io d d' st jd (jd' ∷ rest) e h in cc

  Step-IsWritten :
      (s t : State Hints) → Step serde s t → IsWritten serde s.daemon → IsWritten serde t.daemon
  Step-IsWritten s t (push jd e) (saved, written) =
      rw e (saved, λ q. absurd (not_empty s.daemon.queue jd q))
  Step-IsWritten s t (wake before after timer now e w e') (saved, written) =
      rw e' (saved, λ q. absurd (not_empty s.daemon.queue (internal (close timer.id expired)) q))
  Step-IsWritten s t (send n e e') p = rw e' p
  Step-IsWritten s t (receive n e r e') p = rw e' p
  Step-IsWritten s t (run io d st r h e) p = rw e (
    exec-IsSaved lawful io s.daemon d st h p.0,
    exec-IsWritten io s.daemon.queue s.daemon d st refl h p,
  )

  Reach-IsWritten :
      (s t : State Hints) → Reach serde s t → IsWritten serde s.daemon → IsWritten serde t.daemon
  Reach-IsWritten s t here p = p
  Reach-IsWritten s t (next {t = u} reach step) p =
      Step-IsWritten u t step (Reach-IsWritten s u reach p)

  -- A restart loses nothing. If `start` goes through with a file that is not refused and can be parsed,
  -- or with no file, then in every state that the threads reach in which the queue is empty, whatever
  -- jobs were run, a later start from the file as it is then, with whatever configuration, goes through
  -- if no step of it fails that concerns no logs: with the same notifications in the same order, with
  -- the counter at their greatest id, and with the files as they are. The JSON of the logs is taken to
  -- be read back as printed.
  pub start-restart :
      (boot boot' : Boot) (config config' : ServerConfig) (f f' : Files)
      (l : List (NotificationEvent Hints)) (r : Running Hints) (s : State Hints)
      → f.read_fails ≡ false
      → load serde f.logs ≡ ok l
      → start serde boot config f ≡ ok r
      → Reach serde r.session.state s
      → s.daemon.queue ≡ []
      → NoFailure boot'
      → f'.read_fails ≡ false
      → f'.logs ≡ s.daemon.logs_file
      → (r' : Running Hints) × (start serde boot' config' f' ≡ ok r')
        × (r'.session.state.daemon.server.man.logs_buffer ≡ s.daemon.server.man.logs_buffer)
        × (r'.session.counter ≡ max_id s.daemon.server.man.logs_buffer)
        × (r'.files ≡ f')
  start-restart boot boot' config config' f f' l r s read h e reach empty works read' same =
      let (_, written) = Reach-IsWritten r.session.state s reach (
        subst (λ q. IsWritten serde q.session.state.daemon)
          (sym (started_as serde boot config f l r read h e)) (inr h, λ q. h)) in
      let logs = s.daemon.server.man.logs_buffer in
      let stored : load serde f'.logs ≡ ok logs = ap (λ x. load serde x) same ∙ written empty in
      (
        opened serde boot' config' f' logs,
        start_lem serde boot' config' f' logs works read' stored,
        refl,
        refl,
        refl,
      )
