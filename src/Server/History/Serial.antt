-- ===== src/Server/History/Serial.antt =====
-- Whole runs of the daemon as runs of the serial server.
use mathlib.Core.List.{Nodup}
use mathlib.Core.Path.{subst}
use notifs_piper.Common.{
  Bool, true, ◌≡◌, refl, sym, ap, ◌∙◌, false, List, [], ◌∷◌, ◌++◌, append_assoc, append-nil, ok,
  ok-injective,
}
use notifs_piper.Event.{Serde, NotificationEvent}
use notifs_piper.Job.{JobDesc}
use notifs_piper.Execute.Spec.{takes_signals}
use notifs_piper.Manager.Removal.{ids}
use notifs_piper.Exec.{ExecState, Io, Daemon, exec}
use notifs_piper.Exec.Replies.{exec-nil, exec-queue}
use notifs_piper.Exec.Persistence.{load}
use notifs_piper.Startup.{Files}
use notifs_piper.Server.{State, Step, push, wake, send, receive, run}
use notifs_piper.Server.Session.{Session, Move, announce, other, Moves, here, next, begun, AllTame}
use notifs_piper.Server.Session.Distinct.{session-Nodup}
use notifs_piper.Server.Boot.{ServerConfig, Boot, Running, start}
use notifs_piper.Server.Boot.Starting.{opened, started_as}
use notifs_piper.Server.History.Serving.{exec-Served}
use notifs_piper.Server.History.{
  visible, bus_of, bus_at, bus_during, all_buses, Served, Serves, idle, serve, pushes, first_of,
  executes, pushed_by, executed_by, all_pushed, all_executed,
}

module _ {Hints : Type 0} (serde : Serde Hints) where
  run-fifo :
      (io : Io) (d d' : Daemon Hints) (st : ExecState) (queue : List (JobDesc Hints))
      → d.queue ≡ queue
      → exec serde io d ≡ ok (d', st)
      → queue ≡ first_of queue ++ d'.queue
  run-fifo io d d' st [] e h =
      let same = ap (λ x. x.0) (ok-injective (sym (exec-nil serde io d e) ∙ h)) in
      sym (ap (λ x. x.queue) (sym same) ∙ e)
  run-fifo io d d' st (jd ∷ rest) e h = ap (◌∷◌ jd) (sym (exec-queue serde io d d' st jd rest e h))

  -- The serial server has served these jobs, with the configuration of the daemon.
  abbrev Serialised : Daemon Hints → List (JobDesc Hints) → List Bool → Daemon Hints → Type 0
  Serialised d jobs buses d' =
      Serves serde d.server.man.logs_config (visible d) jobs buses (visible d')
      × (d'.server.man.logs_config ≡ d.server.man.logs_config)
      × (d'.server.man.interface ≡ true)

  run-Serialised :
      (io : Io) (c d d' : Daemon Hints) (st : ExecState) (queue jobs : List (JobDesc Hints))
      (buses : List Bool)
      → d.queue ≡ queue
      → exec serde io d ≡ ok (d', st)
      → Nodup (ids d.server.man.logs_buffer)
      → Serialised c jobs buses d
      → Serialised c (jobs ++ first_of queue) (buses ++ bus_of (takes_signals io.env true) queue) d'
  run-Serialised io c d d' st [] jobs buses e h before p =
      let same = ap (λ x. x.0) (ok-injective (sym (exec-nil serde io d e) ∙ h)) in
      rw (append-nil jobs, append-nil buses) (subst (λ x. Serialised c jobs buses x) same p)
  run-Serialised io c d d' st (jd ∷ rest) jobs buses e h before (serves, config, up) =
      let (served, kept, kept_up) = exec-Served serde io d d' st jd rest e h before in
      let one : Served serde c.server.man.logs_config (takes_signals io.env true) jd (visible d)
          (visible d') =
        subst (λ k. Served serde k (takes_signals io.env true) jd (visible d) (visible d')) config
          (subst
            (λ b.
              Served serde d.server.man.logs_config (takes_signals io.env b) jd (visible d)
                (visible d'))
            up served) in
      (serve jd (takes_signals io.env true) serves one, kept ∙ config, kept_up ∙ up)

module _ {Hints : Type 0} {serde : Serde Hints} where
  -- What was queued and what a step pushes is what it executes and what is queued then.
  Step-fifo :
      (s t : State Hints) (step : Step serde s t)
      → s.daemon.queue ++ pushes step ≡ executes step ++ t.daemon.queue
  Step-fifo s t (push jd e) = rw e refl
  Step-fifo s t (wake before after timer now e w e') = rw e' refl
  Step-fifo s t (send n e e') = rw e' (append-nil s.daemon.queue)
  Step-fifo s t (receive n e r e') = rw e' (append-nil s.daemon.queue)
  Step-fifo s t (run io d st r h e) =
      rw e (append-nil s.daemon.queue ∙ run-fifo serde io s.daemon d st s.daemon.queue refl h)

  Move-fifo :
      (s t : Session Hints) (move : Move serde s t)
      → s.state.daemon.queue ++ pushed_by move ≡ executed_by move ++ t.state.daemon.queue
  Move-fifo s t (announce checks time call id counter e e') = rw e' refl
  Move-fifo s t (other u step e) = rw e (Step-fifo s.state u step)

  Moves-fifo :
      (s t : Session Hints) (moves : Moves serde s t)
      → s.state.daemon.queue ≡ []
      → all_pushed moves ≡ all_executed moves ++ t.state.daemon.queue
  Moves-fifo s t here e = sym e
  Moves-fifo s t (next {t = u} moves move) e =
      ap (λ l. l ++ pushed_by move) (Moves-fifo s u moves e)
      ∙ append_assoc (all_executed moves) u.state.daemon.queue (pushed_by move)
      ∙ ap (λ l. all_executed moves ++ l) (Move-fifo u t move)
      ∙ sym (append_assoc (all_executed moves) (executed_by move) t.state.daemon.queue)

  Step-Serialised :
      (c : Daemon Hints) (s t : State Hints) (step : Step serde s t) (jobs : List (JobDesc Hints))
      (buses : List Bool)
      → Nodup (ids s.daemon.server.man.logs_buffer)
      → Serialised serde c jobs buses s.daemon
      → Serialised serde c (jobs ++ executes step) (buses ++ bus_at step) t.daemon
  Step-Serialised c s t (push jd e) jobs buses before p =
      rw (e, append-nil jobs, append-nil buses) p
  Step-Serialised c s t (wake b a timer now e w e') jobs buses before p =
      rw (e', append-nil jobs, append-nil buses) p
  Step-Serialised c s t (send n e e') jobs buses before p =
      rw (e', append-nil jobs, append-nil buses) p
  Step-Serialised c s t (receive n e r e') jobs buses before p =
      rw (e', append-nil jobs, append-nil buses) p
  Step-Serialised c s t (run io d st r h e) jobs buses before p =
      rw e (run-Serialised serde io c s.daemon d st s.daemon.queue jobs buses refl h before p)

  Move-Serialised :
      (c : Daemon Hints) (s t : Session Hints) (move : Move serde s t) (jobs : List (JobDesc Hints))
      (buses : List Bool)
      → Nodup (ids s.state.daemon.server.man.logs_buffer)
      → Serialised serde c jobs buses s.state.daemon
      → Serialised serde c (jobs ++ executed_by move) (buses ++ bus_during move) t.state.daemon
  Move-Serialised c s t (announce checks time call id counter e e') jobs buses before p =
      rw (e', append-nil jobs, append-nil buses) p
  Move-Serialised c s t (other u step e) jobs buses before p =
      rw e (Step-Serialised c s.state u step jobs buses before p)

  Moves-Serialised :
      (d : Daemon Hints) (s : Session Hints) (moves : Moves serde (begun d) s)
      → AllTame moves
      → Nodup (ids d.server.man.logs_buffer)
      → d.server.man.interface ≡ true
      → Serialised serde d (all_executed moves) (all_buses moves) s.state.daemon
  Moves-Serialised d s here tame distinct up = (idle, refl, up)
  Moves-Serialised d s (next {t = u} moves move) (tame, last) distinct up =
      Move-Serialised d u s move (all_executed moves) (all_buses moves)
        (session-Nodup d u moves tame distinct) (Moves-Serialised d u moves tame distinct up)

module _ {Hints : Type 0} (serde : Serde Hints) (boot : Boot) (config : ServerConfig) (f : Files)
    (l : List (NotificationEvent Hints)) where
  -- If `start` goes through with a file that is not refused and holds logs with distinct ids, or with
  -- no file, then every run of the threads and of the calls of `notify` is one of a serial server: the
  -- jobs that were executed are those that were pushed, in the order of the pushes and without those
  -- that are still queued; and the logs, what was sent and what was given to the bus are what may be
  -- left when these jobs are served one after the other from the logs of the file. Each job changes
  -- what is stored under the ids as specified for it: an acknowledgement, a query, a signal and a
  -- `watch` exactly, a broadcast up to the one notification that goes for it if there is no room, a
  -- close exactly or, on expiry with automatic closing, not at all, and a reading up to the marks.
  -- Each job is answered as `Answers` says: a query by whether its id is stored and closed, a
  -- broadcast by its notification, a reading by its window of the logs as they are afterwards, and a
  -- close or a signal of a notification that is open, or by force, by its event, with its signal
  -- given to the bus once, if the bus takes signals during that job, and by a failure, with no signal,
  -- if it does not; all others by nothing, and so may be a close on expiry with automatic closing. Each
  -- call
  -- of `notify` must replace nothing or an id that the counter has reached, the counter stays below
  -- its greatest value, and no producer beside `notify` queues a broadcast.
  pub start-Serves :
      (r : Running Hints) (s : Session Hints) (moves : Moves serde r.session s)
      → f.read_fails ≡ false
      → load serde f.logs ≡ ok l
      → start serde boot config f ≡ ok r
      → AllTame moves
      → Nodup (ids l)
      → (all_pushed moves ≡ all_executed moves ++ s.state.daemon.queue)
        × Serves serde config.logs_config
            (record { logs = l; sent = []; emitted = [] })
            (all_executed moves)
            (all_buses moves)
            (visible s.state.daemon)
  start-Serves r s moves read h e tame distinct =
      let d = (opened serde boot config f l).session.state.daemon in
      subst
        (λ q.
          (m : Moves serde q.session s)
          → AllTame m
          → (all_pushed m ≡ all_executed m ++ s.state.daemon.queue)
            × Serves serde config.logs_config (record { logs = l; sent = []; emitted = [] })
                (all_executed m) (all_buses m) (visible s.state.daemon))
        (sym (started_as serde boot config f l r read h e))
        (λ m t. (Moves-fifo _ s m refl, (Moves-Serialised d s m t distinct refl).0)) moves tame
