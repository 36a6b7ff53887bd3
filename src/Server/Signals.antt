-- ===== src/Server/Signals.antt =====
-- Signals and jobs of server/mod.rs: how many signals there are for the jobs of the queue.
use notifs_piper.Common.{
  ℕ, suc, ◌+◌, ◌≤◌, ◌≡◌, ◌≢◌, refl, Bool, true, false, List, [], ◌∷◌, length, length-append, ok,
  arith,
}
use notifs_piper.Event.{Serde}
use notifs_piper.Job.{JobDesc, close, expired}
use notifs_piper.Exec.{ExecState, noop, Io, Daemon, exec}
use notifs_piper.Exec.Replies.{exec_noop_iff, exec-queue}
use notifs_piper.Dbus.{internal}
use notifs_piper.Server.{State, Step, push, wake, send, receive, run, Reach, here, next, started}

abbrev pub waiting : Bool → ℕ
waiting true = 1
waiting false = 0

-- Every signal, not yet sent, in the channel or received, has its job in the queue.
abbrev pub IsPaired : {Hints : Type 0} → State Hints → Type 0
IsPaired s = s.in_flight + s.signals + waiting s.received ≤ length s.daemon.queue

module _ {Hints : Type 0} (serde : Serde Hints) where
  run-IsPaired :
      (queue : List (JobDesc Hints)) (io : Io) (s : State Hints) (d : Daemon Hints) (st : ExecState)
      → s.daemon.queue ≡ queue
      → s.received ≡ true
      → exec serde io s.daemon ≡ ok (d, st)
      → IsPaired s
      → s.in_flight + s.signals ≤ length d.queue
  run-IsPaired [] io s d st e r h p =
      let q : s.in_flight + s.signals + 1 ≤ 0 = rw (e, r) at p in omega (arith, q)
  run-IsPaired (jd ∷ rest) io s d st e r h p =
      let q : s.in_flight + s.signals + 1 ≤ suc (length rest) = rw (e, r) at p in
      rw (exec-queue serde io s.daemon d st jd rest e h) (omega (arith, q))

  pub Step-IsPaired : {s t : State Hints} → Step serde s t → IsPaired s → IsPaired t
  Step-IsPaired {s} {t} (push jd e) p =
      rw e (omega (arith, length-append s.daemon.queue (jd ∷ []), p))
  Step-IsPaired {s} {t} (wake before after timer now e w e') p =
      rw e'
        (ground (arith, length-append s.daemon.queue (internal (close timer.id expired) ∷ []), p))
  Step-IsPaired {s} {t} (send n e e') p = rw e' (omega (arith, e, p))
  Step-IsPaired {s} {t} (receive n e r e') p =
      let q : s.in_flight + s.signals + 0 ≤ length s.daemon.queue = rw r at p in
      rw e' (omega (arith, e, q))
  Step-IsPaired {s} {t} (run io d st r h e) p =
      rw e (omega (arith, run-IsPaired s.daemon.queue io s d st refl r h p))

  pub Reach-IsPaired : {s t : State Hints} → Reach serde s t → IsPaired s → IsPaired t
  Reach-IsPaired here p = p
  Reach-IsPaired (next reach step) p = Step-IsPaired step (Reach-IsPaired reach p)

  -- In every state the threads reach from the start, a manager that has received a signal finds a
  -- job: its call of `exec` does not return `ExecState::Noop`.
  pub started_never_noop :
      (io : Io) (d d' : Daemon Hints) (s : State Hints)
      → Reach serde (started d) s
      → s.received ≡ true
      → exec serde io s.daemon ≢ ok (d', noop)
  started_never_noop io d d' s reach r = λ h.
      let p : s.in_flight + s.signals + 1 ≤ length s.daemon.queue =
        rw r at (Reach-IsPaired reach (omega arith)) in
      let q : s.in_flight + s.signals + 1 ≤ 0 =
        rw ((exec_noop_iff serde io s.daemon).0 (d', h)) at p in
      omega (arith, q)
