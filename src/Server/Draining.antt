-- ===== src/Server/Draining.antt =====
-- Every job that was pushed has its signal, so the manager's thread can work off the queue.
pub mod Served
use notifs_piper.Common.{
  suc, ◌+◌, ◌≡◌, refl, Bool, true, false, List, [], ◌∷◌, ◌++◌, All, length, length-append, ok,
  arith, >>=-eq-ok,
}
use notifs_piper.Event.{Serde}
use notifs_piper.Job.{JobDesc, close, expired}
use notifs_piper.Execute.{execute}
use notifs_piper.Execute.Wiring.{IsWired, execute-IsWired}
use notifs_piper.Exec.{ExecState, Io, Daemon, persist, run_job, is_drained, exec}
use notifs_piper.Exec.Persistence.{reply_keeps}
use notifs_piper.Exec.Replies.{exec-queue}
use notifs_piper.Dbus.{internal}
use notifs_piper.Server.Signals.{waiting}
use notifs_piper.Server.{State, Step, push, wake, send, receive, run, Reach, here, next}

-- There are as many signals, not yet sent, in the channel or received, as jobs in the queue, and
-- whatever pushes a job can signal.
abbrev pub IsLive : {Hints : Type 0} → State Hints → Type 0
IsLive s =
    (s.in_flight + s.signals + waiting s.received ≡ length s.daemon.queue) × IsWired s.daemon.server

All-middle :
    {A : Type 0} (P : A → Type 0) (a b : List A) (x : A) → All P (a ++ x ∷ b) → P x × All P (a ++ b)
All-middle P [] b x h = h
All-middle P (y ∷ a) b x (p, h) = let (q, hs) = All-middle P a b x h in (q, (p, hs))

module _ {Hints : Type 0} (serde : Serde Hints) where
  persist-IsWired :
      (io : Io) (empty : Bool) (d d' : Daemon Hints)
      → persist serde io empty d ≡ ok d'
      → IsWired d.server
      → IsWired d'.server
  unfolding persist
  persist-IsWired io empty d d' h w = ground (arith, w)

  exec-IsWired :
      (io : Io) (d d' : Daemon Hints) (st : ExecState) (jd : JobDesc Hints)
      (rest : List (JobDesc Hints))
      → d.queue ≡ jd ∷ rest
      → exec serde io d ≡ ok (d', st)
      → IsWired d.server
      → IsWired d'.server
  unfolding exec run_job
  exec-IsWired io d d' st jd rest e h w =
      let ((s, fj), he, h1) =
        >>=-eq-ok (execute serde io.env jd.cmd jd.desc d.server) _ (rw e at h) in
      let start : Daemon Hints = record d { queue = rest; server = s } in
      let (d1, hp, h2) = >>=-eq-ok (persist serde io (is_drained rest) start) _ h1 in
      let (same, _, _) = reply_keeps io jd.desc.pid fj d1 (d', st) h2 in
      rw same (
        persist-IsWired io (is_drained rest) start d1 hp
          (execute-IsWired serde io.env jd.desc d.server (s, fj) jd.cmd he w))

  run-IsLive :
      (queue : List (JobDesc Hints)) (io : Io) (s : State Hints) (d : Daemon Hints) (st : ExecState)
      → s.daemon.queue ≡ queue
      → s.received ≡ true
      → exec serde io s.daemon ≡ ok (d, st)
      → IsLive s
      → (s.in_flight + s.signals ≡ length d.queue) × IsWired d.server
  run-IsLive [] io s d st e r h (p, w) =
      let q : s.in_flight + s.signals + 1 ≡ 0 = rw (e, r) at p in absurd (omega (arith, q))
  run-IsLive (jd ∷ rest) io s d st e r h (p, w) =
      let q : s.in_flight + s.signals + 1 ≡ suc (length rest) = rw (e, r) at p in
      (
        rw (exec-queue serde io s.daemon d st jd rest e h) (omega (arith, q)),
        exec-IsWired io s.daemon d st jd rest e h w,
      )

  pub Step-IsLive : (s t : State Hints) → Step serde s t → IsLive s → IsLive t
  Step-IsLive s t (push jd e) (p, w) =
      rw e (omega (arith, length-append s.daemon.queue (jd ∷ []), p), w)
  Step-IsLive s t (wake before after timer now e l e') (p, (snd, timers)) =
      let (can, others) = All-middle (λ x. x.snd ≡ true) before after timer (rw e at timers) in
      rw (e', can)
        (
          omega (arith, length-append s.daemon.queue (internal (close timer.id expired) ∷ []), p),
          (snd, others),
        )
  Step-IsLive s t (send n e e') (p, w) = rw e' (omega (arith, e, p), w)
  Step-IsLive s t (receive n e r e') (p, w) =
      let q : s.in_flight + s.signals + 0 ≡ length s.daemon.queue = rw r at p in
      rw e' (omega (arith, e, q), w)
  Step-IsLive s t (run io d st r h e) live =
      let (p, w) = run-IsLive s.daemon.queue io s d st refl r h live in rw e (omega (arith, p), w)

  pub Reach-IsLive : (s t : State Hints) → Reach serde s t → IsLive s → IsLive t
  Reach-IsLive s t here p = p
  Reach-IsLive s t (next {t = u} reach step) p = Step-IsLive u t step (Reach-IsLive s u reach p)
