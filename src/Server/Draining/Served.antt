-- ===== src/Server/Draining/Served.antt =====
-- The manager's thread works off the queue.
use mathlib.Core.Path.{subst}
use notifs_piper.Common.{
  Bool, ℕ, zero, suc, ◌+◌, ◌≡◌, refl, sym, ap, ◌∙◌, Bool, true, false, ◌&&◌, none, List, [], ◌∷◌,
  ◌++◌, All, length, ok, arith, Bool-cases, inl, inr,
}
use notifs_piper.Event.{NotificationEvent, Serde}
use notifs_piper.Job.{JobDesc}
use notifs_piper.Fulfilled.{FulfilledJob}
use notifs_piper.Execute.Total.{IsHarmless, execute_total}
use notifs_piper.Exec.{
  ExecState, executed, Io, Daemon, saved, persist, reply, run_job, is_drained, exec, is_value_none,
  state_of,
}
use notifs_piper.Exec.Replies.{exec-queue}
use notifs_piper.Exec.Persistence.{load}
use notifs_piper.Transmission.{from_fulfilled, transmission_to_string}
use notifs_piper.Startup.{Files}
use notifs_piper.Server.Signals.{waiting}
use notifs_piper.Server.Boot.{ServerConfig, Boot, Running, start}
use notifs_piper.Server.Boot.Starting.{started_as}
use notifs_piper.Server.Draining.{IsLive, Reach-IsLive}
use notifs_piper.Server.{State, send, receive, run, Reach, here, next}

abbrev pub AllHarmless : {Hints : Type 0} → Bool → List (JobDesc Hints) → Type 0
AllHarmless checks queue = All (λ jd. IsHarmless checks jd.cmd jd.desc) queue

module _ {Hints : Type 0} (serde : Serde Hints) (io : Io) where
  persist_total :
      (empty : Bool) (d : Daemon Hints)
      → io.write_error ≡ none
      → (d' : Daemon Hints) × (persist serde io empty d ≡ ok d')
  unfolding persist
  persist_total empty d w = elim (Bool-cases (empty && d.server.man.dirty)) [
    | inl e ↦ (saved serde d, rw (e, w) refl)
    | inr e ↦ (d, rw e refl)
  ]

  reply_total :
      (pid : ℕ) (fj : FulfilledJob) (d : Daemon Hints)
      → io.socket_error ≡ none
      → (r : Daemon Hints × ExecState) × (reply io pid fj d ≡ ok r)
  unfolding reply
  reply_total pid fj d w = elim (Bool-cases (is_value_none fj.result)) [
    | inl e ↦ ((d, executed), rw e refl)
    | inr e ↦ (
      (
        record d { sent = d.sent ++ transmission_to_string (from_fulfilled fj pid) ∷ [] },
        state_of fj.result,
      ),
      rw (e, w) refl,
    )
  ]

  -- A call of `exec` on a harmless job succeeds, if the file and the socket take what is written.
  exec_total :
      (d : Daemon Hints) (jd : JobDesc Hints) (rest : List (JobDesc Hints))
      → d.queue ≡ jd ∷ rest
      → IsHarmless io.env.overflow_checks jd.cmd jd.desc
      → io.write_error ≡ none
      → io.socket_error ≡ none
      → (d' : Daemon Hints) × (st : ExecState) × (exec serde io d ≡ ok (d', st))
  unfolding exec run_job
  exec_total d jd rest e harmless w w' =
      let ((s, fj), ran) = execute_total serde io.env jd.desc d.server jd.cmd harmless in
      let (d1, p) = persist_total (is_drained rest) (record d { queue = rest; server = s }) w in
      let ((d', st), q) = reply_total jd.desc.pid fj d1 w' in (d', st, rw (e, ran, p, q) refl)

module _ {Hints : Type 0} {serde : Serde Hints} where
  Reach-trans : {s t u : State Hints} → Reach serde s t → Reach serde t u → Reach serde s u
  Reach-trans r here = r
  Reach-trans r (next q step) = next (Reach-trans r q) step

  -- The manager receives a signal, if a job is queued.
  received_signal :
      (s : State Hints) (jd : JobDesc Hints) (rest : List (JobDesc Hints))
      → s.daemon.queue ≡ jd ∷ rest
      → IsLive s
      → (u : State Hints) × Reach serde s u × (u.daemon ≡ s.daemon) × (u.received ≡ true)
  received_signal s jd rest e (p, w) = elim (Bool-cases s.received) [
    | inl r ↦ (s, here, refl, r)
    | inr r ↦
        let q : s.in_flight + s.signals + 0 ≡ suc (length rest) = rw (r, e) at p in
        by_signals s.signals s.in_flight refl refl (omega (arith, q)) r
  ]
    where
      by_signals :
          (signals in_flight : ℕ)
          → s.signals ≡ signals
          → s.in_flight ≡ in_flight
          → in_flight + signals ≡ suc (length rest)
          → s.received ≡ false
          → (u : State Hints) × Reach serde s u × (u.daemon ≡ s.daemon) × (u.received ≡ true)
      by_signals (suc n) f a b q r =
          (record s { signals = n; received = true }, next here (receive n a r refl), refl, refl)
      by_signals zero zero a b q r = absurd (omega (arith, q))
      by_signals zero (suc f) a b q r =
          let sent : State Hints = record s { in_flight = f; signals = s.signals + 1 } in
          (
            record sent { signals = s.signals; received = true },
            next (next here (send f b refl)) (receive s.signals (omega arith) r refl),
            refl,
            refl,
          )

waiting-none : (b : Bool) → waiting b ≡ 0 → b ≡ false
waiting-none true h = cc
waiting-none false h = refl

module _ {Hints : Type 0} (serde : Serde Hints) (io : Io) (writes : io.write_error ≡ none)
    (sends : io.socket_error ≡ none) where
  serve_first :
      (s : State Hints) (jd : JobDesc Hints) (rest : List (JobDesc Hints))
      → s.daemon.queue ≡ jd ∷ rest
      → IsHarmless io.env.overflow_checks jd.cmd jd.desc
      → IsLive s
      → (t : State Hints) × Reach serde s t × (t.daemon.queue ≡ rest) × IsLive t
  serve_first s jd rest e harmless live =
      let (u, reach, same, ready) = received_signal s jd rest e live in
      let front : u.daemon.queue ≡ jd ∷ rest = ap (λ d. d.queue) same ∙ e in
      let (d', st, ran) = exec_total serde io u.daemon jd rest front harmless writes sends in
      let t : State Hints = record u { daemon = d'; received = false } in
      let all : Reach serde s t = next reach (run io d' st ready ran refl) in
      (
        t,
        all,
        exec-queue serde io u.daemon d' st jd rest front ran,
        Reach-IsLive serde s t all live,
      )

  drain :
      (queue : List (JobDesc Hints)) (s : State Hints)
      → s.daemon.queue ≡ queue
      → AllHarmless io.env.overflow_checks queue
      → IsLive s
      → (t : State Hints) × Reach serde s t × (t.daemon.queue ≡ []) × IsLive t
  drain [] s e harmless live = (s, here, e, live)
  drain (jd ∷ rest) s e (first, others) live =
      let (u, reach, left, live') = serve_first s jd rest e first live in
      let (t, reach', empty, live'') = drain rest u left others live' in
      (t, Reach-trans reach reach', empty, live'')

  -- No run gets stuck: if `start` goes through with a file that is not refused and can be parsed, or
  -- with no file, then from every state that the threads reach, whatever was pushed by then, they can
  -- go on to a state in which the queue is empty, no signal is on its way and the manager waits, if no
  -- job in the queue is a close by force, a reading whose end is before its start or, in a build with
  -- overflow checks, a close on expiry, and the file and the socket of the manager's thread take what
  -- is written. The steps are those of threads that do not panic with the lock of the queue held.
  pub start-drains :
      (boot : Boot) (config : ServerConfig) (f : Files) (l : List (NotificationEvent Hints))
      (r : Running Hints) (s : State Hints)
      → f.read_fails ≡ false
      → load serde f.logs ≡ ok l
      → start serde boot config f ≡ ok r
      → Reach serde r.session.state s
      → AllHarmless io.env.overflow_checks s.daemon.queue
      → (t : State Hints) × Reach serde s t
        × (t.daemon.queue ≡ [])
        × (t.in_flight ≡ 0)
        × (t.signals ≡ 0)
        × (t.received ≡ false)
  start-drains boot config f l r s read h e reach harmless =
      let first : IsLive r.session.state =
        subst (λ q. IsLive q.session.state) (sym (started_as serde boot config f l r read h e))
          (refl, (refl, tt)) in
      let (t, reach', empty, (p, w)) =
        drain s.daemon.queue s refl harmless (Reach-IsLive serde r.session.state s reach first) in
      let none_left : t.in_flight + t.signals + waiting t.received ≡ 0 =
        p ∙ ap (λ q. length q) empty in
      (
        t,
        reach',
        empty,
        omega (arith, none_left),
        omega (arith, none_left),
        waiting-none t.received (omega (arith, none_left)),
      )
