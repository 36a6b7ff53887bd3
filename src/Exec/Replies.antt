-- ===== src/Exec/Replies.antt =====
-- When `exec` finds no job, and what it sends back.
use notifs_piper.Common.{
  sym, ap, ◌∙◌, ℕ, ◌≡◌, ◌≢◌, ◌↔◌, ◌≤◌, ◌⊎◌, inl, inr, refl, ◌∙◌, none, List, [], ◌∷◌, ◌++◌, ok,
  arith, ok-injective, Bool-cases, Option-cases, >>=-eq-ok, Bool,
}
use notifs_piper.Text.{Text}
use notifs_piper.Text.Decimal.{max_of}
use notifs_piper.Event.{Serde}
use notifs_piper.Job.{JobDesc}
use notifs_piper.Fulfilled.{FulfilledJob, value, fulfilled_to_string}
use notifs_piper.Transmission.{
  outgoing, from_fulfilled, transmission_from_str, transmission_to_string,
}
use notifs_piper.Transmission.RoundTrip.{transmission_from_str-to_string}
use notifs_piper.Execute.Bus.{Server}
use notifs_piper.Execute.{execute}
use notifs_piper.Exec.{
  is_value_none, state_of, ExecState, executed, noop, Io, Daemon, persist, reply, run_job,
  is_drained, exec,
}

module _ {Hints : Type 0} (serde : Serde Hints) (io : Io) where
  reply-ne-noop :
      (pid : ℕ) (fj : FulfilledJob) (d d' : Daemon Hints) → reply io pid fj d ≢ ok (d', noop)
  unfolding reply
  reply-ne-noop pid fj d d' = λ h. ground arith

  run_job-ne-noop :
      (jd : JobDesc Hints) (empty : Bool) (d d' : Daemon Hints)
      → run_job serde io jd empty d ≢ ok (d', noop)
  unfolding run_job
  run_job-ne-noop jd empty d d' = λ h.
      let ((s, fj), he, h1) = >>=-eq-ok (execute serde io.env jd.cmd jd.desc d.server) _ h in
      let (d'', hp, h2) = >>=-eq-ok (persist serde io empty (record d { server = s })) _ h1 in
      reply-ne-noop jd.desc.pid fj d'' d' h2

  noop_by :
      (queue : List (JobDesc Hints)) (d d' : Daemon Hints)
      → d.queue ≡ queue
      → exec serde io d ≡ ok (d', noop)
      → queue ≡ []
  unfolding exec
  noop_by [] d d' e h = refl
  noop_by (jd ∷ rest) d d' e h = absurd (run_job-ne-noop jd (is_drained rest) _ d' (rw e at h))

  pub exec-nil : (d : Daemon Hints) → d.queue ≡ [] → exec serde io d ≡ ok (d, noop)
  unfolding exec
  exec-nil d e = rw e

  -- `exec` reports that there was no job exactly when the queue is empty.
  pub exec_noop_iff :
      (d : Daemon Hints)
      → ((d' : Daemon Hints) × (exec serde io d ≡ ok (d', noop))) ↔ (d.queue ≡ [])
  exec_noop_iff d = (λ h. noop_by d.queue d h.0 refl h.1, λ e. (d, exec-nil d e))

  -- The parts of the daemon that writing the logs leaves alone.
  pub persist_keeps :
      (empty : Bool) (d d' : Daemon Hints)
      → persist serde io empty d ≡ ok d'
      → (d'.sent ≡ d.sent) × (d'.queue ≡ d.queue)
  unfolding persist
  persist_keeps empty d d' h = ground arith

module _ {Hints : Type 0} where
  reply_queue :
      (io : Io) (pid : ℕ) (fj : FulfilledJob) (d : Daemon Hints) (r : Daemon Hints × ExecState)
      → reply io pid fj d ≡ ok r
      → r.0.queue ≡ d.queue
  unfolding reply
  reply_queue io pid fj d r h = ground arith

-- What was sent of an answer: nothing, or one transmission that the listener reads as this answer
-- to this process.
abbrev pub IsSent : ℕ → FulfilledJob → List Text → List Text → Type 0
IsSent pid fj before after =
    ((fj.result ≡ value none) × (after ≡ before))
    ⊎ ((fj.result ≢ value none)
        × ((t : Text) × (after ≡ before ++ t ∷ [])
            × (transmission_from_str t
                ≡ ok (record { typ = outgoing pid; data_text = fulfilled_to_string fj }))))

reply-IsSent :
    {Hints : Type 0} (io : Io) (pid : ℕ) (fj : FulfilledJob) (d : Daemon Hints)
    (r : Daemon Hints × ExecState)
    → pid ≤ max_of 32
    → reply io pid fj d ≡ ok r
    → (r.0.queue ≡ d.queue) × IsSent pid fj d.sent r.0.sent
unfolding reply from_fulfilled
reply-IsSent io pid fj d r fits h = elim (Bool-cases (is_value_none fj.result)) [
  | inl e ↦
      let q : ok (d, executed) ≡ ok r = rw e at h in
      rw (← ok-injective q) (refl, inl (ground arith, refl))
  | inr e ↦ elim (Option-cases io.socket_error) [
    | inl w ↦
        let t = transmission_to_string (from_fulfilled fj pid) in
        let q : ok (record d { sent = d.sent ++ t ∷ [] }, state_of fj.result) ≡ ok r =
          rw (e, w) at h in
        let back = transmission_from_str-to_string (from_fulfilled fj pid) fits in
        rw (← ok-injective q) (refl, inr (ground arith, (t, refl, back)))
    | inr (x, w) ↦ let q = rw (e, w) at h in cc
  ]
]

-- The answer leaves the server alone, and the file at most clears its mark.
reply-server :
    {Hints : Type 0} (io : Io) (pid : ℕ) (fj : FulfilledJob) (d : Daemon Hints)
    (r : Daemon Hints × ExecState)
    → reply io pid fj d ≡ ok r
    → r.0.server ≡ d.server
unfolding reply
reply-server io pid fj d r h = ground arith

persist-server :
    {Hints : Type 0} (serde : Serde Hints) (io : Io) (empty : Bool) (d d' : Daemon Hints)
    → persist serde io empty d ≡ ok d'
    → d'.server ≡ record d.server { man = record d.server.man { dirty = d'.server.man.dirty } }
unfolding persist
persist-server serde io empty d d' h = ground arith

module _ {Hints : Type 0} (serde : Serde Hints) (io : Io) where
  -- A call of `exec` that succeeds has run the first job of the queue, whose pid fits in 32 bits,
  -- and taken it out. The server is what the job has left, but for the mark that the logs are to be
  -- written. It has sent nothing if the job's result is `Ok(None)`, and otherwise one
  -- transmission, which is parsed as the job's answer to the process that asked.
  pub exec-IsSent :
      (d d' : Daemon Hints) (st : ExecState) (jd : JobDesc Hints) (rest : List (JobDesc Hints))
      → d.queue ≡ jd ∷ rest
      → jd.desc.pid ≤ max_of 32
      → exec serde io d ≡ ok (d', st)
      → (s : Server Hints) × (fj : FulfilledJob) × (execute serde io.env jd.cmd jd.desc d.server
          ≡ ok (s, fj))
        × (d'.server ≡ record s { man = record s.man { dirty = d'.server.man.dirty } })
        × (d'.queue ≡ rest)
        × IsSent jd.desc.pid fj d.sent d'.sent
  unfolding exec run_job
  exec-IsSent d d' st jd rest e fits h =
      let ((s, fj), he, h1) =
        >>=-eq-ok (execute serde io.env jd.cmd jd.desc d.server) _ (rw e at h) in
      let start : Daemon Hints = record d { queue = rest; server = s } in
      let (d'', hp, h2) = >>=-eq-ok (persist serde io (is_drained rest) start) _ h1 in
      let (same_sent, same_queue) = persist_keeps serde io (is_drained rest) start d'' hp in
      let (queue, sent) = reply-IsSent io jd.desc.pid fj d'' (d', st) fits h2 in
      let left = persist-server serde io (is_drained rest) start d'' hp in
      let same = reply-server io jd.desc.pid fj d'' (d', st) h2 in
      let kept =
        same
        ∙ left
        ∙ ap (λ x. record s { man = record s.man { dirty = x.man.dirty } }) (sym same) in
      (s, fj, he, kept, queue ∙ same_queue, rw same_sent at sent)

  run_job-queue :
      (jd : JobDesc Hints) (empty : Bool) (d : Daemon Hints) (r : Daemon Hints × ExecState)
      → run_job serde io jd empty d ≡ ok r
      → r.0.queue ≡ d.queue
  unfolding run_job
  run_job-queue jd empty d r h =
      let ((s, fj), he, h1) = >>=-eq-ok (execute serde io.env jd.cmd jd.desc d.server) _ h in
      let start : Daemon Hints = record d { server = s } in
      let (d'', hp, h2) = >>=-eq-ok (persist serde io empty start) _ h1 in
      reply_queue io jd.desc.pid fj d'' r h2 ∙ (persist_keeps serde io empty start d'' hp).1

  -- A call of `exec` that succeeds takes one job out of the queue, if there is one.
  pub exec-queue :
      (d d' : Daemon Hints) (st : ExecState) (jd : JobDesc Hints) (rest : List (JobDesc Hints))
      → d.queue ≡ jd ∷ rest
      → exec serde io d ≡ ok (d', st)
      → d'.queue ≡ rest
  unfolding exec
  exec-queue d d' st jd rest e h =
      run_job-queue jd (is_drained rest) (record d { queue = rest }) (d', st) (rw e at h)
