-- ===== src/Server/History/Serving.antt =====
-- A call of `exec` serves the first job of the queue.
use mathlib.Core.List.{Nodup}
use notifs_piper.Common.{
  false, length, ◌<◌, ℕ, ◌≡◌, refl, sym, ap, ◌∙◌, Bool, List, [], ◌∷◌, ◌++◌, append-nil, ok, arith,
  ok-injective, >>=-eq-ok, Bool-cases, Option-cases, inl, inr,
}
use notifs_piper.Event.{Serde}
use notifs_piper.Job.{
  JobDesc, Job, acknowledge, broadcast, close, query, read, action_invoked, activation_token, watch,
}
use notifs_piper.Execute.Invariants.{replace_shape}
use notifs_piper.Fulfilled.{FulfilledJob}
use notifs_piper.Manager.{LogsManager, find}
use notifs_piper.Manager.Removal.{ids}
use notifs_piper.Manager.Store.{view}
use notifs_piper.Execute.Bus.{Server}
use notifs_piper.Execute.Refinement.{execute-Becomes}
use notifs_piper.Execute.Results.{execute-Answers, execute-interface}
use notifs_piper.Execute.Spec.{is_full, takes_signals}
use notifs_piper.Execute.{execute}
use notifs_piper.Transmission.{from_fulfilled, transmission_to_string}
use notifs_piper.Exec.{
  executed, state_of, ExecState, Io, Daemon, persist, reply, run_job, is_drained, exec,
  is_value_none,
}
use notifs_piper.Exec.Replies.{persist_keeps}
use notifs_piper.Exec.Persistence.{reply_keeps}
use notifs_piper.Server.Safety.{execute-config}
use notifs_piper.Server.History.{Served, visible, texts_of}

module _ {Hints : Type 0} where
  reply-sent :
      (io : Io) (pid : ℕ) (fj : FulfilledJob) (d : Daemon Hints) (r : Daemon Hints × ExecState)
      → reply io pid fj d ≡ ok r
      → r.0.sent ≡ d.sent ++ texts_of pid fj
  unfolding reply
  reply-sent io pid fj d r h = elim (Bool-cases (is_value_none fj.result)) [
    | inl e ↦
        let q : ok (d, executed) ≡ ok r = rw e at h in
        rw (← ok-injective q, e) (sym (append-nil d.sent))
    | inr e ↦ elim (Option-cases io.socket_error) [
      | inl w ↦
          let t = transmission_to_string (from_fulfilled fj pid) in
          let q : ok (record d { sent = d.sent ++ t ∷ [] }, state_of fj.result) ≡ ok r =
            rw (e, w) at h in
          rw (← ok-injective q, e) refl
      | inr (x, w) ↦ let q = rw (e, w) at h in cc
    ]
  ]

  persist-man :
      (serde : Serde Hints) (io : Io) (empty : Bool) (d d' : Daemon Hints)
      → persist serde io empty d ≡ ok d'
      → (d'.server.man.logs_buffer ≡ d.server.man.logs_buffer)
        × (d'.server.man.logs_config ≡ d.server.man.logs_config)
        × (d'.server.man.interface ≡ d.server.man.interface)
        × (d'.server.emitted ≡ d.server.emitted)
  unfolding persist
  persist-man serde io empty d d' h = ground arith

  -- No job finds the buffer full while there is room in it.
  room_left :
      (job : Job Hints) (man : LogsManager Hints)
      → length man.logs_buffer < man.logs_config.max_logs
      → is_full job man ≡ false
  room_left (broadcast ne) man h =
      let (config, shorter) = replace_shape man ne in ground (arith, shorter)
  room_left (acknowledge id) man h = refl
  room_left (close id reason) man h = refl
  room_left (query id) man h = refl
  room_left (read start end) man h = refl
  room_left (action_invoked id key) man h = refl
  room_left (activation_token id token) man h = refl
  room_left watch man h = refl

module _ {Hints : Type 0} (serde : Serde Hints) (io : Io) (d d' : Daemon Hints) (st : ExecState)
    (jd : JobDesc Hints) (rest : List (JobDesc Hints)) where
  -- What `exec` leaves, by the execution of its job.
  exec-parts :
      d.queue ≡ jd ∷ rest
      → exec serde io d ≡ ok (d', st)
      → (s : Server Hints) × (fj : FulfilledJob) × (execute serde io.env jd.cmd jd.desc d.server
          ≡ ok (s, fj))
        × (d'.server.man.logs_buffer ≡ s.man.logs_buffer)
        × (d'.server.man.logs_config ≡ s.man.logs_config)
        × (d'.server.man.interface ≡ s.man.interface)
        × (d'.server.emitted ≡ s.emitted)
        × (d'.sent ≡ d.sent ++ texts_of jd.desc.pid fj)
  unfolding exec run_job
  exec-parts e h =
      let ((s, fj), he, h1) =
        >>=-eq-ok (execute serde io.env jd.cmd jd.desc d.server) _ (rw e at h) in
      let start : Daemon Hints = record d { queue = rest; server = s } in
      let (d1, hp, h2) = >>=-eq-ok (persist serde io (is_drained rest) start) _ h1 in
      let (sent, _) = persist_keeps serde io (is_drained rest) start d1 hp in
      let (logs, config, up, emitted) = persist-man serde io (is_drained rest) start d1 hp in
      let (same, _, _) = reply_keeps io jd.desc.pid fj d1 (d', st) h2 in
      (
        s,
        fj,
        he,
        ap (λ x. x.man.logs_buffer) same ∙ logs,
        ap (λ x. x.man.logs_config) same ∙ config,
        ap (λ x. x.man.interface) same ∙ up,
        ap (λ x. x.emitted) same ∙ emitted,
        reply-sent io jd.desc.pid fj d1 (d', st) h2 ∙ ap (λ l. l ++ texts_of jd.desc.pid fj) sent,
      )

  pub exec-Served :
      d.queue ≡ jd ∷ rest
      → exec serde io d ≡ ok (d', st)
      → Nodup (ids d.server.man.logs_buffer)
      → Served serde d.server.man.logs_config
          (takes_signals io.env d.server.man.interface)
          jd
          (visible d)
          (visible d')
        × (d'.server.man.logs_config ≡ d.server.man.logs_config)
        × (d'.server.man.interface ≡ d.server.man.interface)
  exec-Served e h before =
      let (s, fj, ran, logs, config, up, emitted, sent) = exec-parts e h in
      let same : view d'.server.man ≡ view s.man = λ i id. find id (logs i) in
      (
        record {
          full = is_full jd.cmd d.server.man;
          answer = fj;
          changes = rw same (execute-Becomes serde io.env jd.desc d.server s fj jd.cmd before ran);
          room = room_left jd.cmd d.server.man;
          answers =
              rw (logs, emitted) (execute-Answers serde io.env jd.desc d.server s fj jd.cmd ran);
          sends = sent;
        },
        config ∙ execute-config serde io.env jd.desc d.server s fj jd.cmd ran,
        up ∙ execute-interface serde io.env jd.desc d.server s fj jd.cmd ran,
      )
