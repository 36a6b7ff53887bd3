-- ===== src/Server/Session/Stored.antt =====
-- Which ids a job leaves in the logs.
use mathlib.Core.List.{Subset, Nodup, Subset-refl, Subset-trans, subset-cons_of_subset}
use mathlib.Core.List.Perm
use mathlib.Core.List.Sublist
use notifs_piper.Common.{
  ℕ, ◌≡◌, inl, inr, Bool, List, ◌∷◌, length, ok, arith, >>=-eq-ok, Bool-cases, Option-cases, ◌==◌,
}
use notifs_piper.Event.{NotificationEvent, Serde}
use notifs_piper.Job.{Job, JobDesc, broadcast, Desc}
use notifs_piper.Fulfilled.{FulfilledJob}
use notifs_piper.Manager.{LogsManager, find, append_notification, remove_notification}
use notifs_piper.Manager.Buffer.{pop_back-sublist}
use notifs_piper.Manager.Removal.{
  ids, map-pop_back, remove_notification-none, remove_notification-some,
}
use notifs_piper.Execute.Bus.{Env, Server}
use notifs_piper.Execute.{execute}
use notifs_piper.Execute.Broadcast.{replace}
use notifs_piper.Execute.Later.{execute-Keeps, ids-Later}
use notifs_piper.Execute.Invariants.{man-execute_broadcast, execute-Nodup}
use notifs_piper.Exec.{ExecState, Io, Daemon, persist, run_job, is_drained, exec}
use notifs_piper.Exec.Persistence.{reply_keeps}
use notifs_piper.Server.Session.Seen.{IsNew, noted, IsNew-IsFresh, cons-Subset}

module _ {Hints : Type 0} where
  remove_notification-Subset :
      (man : LogsManager Hints) (nid : ℕ)
      → Subset (ids (remove_notification man nid).0.logs_buffer) (ids man.logs_buffer)
  remove_notification-Subset man nid = elim (Option-cases (find nid man.logs_buffer)) [
    | inl e ↦ rw (remove_notification-none man nid e) (Subset-refl (ids man.logs_buffer))
    | inr (ne, e) ↦
        let (rest, removed, p) = remove_notification-some man nid ne e in
        rw removed (
          Subset-trans (subset-cons_of_subset ne.id (Subset-refl (ids rest)))
            (Perm.subset (Perm.symm (Perm.map (λ x. x.id) p))))
  ]

  replace-Subset :
      (man : LogsManager Hints) (ne : NotificationEvent Hints)
      → Subset (ids (replace man ne).logs_buffer) (ids man.logs_buffer)
  unfolding replace
  replace-Subset man ne = elim (Bool-cases (ne.replaces_id == 0)) [
    | inl e ↦ rw e (Subset-refl (ids man.logs_buffer))
    | inr e ↦ rw e (remove_notification-Subset man ne.replaces_id)
  ]

  append_notification-Subset :
      (man : LogsManager Hints) (ne : NotificationEvent Hints)
      → Subset (ids (append_notification man ne).logs_buffer) (ne.id ∷ ids man.logs_buffer)
  unfolding append_notification
  append_notification-Subset man ne =
      elim (Bool-cases (length man.logs_buffer == man.logs_config.max_logs)) [
        | inl e ↦
            rw (e, map-pop_back man.logs_buffer)
              (Sublist.subset (Sublist.cons-cons ne.id (pop_back-sublist (ids man.logs_buffer))))
        | inr e ↦ rw e (Subset-refl (ne.id ∷ ids man.logs_buffer))
      ]

module _ {Hints : Type 0} (serde : Serde Hints) where
  -- A job leaves no id in the logs but those that were there and that of its broadcast.
  execute-Subset :
      (env : Env) (job : Job Hints) (desc : Desc) (s s' : Server Hints) (fj : FulfilledJob)
      → execute serde env job desc s ≡ ok (s', fj)
      → Subset (ids s'.man.logs_buffer) (noted job (ids s.man.logs_buffer))
  unfolding execute
  execute-Subset env (broadcast ne) desc s s' fj h =
      rw (man-execute_broadcast serde env ne s (s', fj) h) (
        Subset-trans (append_notification-Subset (replace s.man ne) ne) (
          cons-Subset ne.id (ids (replace s.man ne).logs_buffer) (ids s.man.logs_buffer)
            (replace-Subset s.man ne)))
  execute-Subset env job desc s s' fj h =
      rw
        (← ids-Later s.man.logs_buffer s'.man.logs_buffer
          (execute-Keeps serde env job desc s (s', fj) (λ x. x) h).later)
        (Subset-refl (ids s.man.logs_buffer))

  persist-logs :
      (io : Io) (empty : Bool) (d d' : Daemon Hints)
      → persist serde io empty d ≡ ok d'
      → d'.server.man.logs_buffer ≡ d.server.man.logs_buffer
  unfolding persist
  persist-logs io empty d d' h = ground arith

  -- The logs behind a job of the queue are those that its execution leaves.
  pub exec-logs :
      (io : Io) (d d' : Daemon Hints) (st : ExecState) (jd : JobDesc Hints)
      (rest : List (JobDesc Hints))
      → d.queue ≡ jd ∷ rest
      → exec serde io d ≡ ok (d', st)
      → (s' : Server Hints) × (fj : FulfilledJob) × (execute serde io.env jd.cmd jd.desc d.server
          ≡ ok (s', fj))
        × (d'.server.man.logs_buffer ≡ s'.man.logs_buffer)
  unfolding exec run_job
  exec-logs io d d' st jd rest e h =
      let run : run_job serde io jd (is_drained rest) (record d { queue = rest }) ≡ ok (d', st) =
        rw e at h in
      let ((s, fj), he, h1) = >>=-eq-ok (execute serde io.env jd.cmd jd.desc d.server) _ run in
      let (d1, hp, h2) =
        >>=-eq-ok (persist serde io (is_drained rest) (record d { queue = rest; server = s })) _
          h1 in
      let (same_server, _, _) = reply_keeps io jd.desc.pid fj d1 (d', st) h2 in
      (
        s,
        fj,
        he,
        rw same_server
            (persist-logs io (is_drained rest) (record d { queue = rest; server = s }) d1 hp),
      )

  -- If the job is new among the ids of the logs, they are distinct behind it as before.
  pub exec-ids :
      (io : Io) (d d' : Daemon Hints) (st : ExecState) (jd : JobDesc Hints)
      (rest : List (JobDesc Hints))
      → d.queue ≡ jd ∷ rest
      → exec serde io d ≡ ok (d', st)
      → IsNew (ids d.server.man.logs_buffer) jd.cmd
      → Nodup (ids d.server.man.logs_buffer)
      → Nodup (ids d'.server.man.logs_buffer)
        × Subset (ids d'.server.man.logs_buffer) (noted jd.cmd (ids d.server.man.logs_buffer))
  exec-ids io d d' st jd rest e h new distinct =
      let (s', fj, ran, same) = exec-logs io d d' st jd rest e h in
      rw same (
        execute-Nodup serde io.env jd.desc d.server s' fj jd.cmd ran
            (IsNew-IsFresh d.server.man.logs_buffer jd.cmd new) distinct,
        execute-Subset io.env jd.cmd jd.desc d.server s' fj ran,
      )
