-- ===== src/Exec/Persistence.antt =====
-- `exec` of server/manager.rs and the file at `logs_path`.
use notifs_piper.Common.{
  ℕ, ◌≡◌, ◌⊎◌, inl, inr, refl, ap, sym, ◌∙◌, ◌∙◌, Bool, true, false, ◌&&◌, Option, none, some, List,
  [], ◌∷◌, Outcome, ok, arith, ok-injective, >>=-eq-ok, Bool-cases, Option-cases,
}
use mathlib.Core.Path.{subst}
use notifs_piper.Text.{Text}
use notifs_piper.Event.{NotificationEvent, Serde, IsLawful}
use notifs_piper.Job.{JobDesc}
use notifs_piper.Fulfilled.{FulfilledJob}
use notifs_piper.Execute.Bus.{Server}
use notifs_piper.Execute.{execute}
use notifs_piper.Execute.Invariants.{execute_clean}
use notifs_piper.Exec.Replies.{exec-nil}
use notifs_piper.Exec.{ExecState, Io, Daemon, saved, persist, reply, run_job, is_drained, exec}

module _ {Hints : Type 0} (serde : Serde Hints) where
  -- What a start of the daemon reads: no file is the empty buffer.
  abbrev pub load : Option Text → Outcome Text (List (NotificationEvent Hints))
  load none = ok []
  load (some t) = serde.logs_from_str t

  -- The manager is marked for writing, or a start of the daemon would read the buffer from the
  -- file.
  abbrev pub IsSaved : Daemon Hints → Type 0
  IsSaved d = (d.server.man.dirty ≡ true) ⊎ (load d.logs_file ≡ ok d.server.man.logs_buffer)

  abbrev CleanSaved : Daemon Hints → Type 0
  CleanSaved d = d.server.man.dirty ≡ false → load d.logs_file ≡ ok d.server.man.logs_buffer

  clean-IsSaved : (d : Daemon Hints) → CleanSaved d → IsSaved d
  clean-IsSaved d c = elim (Bool-cases d.server.man.dirty) [ inl e ↦ inl e | inr e ↦ inr (c e) ]

  IsSaved-clean : (d : Daemon Hints) → IsSaved d → CleanSaved d
  IsSaved-clean d s = λ c. elim s [ inl e ↦ cc | inr e ↦ e ]

module _ {Hints : Type 0} where
  -- The parts of the daemon that an answer leaves alone.
  pub reply_keeps :
      (io : Io) (pid : ℕ) (fj : FulfilledJob) (d : Daemon Hints) (r : Daemon Hints × ExecState)
      → reply io pid fj d ≡ ok r
      → (r.0.server ≡ d.server) × (r.0.logs_file ≡ d.logs_file) × (r.0.queue ≡ d.queue)
  unfolding reply
  reply_keeps io pid fj d r h = ground arith

module _ {Hints : Type 0} {serde : Serde Hints} (lawful : IsLawful serde) (io : Io) where
  persist-IsSaved :
      (empty : Bool) (d d' : Daemon Hints)
      → persist serde io empty d ≡ ok d'
      → CleanSaved serde d
      → CleanSaved serde d' × (empty ≡ true → d'.server.man.dirty ≡ false)
  unfolding persist
  persist-IsSaved empty d d' h saved_before = elim (Bool-cases (empty && d.server.man.dirty)) [
    | inl e ↦ elim (Option-cases io.write_error) [
      | inl w ↦
          let q : ok (saved serde d) ≡ ok d' = rw (e, w) at h in
          rw (← ok-injective q) ((λ _. lawful.logs_round d.server.man.logs_buffer), λ _. refl)
      | inr (x, w) ↦ let q = rw (e, w) at h in cc
    ]
    | inr e ↦
        let q : ok d ≡ ok d' = rw e at h in
        rw (← ok-injective q) (saved_before, λ drained. ground arith)
  ]

  -- A job that leaves the manager unmarked has not changed the buffer.
  execute-IsSaved :
      (jd : JobDesc Hints) (d : Daemon Hints) (s : Server Hints) (fj : FulfilledJob)
      → execute serde io.env jd.cmd jd.desc d.server ≡ ok (s, fj)
      → CleanSaved serde d
      → CleanSaved serde (record d { server = s })
  execute-IsSaved jd d s fj h saved_before c =
      let e = execute_clean serde io.env jd.desc d.server s fj jd.cmd h c in
      rw e (saved_before (rw e at c))

  run_job-IsSaved :
      (jd : JobDesc Hints) (empty : Bool) (d : Daemon Hints) (r : Daemon Hints × ExecState)
      → run_job serde io jd empty d ≡ ok r
      → CleanSaved serde d
      → CleanSaved serde r.0 × (empty ≡ true → r.0.server.man.dirty ≡ false)
  unfolding run_job
  run_job-IsSaved jd empty d r h saved_before =
      let ((s, fj), he, h1) = >>=-eq-ok (execute serde io.env jd.cmd jd.desc d.server) _ h in
      let (d', hp, h2) = >>=-eq-ok (persist serde io empty (record d { server = s })) _ h1 in
      let (kept, drained) =
        persist-IsSaved empty (record d { server = s }) d' hp
          (execute-IsSaved jd d s fj he saved_before) in
      let (same_server, same_file, _) = reply_keeps io jd.desc.pid fj d' r h2 in
      rw (same_server, same_file) (kept, drained)

  exec_cases :
      (queue : List (JobDesc Hints)) (d d' : Daemon Hints) (st : ExecState)
      → d.queue ≡ queue
      → exec serde io d ≡ ok (d', st)
      → CleanSaved serde d
      → CleanSaved serde d' × ((jd : JobDesc Hints) → queue ≡ jd ∷ [] → d'.server.man.dirty ≡ false)
  unfolding exec
  exec_cases [] d d' st e h s =
      let q' = ok-injective (sym (exec-nil serde io d e) ∙ h) in
      (subst (λ x. CleanSaved serde x) (ap (λ x. x.0) q') s, λ jd none_left. cc)
  exec_cases (jd ∷ rest) d d' st e h s =
      let ran = rw e at h in
      let (kept, drained) =
        run_job-IsSaved jd (is_drained rest) (record d { queue = rest }) (d', st) ran s in
      (kept, λ last one. drained (ground arith))

  -- If the JSON of the logs is read back as printed, a call of `exec` that succeeds keeps this: the
  -- manager is marked for writing, or a start of the daemon would read the buffer from the file.
  pub exec-IsSaved :
      (d d' : Daemon Hints) (st : ExecState)
      → exec serde io d ≡ ok (d', st)
      → IsSaved serde d
      → IsSaved serde d'
  exec-IsSaved d d' st h s =
      clean-IsSaved serde d' (exec_cases d.queue d d' st refl h (IsSaved-clean serde d s)).0

  -- If the JSON of the logs is read back as printed, and the manager was marked for writing or its
  -- buffer was in the file, a call of `exec` that succeeds on the last job of the queue leaves a
  -- file from which a start of the daemon would read the buffer.
  pub exec_last-load :
      (d d' : Daemon Hints) (st : ExecState) (jd : JobDesc Hints)
      → d.queue ≡ jd ∷ []
      → exec serde io d ≡ ok (d', st)
      → IsSaved serde d
      → load serde d'.logs_file ≡ ok d'.server.man.logs_buffer
  exec_last-load d d' st jd one h s =
      let (kept, drained) = exec_cases d.queue d d' st refl h (IsSaved-clean serde d s) in
      kept (drained jd one)
