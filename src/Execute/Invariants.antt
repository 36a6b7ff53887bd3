-- ===== src/Execute/Invariants.antt =====
-- The jobs of server/jobs and the manager's buffer: its bound, its ids, and what a query tells.
use mathlib.Core.List.{Nodup, Mem}
use notifs_piper.Common.{
  ℕ, ◌≤◌, ◌<◌, ◌≡◌, ◌≢◌, ◌⊎◌, inl, inr, refl, true, false, List, ◌∷◌, length, ok, arith,
  ok-injective, >>=-eq-ok, Bool-cases, Option-cases, ◌==◌,
}
use notifs_piper.Event.{NotificationEvent, Serde}
use notifs_piper.Job.{Job, broadcast, Desc}
use notifs_piper.Fulfilled.{FulfilledJob}
use notifs_piper.Manager.{LogsManager, find, remove_notification, append_notification}
use notifs_piper.Manager.Buffer.{length-perm}
use notifs_piper.Manager.Retention.{
  IsBounded, length-append_notification_bounded, append_notification-find,
  config-append_notification,
}
use notifs_piper.Manager.Removal.{
  ids, remove_notification-none, remove_notification-some, remove_notification-Nodup,
  append_notification-Nodup,
}
use notifs_piper.Execute.Bus.{Env, Server}
use notifs_piper.Execute.Broadcast.{execute_broadcast, replace, spawn}
use notifs_piper.Execute.Later.{
  Keeps, execute-Keeps, ids-Later, length-Later, closed-Later, IsBroadcast,
}
use notifs_piper.Execute.{execute, closed_or_false}

module _ {Hints : Type 0} where
  -- A removal keeps the configuration and does not lengthen the buffer.
  remove_shape :
      (man : LogsManager Hints) (nid : ℕ)
      → ((remove_notification man nid).0.logs_config ≡ man.logs_config)
        × (length (remove_notification man nid).0.logs_buffer ≤ length man.logs_buffer)
  remove_shape man nid = elim (Option-cases (find nid man.logs_buffer)) [
    | inl e ↦ rw (remove_notification-none man nid e) (refl, omega arith)
    | inr (ne, e) ↦
        let (rest, removed, p) = remove_notification-some man nid ne e in
        rw removed (refl, omega (arith, length-perm man.logs_buffer (ne ∷ rest) p))
  ]

  pub replace_shape :
      (man : LogsManager Hints) (ne : NotificationEvent Hints)
      → ((replace man ne).logs_config ≡ man.logs_config)
        × (length (replace man ne).logs_buffer ≤ length man.logs_buffer)
  unfolding replace
  replace_shape man ne = ground (arith, remove_shape man ne.replaces_id)

  pub replace-Nodup :
      (man : LogsManager Hints) (ne : NotificationEvent Hints)
      → Nodup (ids man.logs_buffer)
      → Nodup (ids (replace man ne).logs_buffer)
  unfolding replace
  replace-Nodup man ne d = elim (Bool-cases (ne.replaces_id == 0)) [
    | inl e ↦ rw e d
    | inr e ↦ rw e (remove_notification-Nodup man ne.replaces_id d).0
  ]

-- A notification that the bus interface has made: it replaces the one of its own id, or its id is
-- not in the buffer.
abbrev pub IsFresh : {Hints : Type 0} → List (NotificationEvent Hints) → Job Hints → Type 0
IsFresh l (broadcast ne) =
    ((ne.replaces_id ≢ 0) × (ne.id ≡ ne.replaces_id))
    ⊎ ((ne.replaces_id ≡ 0) × (¬ Mem ne.id (ids l)))
IsFresh l _ = Unit {0}

module _ {Hints : Type 0} (man : LogsManager Hints) (ne : NotificationEvent Hints) where
  replace-fresh :
      Nodup (ids man.logs_buffer)
      → IsFresh man.logs_buffer (broadcast ne)
      → ¬ Mem ne.id (ids (replace man ne).logs_buffer)
  unfolding replace
  replace-fresh d (inl (some_id, same)) =
      let e : (ne.replaces_id == 0) ≡ false = ground arith in
      rw (e, same) (remove_notification-Nodup man ne.replaces_id d).1
  replace-fresh d (inr (no_id, fresh)) = rw no_id fresh

module _ {Hints : Type 0} (serde : Serde Hints) (env : Env) (ne : NotificationEvent Hints)
    (s : Server Hints) where
  -- The manager behind a broadcast.
  pub man-execute_broadcast :
      (r : Server Hints × FulfilledJob)
      → execute_broadcast serde env ne s ≡ ok r
      → r.0.man ≡ append_notification (replace s.man ne) ne
  unfolding execute_broadcast
  man-execute_broadcast r h =
      let (spawned, _, e) = >>=-eq-ok (spawn env (replace s.man ne) ne) _ h in rw (← ok-injective e)

module _ {Hints : Type 0} (serde : Serde Hints) (env : Env) where
  broadcast-IsBounded :
      (ne : NotificationEvent Hints) (s : Server Hints) (r : Server Hints × FulfilledJob)
      → execute_broadcast serde env ne s ≡ ok r
      → 0 < s.man.logs_config.max_logs
      → IsBounded s.man
      → IsBounded r.0.man
  broadcast-IsBounded ne s r h room b =
      let (config, shorter) = replace_shape s.man ne in
      let fits = length-append_notification_bounded (replace s.man ne) ne in
      rw
        (man-execute_broadcast serde env ne s r h, config-append_notification (replace s.man ne) ne)
        (ground (arith, config, shorter, fits))

  broadcast-Nodup :
      (ne : NotificationEvent Hints) (s : Server Hints) (r : Server Hints × FulfilledJob)
      → execute_broadcast serde env ne s ≡ ok r
      → IsFresh s.man.logs_buffer (broadcast ne)
      → Nodup (ids s.man.logs_buffer)
      → Nodup (ids r.0.man.logs_buffer)
  broadcast-Nodup ne s r h fresh d = rw (man-execute_broadcast serde env ne s r h) (
      append_notification-Nodup (replace s.man ne) ne (replace-Nodup s.man ne d)
        (replace-fresh s.man ne d fresh))

job-IsBounded :
    {Hints : Type 0} (man man' : LogsManager Hints)
    → Keeps man man'
    → IsBounded man
    → IsBounded man'
job-IsBounded man man' k b = ground (arith, length-Later man.logs_buffer man'.logs_buffer k.later)

job-Nodup :
    {Hints : Type 0} (man man' : LogsManager Hints)
    → Keeps man man'
    → Nodup (ids man.logs_buffer)
    → Nodup (ids man'.logs_buffer)
job-Nodup man man' k d = rw (← ids-Later man.logs_buffer man'.logs_buffer k.later) d

module _ {Hints : Type 0} (serde : Serde Hints) (env : Env) (desc : Desc) (s s' : Server Hints)
    (fj : FulfilledJob) where
  -- With room for at least one notification, a job that succeeds keeps the buffer within its bound.
  pub execute-IsBounded :
      (job : Job Hints)
      → execute serde env job desc s ≡ ok (s', fj)
      → 0 < s.man.logs_config.max_logs
      → IsBounded s.man
      → IsBounded s'.man
  unfolding execute
  execute-IsBounded (broadcast ne) h room b = broadcast-IsBounded serde env ne s (s', fj) h room b
  execute-IsBounded job h room b =
      job-IsBounded s.man s'.man (execute-Keeps serde env job desc s (s', fj) (λ x. x) h) b

  -- A job that succeeds keeps this: no two stored notifications have the same id. A broadcast must
  -- either replace the notification of its own id or have an id that is not stored.
  pub execute-Nodup :
      (job : Job Hints)
      → execute serde env job desc s ≡ ok (s', fj)
      → IsFresh s.man.logs_buffer job
      → Nodup (ids s.man.logs_buffer)
      → Nodup (ids s'.man.logs_buffer)
  unfolding execute
  execute-Nodup (broadcast ne) h fresh d = broadcast-Nodup serde env ne s (s', fj) h fresh d
  execute-Nodup job h fresh d =
      job-Nodup s.man s'.man (execute-Keeps serde env job desc s (s', fj) (λ x. x) h) d

  -- What a query answers with `true` it answers so after every job that succeeds and is no
  -- broadcast.
  pub execute_stays_closed :
      (job : Job Hints) (nid : ℕ)
      → execute serde env job desc s ≡ ok (s', fj)
      → ¬ IsBroadcast job
      → closed_or_false (find nid s.man.logs_buffer) ≡ true
      → closed_or_false (find nid s'.man.logs_buffer) ≡ true
  execute_stays_closed job nid h b c =
      closed-Later nid s.man.logs_buffer s'.man.logs_buffer
        (execute-Keeps serde env job desc s (s', fj) b h).later c

  -- Behind a broadcast that succeeds, a query for its id answers as the new notification says,
  -- whatever was stored under that id before.
  pub broadcast_forgets_closed :
      (ne : NotificationEvent Hints)
      → execute serde env (broadcast ne) desc s ≡ ok (s', fj)
      → closed_or_false (find ne.id s'.man.logs_buffer) ≡ ne.closed
  unfolding execute
  broadcast_forgets_closed ne h = rw (
    man-execute_broadcast serde env ne s (s', fj) h,
    (append_notification-find (replace s.man ne) ne).0,
  )

  -- A job that succeeds and leaves the manager unmarked for writing has changed nothing in it.
  pub execute_clean :
      (job : Job Hints)
      → execute serde env job desc s ≡ ok (s', fj)
      → s'.man.dirty ≡ false
      → s'.man ≡ s.man
  unfolding execute
  execute_clean (broadcast ne) h c =
      let e = man-execute_broadcast serde env ne s (s', fj) h in
      let marked = (append_notification-find (replace s.man ne) ne).1 in cc (e, marked)
  execute_clean job h c = (execute-Keeps serde env job desc s (s', fj) (λ x. x) h).clean c
