-- ===== src/Execute/Refinement.antt =====
-- The jobs of server/jobs and what they may do to the store.
use mathlib.Core.List.{Nodup}
use notifs_piper.Common.{
  ℕ, zero, suc, ◌≡◌, ◌⊎◌, inl, inr, refl, sym, ap, ◌∙◌, Bool, true, false, not, ◌&&◌, Option, none,
  some, List, [], ◌∷◌, length, ok, arith, ok-injective, >>=-eq-ok, Bool-cases, Option-cases, ◌==◌,
}
use notifs_piper.Text.{codes}
use notifs_piper.Flags.{is, silent}
use notifs_piper.Event.{NotificationEvent, Serde, set_closed, set_read}
use notifs_piper.Job.{
  Job, acknowledge, broadcast, close, query, read, action_invoked, activation_token, watch, Desc,
  NotificationClosed,
}
use notifs_piper.Fulfilled.{FulfilledJob}
use notifs_piper.Manager.{LogsManager, find, read_notification, append_notification, read_logs}
use notifs_piper.Manager.Removal.{ids}
use notifs_piper.Manager.Reading.{map_window, marked, read_logs_cases}
use notifs_piper.Manager.Store.{Store, put, erase, alter, changed, view}
use notifs_piper.Manager.Store.Operations.{
  find-modify_found-alter, view-remove_notification, view-append_notification,
  append_notification_full,
}
use notifs_piper.Execute.Bus.{Env, Server}
use notifs_piper.Execute.Signals.{none_or_closed}
use notifs_piper.Execute.Broadcast.{replace}
use notifs_piper.Execute.Close.{execute_close, is_expired}
use notifs_piper.Execute.Closing.{
  closes, closed_server, execute_close_found, drops_other, execute_close_cases,
}
use notifs_piper.Execute.Later.{man-run_signal, man-execute_signal}
use notifs_piper.Execute.Invariants.{man-execute_broadcast, replace_shape, replace-Nodup}
use notifs_piper.Execute.Spec.{replaced, Announced, Becomes, is_full}
use notifs_piper.Execute.{execute, execute_read, execute_query}

module _ {Hints : Type 0} where
  view-replace :
      (man : LogsManager Hints) (ne : NotificationEvent Hints)
      → Nodup (ids man.logs_buffer)
      → view (replace man ne) ≡ replaced ne (view man)
  unfolding replace
  view-replace man ne d = elim (Bool-cases (ne.replaces_id == 0)) [
    | inl e ↦ rw e refl
    | inr e ↦ rw e (view-remove_notification man ne.replaces_id d).0
  ]

  append-Announced :
      (man : LogsManager Hints) (ne : NotificationEvent Hints) (full : Bool) (m : Store Hints)
      → Nodup (ids man.logs_buffer)
      → (length man.logs_buffer == man.logs_config.max_logs) ≡ full
      → view man ≡ replaced ne m
      → Announced full ne m (view (append_notification man ne))
  append-Announced man ne false m d e v =
      view-append_notification man ne (ground arith) ∙ ap (put ne) v
  append-Announced man ne true m d e v =
      let (old, p) = append_notification_full man ne (ground arith) d in
      (old, p ∙ ap (λ n. put ne (erase old n)) v)

  set_closed_same :
      (o : Option (NotificationEvent Hints)) → none_or_closed o ≡ true → o ≡ changed set_closed o
  set_closed_same none h = refl
  set_closed_same (some ne) h = λ i. some (record ne { closed = h i })

  closed_found :
      (id : ℕ) (m : Store Hints)
      → none_or_closed (m id) ≡ true
      → (nid : ℕ) → m nid ≡ alter set_closed id m nid
  closed_found id m h nid = elim (Bool-cases (id == nid)) [
    | inl e ↦
        let same : id ≡ nid = ground arith in
        let h' : none_or_closed (m nid) ≡ true = rw same at h in rw e (set_closed_same (m nid) h')
    | inr e ↦ rw e
  ]

  -- A notification that is closed already, or not there, is not changed by a close.
  closed_already :
      (id : ℕ) (m : Store Hints) → none_or_closed (m id) ≡ true → m ≡ alter set_closed id m
  closed_already id m h = λ i nid. closed_found id m h nid i

  find-map_window :
      (id s e : ℕ) (l : List (NotificationEvent Hints))
      → (find id (map_window set_read s e l) ≡ find id l)
        ⊎ (find id (map_window set_read s e l) ≡ changed set_read (find id l))
  unfolding find
  find-map_window id s e [] = inl refl
  find-map_window id s zero (x ∷ l) = inl refl
  find-map_window id zero (suc e) (x ∷ l) = ground (arith, find-map_window id zero e l)
  find-map_window id (suc s) (suc e) (x ∷ l) = ground (arith, find-map_window id s e l)

  view-marked :
      (man man' : LogsManager Hints) (start end id : ℕ)
      → man' ≡ marked man start end
      → (view man' id ≡ view man id) ⊎ (view man' id ≡ changed set_read (view man id))
  view-marked man man' start end id e = elim (find-map_window id start end man.logs_buffer) [
    | inl w ↦ inl (ap (λ m. view m id) e ∙ w)
    | inr w ↦ inr (ap (λ m. view m id) e ∙ w)
  ]

module _ {Hints : Type 0} (serde : Serde Hints) (env : Env) (desc : Desc) (s s' : Server Hints)
    (fj : FulfilledJob) where
  broadcast-Becomes :
      (ne : NotificationEvent Hints)
      → Nodup (ids s.man.logs_buffer)
      → execute serde env (broadcast ne) desc s ≡ ok (s', fj)
      → Announced (is_full (broadcast ne) s.man) ne (view s.man) (view s'.man)
  unfolding execute
  broadcast-Becomes ne d h = rw (man-execute_broadcast serde env ne s (s', fj) h) (
      append-Announced (replace s.man ne) ne (is_full (broadcast ne) s.man) (view s.man)
        (replace-Nodup s.man ne d)
        (ap (λ c. length (replace s.man ne).logs_buffer == c.max_logs) (replace_shape s.man ne).0)
        (view-replace s.man ne d))

  read-Becomes :
      (start end : ℕ)
      → execute serde env (read start end) desc s ≡ ok (s', fj)
      → (id : ℕ)
      → (view s'.man id ≡ view s.man id) ⊎ (view s'.man id ≡ changed set_read (view s.man id))
  unfolding execute execute_read
  read-Becomes start end h id =
      let (got, p, e) = >>=-eq-ok (read_logs s.man start end (not (is silent desc.flags))) _ h in
      let after : s'.man ≡ got.0 = ap (λ x. x.0.man) (ok-injective (sym e)) in
      elim (read_logs_cases s.man start end (not (is silent desc.flags)) got p) [
        | inl same ↦ inl (ap (λ m. view m id) (after ∙ same))
        | inr marked ↦ view-marked s.man s'.man start end id (after ∙ marked)
      ]

  -- An open notification is closed, unless its time is looked at.
  open_closes :
      (id : ℕ) (reason : NotificationClosed)
      → none_or_closed (find id s.man.logs_buffer) ≡ false
      → (is_expired reason && s.man.logs_config.auto_close) ≡ false
      → execute_close env id reason desc s ≡ ok (closes env id reason desc s)
  open_closes id reason still_open untimed = elim (Option-cases (find id s.man.logs_buffer)) [
    | inl e ↦ absurd (let q : true ≡ false = rw e at still_open in cc)
    | inr (ne, e) ↦
        let o : ne.closed ≡ false = rw e at still_open in
        execute_close_found env id reason desc s ne false e (inl o)
          (drops_other env s.man ne reason untimed)
  ]

  view-closes :
      (id : ℕ) (reason : NotificationClosed)
      → execute_close env id reason desc s ≡ ok (s', fj)
      → execute_close env id reason desc s ≡ ok (closes env id reason desc s)
      → view s'.man ≡ alter set_closed id (view s.man)
  view-closes id reason h c =
      ap (λ r. view r.0.man) (ok-injective (sym h ∙ c))
      ∙ ap (λ m. view m)
          (man-run_signal env (codes "Cannot emit 'notification_closed' signal.") _ _
            (closed_server env id reason desc s))
      ∙ (λ i nid. find-modify_found-alter set_closed (λ e. refl) id nid s.man.logs_buffer i)

  -- A close that leaves the store as it was.
  dropped-Becomes :
      (id : ℕ) (reason : NotificationClosed)
      → execute_close env id reason desc s ≡ ok (s', fj)
      → view s'.man ≡ view s.man
      → (view s'.man ≡ alter set_closed id (view s.man))
        ⊎ (((is_expired reason && s.man.logs_config.auto_close) ≡ true)
            × (view s'.man ≡ view s.man))
  dropped-Becomes id reason h q =
      elim (Bool-cases (is_expired reason && s.man.logs_config.auto_close)) [
        | inl timed ↦ inr (timed, q)
        | inr untimed ↦ elim (Bool-cases (none_or_closed (find id s.man.logs_buffer))) [
          | inl c ↦ inl (q ∙ closed_already id (view s.man) c)
          | inr still_open ↦
              inl (view-closes id reason h (open_closes id reason still_open untimed))
        ]
      ]

  close-Becomes :
      (id : ℕ) (reason : NotificationClosed)
      → execute_close env id reason desc s ≡ ok (s', fj)
      → (view s'.man ≡ alter set_closed id (view s.man))
        ⊎ (((is_expired reason && s.man.logs_config.auto_close) ≡ true)
            × (view s'.man ≡ view s.man))
  close-Becomes id reason h = elim (execute_close_cases env id reason desc s) [
    | inl p ↦ cc
    | inr (inl d) ↦ dropped-Becomes id reason h (ap (λ r. view r.0.man) (ok-injective (sym h ∙ d)))
    | inr (inr c) ↦ inl (view-closes id reason h c)
  ]

  -- Every job that succeeds on logs with distinct ids does to the store what its specification
  -- allows: an acknowledgement marks its id as read; a broadcast takes out what it replaces and is
  -- stored under its id, and on a full buffer at most one other goes; a close closes its id, or
  -- changes nothing, which happens only to a close on expiry with automatic closing; a reading at
  -- most marks notifications as read; every other job changes nothing.
  pub execute-Becomes :
      (job : Job Hints)
      → Nodup (ids s.man.logs_buffer)
      → execute serde env job desc s ≡ ok (s', fj)
      → Becomes (is_full job s.man) s.man.logs_config.auto_close job (view s.man) (view s'.man)
  unfolding execute execute_query read_notification
  execute-Becomes (acknowledge id) d h =
      ap (λ r. view r.0.man) (ok-injective (sym h))
      ∙ (λ i nid. find-modify_found-alter set_read (λ e. refl) id nid s.man.logs_buffer i)
  execute-Becomes (broadcast ne) d h = broadcast-Becomes ne d h
  execute-Becomes (close id reason) d h = close-Becomes id reason h
  execute-Becomes (query id) d h = ap (λ r. view r.0.man) (ok-injective (sym h))
  execute-Becomes (read start end) d h = read-Becomes start end h
  execute-Becomes (action_invoked id key) d h =
      ap (λ r. view r.0.man) (ok-injective (sym h))
      ∙ ap (λ m. view m) (man-execute_signal env id _ _ desc s)
  execute-Becomes (activation_token id token) d h =
      ap (λ r. view r.0.man) (ok-injective (sym h))
      ∙ ap (λ m. view m) (man-execute_signal env id _ _ desc s)
  execute-Becomes watch d h = ap (λ r. view r.0.man) (ok-injective (sym h))
