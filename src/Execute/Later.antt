-- ===== src/Execute/Later.antt =====
-- The jobs of server/jobs other than `Broadcast`: the stored notifications before and after.
use notifs_piper.Common.{
  ℕ, zero, suc, ◌≡◌, inl, inr, refl, sym, ap, ◌∙◌, Bool, true, false, not, List, [], ◌∷◌, length,
  ok, arith, ok-injective, >>=-eq-ok, Bool-cases, ◌==◌,
}
use notifs_piper.Text.{Text, codes}
use notifs_piper.Flags.{is, silent}
use notifs_piper.Event.{NotificationEvent, Serde, set_closed, set_read}
use notifs_piper.Job.{
  Job, acknowledge, broadcast, close, query, read, action_invoked, activation_token, watch, Desc,
  NotificationClosed,
}
use notifs_piper.Fulfilled.{EventType, FulfilledJob}
use notifs_piper.Manager.{LogsManager, find, modify_found, read_logs, read_notification}
use notifs_piper.Manager.Removal.{ids}
use notifs_piper.Manager.Reading.{map_window, read_logs_cases}
use notifs_piper.Execute.Bus.{Env, Signal, Server}
use notifs_piper.Execute.Signals.{emit, run_signal, execute_signal}
use notifs_piper.Execute.Close.{execute_close}
use notifs_piper.Execute.Closing.{closed_server, closes, execute_close_cases}
use notifs_piper.Execute.{execute, execute_read, execute_query, closed_or_false}

module _ {Hints : Type 0} where
  -- The same notifications in the same order; what was closed still is.
  abbrev pub Later : List (NotificationEvent Hints) → List (NotificationEvent Hints) → Type 0
  Later [] [] = Unit
  Later [] (y ∷ m) = ⊥
  Later (x ∷ l) [] = ⊥
  Later (x ∷ l) (y ∷ m) = (x.id ≡ y.id) × (x.closed ≡ true → y.closed ≡ true) × Later l m

  pub Later-refl : (l : List (NotificationEvent Hints)) → Later l l
  Later-refl [] = tt
  Later-refl (x ∷ l) = (refl, λ c. c, Later-refl l)

  Later-modify_found :
      (f : NotificationEvent Hints → NotificationEvent Hints)
      → ((e : NotificationEvent Hints)
          → (e.id ≡ (f e).id) × (e.closed ≡ true → (f e).closed ≡ true))
      → (nid : ℕ) (l : List (NotificationEvent Hints)) → Later l (modify_found f nid l)
  unfolding modify_found
  Later-modify_found f keeps nid [] = tt
  Later-modify_found f keeps nid (x ∷ l) = elim (Bool-cases (x.id == nid)) [
    | inl e ↦ rw e ((keeps x).0, (keeps x).1, Later-refl l)
    | inr e ↦ rw e (refl, λ c. c, Later-modify_found f keeps nid l)
  ]

  Later-map_window :
      (s e : ℕ) (l : List (NotificationEvent Hints)) → Later l (map_window set_read s e l)
  Later-map_window s e [] = tt
  Later-map_window s zero (x ∷ l) = Later-refl (x ∷ l)
  Later-map_window zero (suc e) (x ∷ l) = (refl, λ c. c, Later-map_window zero e l)
  Later-map_window (suc s) (suc e) (x ∷ l) = (refl, λ c. c, Later-map_window s e l)

  pub ids-Later : (l m : List (NotificationEvent Hints)) → Later l m → ids l ≡ ids m
  ids-Later [] [] h = refl
  ids-Later [] (y ∷ m) h = absurd h
  ids-Later (x ∷ l) [] h = absurd h
  ids-Later (x ∷ l) (y ∷ m) (e, _, h) = cc (e, ids-Later l m h)

  pub length-Later : (l m : List (NotificationEvent Hints)) → Later l m → length l ≡ length m
  length-Later [] [] h = refl
  length-Later [] (y ∷ m) h = absurd h
  length-Later (x ∷ l) [] h = absurd h
  length-Later (x ∷ l) (y ∷ m) (_, _, h) = ap suc (length-Later l m h)

  pub closed-Later :
      (nid : ℕ) (l m : List (NotificationEvent Hints))
      → Later l m
      → closed_or_false (find nid l) ≡ true
      → closed_or_false (find nid m) ≡ true
  unfolding find
  closed-Later nid [] [] h c = c
  closed-Later nid [] (y ∷ m) h c = absurd h
  closed-Later nid (x ∷ l) [] h c = absurd h
  closed-Later nid (x ∷ l) (y ∷ m) (e, k, h) c = ground (arith, closed-Later nid l m h)

module _ {Hints : Type 0} (env : Env) where
  -- A signal on the bus does not touch the manager.
  pub man-run_signal :
      (failed : Text) (signal : Signal) (ev : EventType) (s : Server Hints)
      → (run_signal env failed signal ev s).0.man ≡ s.man
  unfolding run_signal emit
  man-run_signal failed signal ev s = ground arith

  pub man-execute_signal :
      (id : ℕ) (signal : Signal) (ev : EventType) (desc : Desc) (s : Server Hints)
      → (execute_signal env id signal ev desc s).0.man ≡ s.man
  unfolding execute_signal
  man-execute_signal id signal ev desc s =
      ground (arith, man-run_signal (codes "Cannot emit signal.") signal ev s)

-- How the manager behind a job stands to the one before it.
pub record Keeps {Hints : Type 0} (man man' : LogsManager Hints) : Type 0 where
  pub config : man'.logs_config ≡ man.logs_config
  pub interface : man'.interface ≡ man.interface
  pub later : Later man.logs_buffer man'.logs_buffer
  pub clean : man'.dirty ≡ false → man' ≡ man

module _ {Hints : Type 0} where
  pub Keeps-refl : (man : LogsManager Hints) → Keeps man man
  Keeps-refl man = record {
    config = refl;
    interface = refl;
    later = Later-refl man.logs_buffer;
    clean = λ _. refl;
  }

  Keeps-eq : (man man' : LogsManager Hints) → man' ≡ man → Keeps man man'
  Keeps-eq man man' e = rw e (Keeps-refl man)

  Keeps-read_notification :
      (man : LogsManager Hints) (id : ℕ) → Keeps man (read_notification man id)
  unfolding read_notification
  Keeps-read_notification man id = record {
    config = refl;
    interface = refl;
    later = Later-modify_found set_read (λ e. (refl, λ c. c)) id man.logs_buffer;
    clean = λ d. cc;
  }

module _ {Hints : Type 0} (env : Env) where
  Keeps-closes :
      (id : ℕ) (reason : NotificationClosed) (desc : Desc) (s : Server Hints)
      → Keeps s.man (closes env id reason desc s).0.man
  Keeps-closes id reason desc s =
      rw
        (man-run_signal env (codes "Cannot emit 'notification_closed' signal.") _ _
          (closed_server env id reason desc s))
        (record {
          config = refl;
          interface = refl;
          later = Later-modify_found set_closed (λ e. (refl, λ c. refl)) id s.man.logs_buffer;
          clean = λ d. cc;
        })

  Keeps-close :
      (id : ℕ) (reason : NotificationClosed) (desc : Desc) (s : Server Hints)
      (r : Server Hints × FulfilledJob)
      → execute_close env id reason desc s ≡ ok r
      → Keeps s.man r.0.man
  Keeps-close id reason desc s r h = elim (execute_close_cases env id reason desc s) [
    | inl p ↦ cc
    | inr (inl d) ↦ rw (← ok-injective (sym d ∙ h)) (Keeps-refl s.man)
    | inr (inr c) ↦ rw (← ok-injective (sym c ∙ h)) (Keeps-closes id reason desc s)
  ]

Keeps-read :
    {Hints : Type 0} (man : LogsManager Hints) (start end : ℕ) (update_read : Bool)
    (r : LogsManager Hints × List (NotificationEvent Hints))
    → read_logs man start end update_read ≡ ok r
    → Keeps man r.0
Keeps-read man start end update_read r h = elim (read_logs_cases man start end update_read r h) [
  | inl e ↦ rw e (Keeps-refl man)
  | inr e ↦ rw e (record {
    config = refl;
    interface = refl;
    later = Later-map_window start end man.logs_buffer;
    clean = λ d. cc;
  })
]

abbrev pub IsBroadcast : {Hints : Type 0} → Job Hints → Type 0
IsBroadcast (broadcast ne) = Unit
IsBroadcast _ = ⊥

module _ {Hints : Type 0} (serde : Serde Hints) (env : Env) where
  -- Every job but `Broadcast` keeps the configuration, which notifications are stored and their
  -- order; none that was closed is open afterwards; and if the manager is not marked for writing,
  -- nothing has changed.
  pub execute-Keeps :
      (job : Job Hints) (desc : Desc) (s : Server Hints) (r : Server Hints × FulfilledJob)
      → ¬ IsBroadcast job
      → execute serde env job desc s ≡ ok r
      → Keeps s.man r.0.man
  unfolding execute execute_query execute_read
  execute-Keeps (acknowledge id) desc s r b h =
      rw (← ok-injective h) (Keeps-read_notification s.man id)
  execute-Keeps (broadcast ne) desc s r b h = absurd (b tt)
  execute-Keeps (close id reason) desc s r b h = Keeps-close env id reason desc s r h
  execute-Keeps (query id) desc s r b h = rw (← ok-injective h) (Keeps-refl s.man)
  execute-Keeps (read start end) desc s r b h =
      let (got, p, e) = >>=-eq-ok (read_logs s.man start end (not (is silent desc.flags))) _ h in
      rw (← ok-injective e) (Keeps-read s.man start end (not (is silent desc.flags)) got p)
  execute-Keeps (action_invoked id key) desc s r b h =
      rw (← ok-injective h) (Keeps-eq s.man _ (man-execute_signal env id _ _ desc s))
  execute-Keeps (activation_token id token) desc s r b h =
      rw (← ok-injective h) (Keeps-eq s.man _ (man-execute_signal env id _ _ desc s))
  execute-Keeps watch desc s r b h = rw (← ok-injective h) (Keeps-refl s.man)
