-- ===== src/Execute/Spec.antt =====
-- What each job may do to the store of notifications, and what it answers: the jobs of server/jobs
-- without the buffer.
use notifs_piper.Common.{
  ℕ, ◌-◌, ◌≡◌, ◌⊎◌, Bool, true, false, not, ◌&&◌, ◌||◌, Option, none, some, List, [], ◌∷◌, ◌++◌,
  length, take, drop, ◌==◌, if◌then◌else◌,
}
use notifs_piper.Text.{Text, codes}
use notifs_piper.Flags.{is, force}
use notifs_piper.Event.{NotificationEvent, Serde, set_closed, set_read}
use notifs_piper.Job.{
  Job, acknowledge, broadcast, close, query, read, action_invoked, activation_token, watch, Desc,
  closed_repr,
}
use notifs_piper.Fulfilled.{EventType, FulfilledJob, event, other, results, value, failure}
use notifs_piper.Manager.{LogsManager, find}
use notifs_piper.Manager.Store.{Store, put, erase, alter, changed}
use notifs_piper.Execute.Bus.{Env, Signal, notification_closed}
use notifs_piper.Execute.Broadcast.{replace}
use notifs_piper.Execute.Close.{is_expired}

module _ {Hints : Type 0} where
  -- The store without the notification that another replaces.
  abbrev pub replaced : NotificationEvent Hints → Store Hints → Store Hints
  replaced ne m = if ne.replaces_id == 0 then m else erase ne.replaces_id m

  -- A new notification is stored under its id, and on a full buffer at most one other goes.
  abbrev pub Announced : Bool → NotificationEvent Hints → Store Hints → Store Hints → Type 0
  Announced false ne m m' = m' ≡ put ne (replaced ne m)
  Announced true ne m m' = (old : ℕ) × (m' ≡ put ne (erase old (replaced ne m)))

  -- The store before and after a job. A close on expiry may be dropped with automatic closing; a
  -- reading may mark any notification as read.
  abbrev pub Becomes : Bool → Bool → Job Hints → Store Hints → Store Hints → Type 0
  Becomes full auto_close (acknowledge id) m m' = m' ≡ alter set_read id m
  Becomes full auto_close (broadcast ne) m m' = Announced full ne m m'
  Becomes full auto_close (close id reason) m m' =
      (m' ≡ alter set_closed id m) ⊎ (((is_expired reason && auto_close) ≡ true) × (m' ≡ m))
  Becomes full auto_close (read start end) m m' =
      (id : ℕ) → (m' id ≡ m id) ⊎ (m' id ≡ changed set_read (m id))
  Becomes full auto_close job m m' = m' ≡ m

  -- Whether the job finds the buffer full.
  abbrev pub is_full : Job Hints → LogsManager Hints → Bool
  is_full (broadcast ne) man = length (replace man ne).logs_buffer == man.logs_config.max_logs
  is_full job man = false

  -- What a query is to be told: `true` if the first stored notification with the id is closed, and
  -- `false` if it is open or no notification with the id is stored.
  abbrev pub told_closed : ℕ → List (NotificationEvent Hints) → Text
  told_closed id [] = codes "false"
  told_closed id (ne ∷ l) =
      if ne.id == id then (if ne.closed then codes "true" else codes "false") else told_closed id l

  -- Whether a signal is to be sent for a notification: it is stored and open, or the request forces
  -- it.
  abbrev pub open_or_forced : Option (NotificationEvent Hints) → Bool → Bool
  open_or_forced none forced = forced
  open_or_forced (some ne) forced = not ne.closed || forced

-- The bus takes the signals of a job.
abbrev pub takes_signals : Env → Bool → Bool
takes_signals env interface = elim env.runtime_error [
  | none ↦ interface && env.interface_found && env.emits
  | some e ↦ false
]

-- The answer that is sent to nobody.
abbrev pub no_answer : FulfilledJob
no_answer = record { result = value none; typ = other }

abbrev pub IsQuiet : List Signal → List Signal → FulfilledJob → Type 0
IsQuiet e e' fj = (fj ≡ no_answer) × (e' ≡ e)

-- A signal is emitted once and answered as its event, or fails and is answered as a failure.
abbrev pub IsSignalled :
    Bool → Signal → EventType → List Signal → List Signal → FulfilledJob → Type 0
IsSignalled true signal ev e e' fj =
    (fj ≡ record { result = value (some []); typ = event ev }) × (e' ≡ e ++ signal ∷ [])
IsSignalled false signal ev e e' fj = ((x : Text) × (fj.result ≡ failure x)) × (e' ≡ e)

-- A job that is to send a signal, or not.
abbrev pub IsReported :
    Bool → Bool → Signal → EventType → List Signal → List Signal → FulfilledJob → Type 0
IsReported false bus signal ev e e' fj = IsQuiet e e' fj
IsReported true bus signal ev e e' fj = IsSignalled bus signal ev e e' fj

module _ {Hints : Type 0} (serde : Serde Hints) (bus auto_close : Bool) where
  -- What a job answers and what it gives to the bus, by the logs before and after it: a query is told
  -- whether its id is stored and closed, a broadcast is answered by its notification, and a reading
  -- by the window of the logs as they are afterwards. A close and a signal of a notification that is
  -- open, or by force, are signalled and answered as their event where the bus takes signals, and
  -- fail where it does not; but a close on expiry may be dropped with automatic closing.
  abbrev pub Answers :
      Job Hints
      → Desc
      → List (NotificationEvent Hints)
      → List (NotificationEvent Hints)
      → List Signal
      → List Signal
      → FulfilledJob
      → Type 0
  Answers (acknowledge id) desc l l' e e' fj = IsQuiet e e' fj
  Answers (broadcast ne) desc l l' e e' fj =
      (fj ≡ record { result = value (some (serde.event_to_string ne)); typ = results }) × (e' ≡ e)
  Answers (close id reason) desc l l' e e' fj =
      IsReported (open_or_forced (find id l) (is force desc.flags)) bus
        (notification_closed id (closed_repr reason)) (EventType.close id) e e' fj
      ⊎ (((is_expired reason && auto_close) ≡ true) × IsQuiet e e' fj)
  Answers (query id) desc l l' e e' fj =
      (fj ≡ record { result = value (some (told_closed id l)); typ = results }) × (e' ≡ e)
  Answers (read start end) desc l l' e e' fj =
      (fj ≡ record {
        result = value (some (serde.logs_to_string (take (end - start) (drop start l'))));
        typ = results;
      })
      × (e' ≡ e)
  Answers (action_invoked id key) desc l l' e e' fj =
      IsReported (open_or_forced (find id l) (is force desc.flags)) bus
        (Signal.action_invoked id key) (EventType.action_invoked id key) e e' fj
  Answers (activation_token id token) desc l l' e e' fj =
      IsReported (open_or_forced (find id l) (is force desc.flags)) bus
        (Signal.activation_token id token) (EventType.activation_token id token) e e' fj
  Answers watch desc l l' e e' fj = IsQuiet e e' fj
