-- ===== src/Listener.antt =====
-- server/listener.rs: what the listener does with one connection, once it has read its text. The
-- maps of processes are lists of keys and values; the order in which a `HashMap` is walked is
-- theirs. A stream is a number. A panic ends the task of this connection; where the manager's
-- thread is down the listener then stops.
pub mod Processes
pub mod Delivery
pub mod Requests
pub mod Order
pub mod Tasks
use notifs_piper.Common.{
  ℕ, Bool, true, false, not, ◌||◌, Option, none, some, List, [], ◌∷◌, ◌++◌, Outcome, ok, err, panic,
  ◌>>=◌, ◌==◌, if◌then◌else◌,
}
use notifs_piper.Text.{Text, codes, text_eq}
use notifs_piper.Flags.{is, silent}
use notifs_piper.Payload.{Parsed}
use notifs_piper.Event.{NotificationEvent, Serde}
use notifs_piper.Job.{Job, JobDesc, acknowledge, canonical_name}
use notifs_piper.Job.Wire.{job_desc_from_str}
use notifs_piper.Fulfilled.{
  FulfilledJob, ResultType, results, event, other, JobResult, value, failure, fulfilled_from_str,
}
use notifs_piper.Transmission.{
  Transmission, TransmissionType, incoming, outgoing, error, transmission_to_string,
}
use notifs_piper.Dbus.{Channel, internal, push_job}
use Processes.{lookup, insert, remove, remove_all}

-- A process that watches: its stream, and the flags of its request.
pub record Watcher : Type 0 where
  pub stream : ℕ
  pub flags : ℕ

-- The state that the tasks share, and what was written to the streams.
pub record Listener (Hints : Type 0) : Type 0 where
  pub active : List (ℕ × ℕ)
  pub listening : List (ℕ × Watcher)
  pub written : List (ℕ × Text)
  pub channel : Channel Hints

-- What one walk over the watching processes has done: the writes that went through, the processes
-- whose write failed, and whether one that is not silent was reached.
pub record Walk : Type 0 where
  pub writes : List (ℕ × Text)
  pub old : List ℕ
  pub read : Bool

abbrev pub failed_at : ℕ → Walk → Walk
failed_at pid d = record d { old = pid ∷ d.old }

abbrev pub reached : Watcher → Text → Walk → Walk
reached w t d = record d {
  writes = (w.stream, t) ∷ d.writes;
  read = not (is silent w.flags) || d.read;
}

-- `fails` tells the streams whose peer is gone.
unfoldable pub deliver : (ℕ → Bool) → Text → List (ℕ × Watcher) → Walk
deliver fails t [] = record { writes = []; old = []; read = false }
deliver fails t ((pid, w) ∷ l) =
    let rest = deliver fails t l in if fails w.stream then failed_at pid rest else reached w t rest

module _ {Hints : Type 0} where
  -- A write whose error is printed and not acted upon.
  unfoldable pub write_or_log : (ℕ → Bool) → ℕ → Transmission → Listener Hints → Listener Hints
  write_or_log fails stream tr h =
      if fails stream
      then h
      else record h { written = h.written ++ (stream, transmission_to_string tr) ∷ [] }

  unfoldable pub send_error : (ℕ → Bool) → ℕ → Text → Listener Hints → Listener Hints
  send_error fails stream e h = write_or_log fails stream (record { typ = error; data_text = e }) h

  -- The push and the signal.
  abbrev pub queue_job : JobDesc Hints → Listener Hints → Outcome Text (Listener Hints)
  queue_job jd h = do channel ← push_job jd h.channel; ok (record h { channel = channel })

  -- The results of another process: they go to the stream that waits for them.
  unfoldable pub answer :
      (ℕ → Bool) → ℕ → Transmission → Listener Hints → Outcome Text (Listener Hints)
  answer fails pid tr h = elim (lookup pid h.active) [
    | none ↦ panic
    | some stream ↦ ok (write_or_log fails stream tr (record h { active = remove pid h.active }))
  ]

module _ {Hints : Type 0} (serde : Serde Hints) where
  abbrev id_of : Outcome Text (NotificationEvent Hints) → Outcome Text (Option ℕ)
  id_of (ok ne) = ok (some ne.id)
  id_of (err e) = panic
  id_of panic = panic

  abbrev event_id : ResultType → JobResult → Outcome Text (Option ℕ)
  event_id results (value (some t)) = id_of (serde.event_from_str t)
  event_id results (value none) = panic
  event_id results (failure e) = panic
  event_id (event ev) r = ok none
  event_id other r = ok none

  -- The id of the notification that a broadcast carries, if it carries one.
  unfoldable pub announced : Parsed FulfilledJob → Outcome Text (Option ℕ)
  announced (ok fj) = event_id fj.typ fj.result
  announced (err e) = ok none
  announced panic = panic

  abbrev acknowledged : Listener Hints → Option ℕ → Outcome Text (Listener Hints)
  acknowledged h none = ok h
  acknowledged h (some id) = queue_job (internal (acknowledge id)) h

  unfoldable pub publish : (ℕ → Bool) → Text → Listener Hints → Outcome Text (Listener Hints)
  publish fails data_text h = do
    let tr : Transmission = record { typ = outgoing 0; data_text = data_text }
    let d = deliver fails (transmission_to_string tr) h.listening
    let h' : Listener Hints = record h {
      written = h.written ++ d.writes;
      listening = remove_all d.old h.listening;
    }
    id ← if d.read then announced (fulfilled_from_str data_text) else ok none
    acknowledged h' id

  abbrev request :
      (ℕ → Bool) → ℕ → ℕ → Parsed (JobDesc Hints) → Listener Hints → Outcome Text (Listener Hints)
  request fails stream pid (ok jd) h =
      if text_eq (canonical_name jd.cmd) (codes "watch")
      then ok (record h {
        listening = insert pid (record { stream = stream; flags = jd.desc.flags }) h.listening;
      })
      else queue_job jd (record h { active = insert pid stream h.active })
  request fails stream pid (err e) h = ok (send_error fails stream e.error h)
  request fails stream pid panic h = panic

  abbrev handle_typ :
      (ℕ → Bool)
      → ℕ
      → Transmission
      → TransmissionType
      → Listener Hints
      → Outcome Text (Listener Hints)
  handle_typ fails stream tr error h =
      ok (
        send_error fails stream (codes "Current architecture wants the client to manage errors.") h)
  handle_typ fails stream tr (incoming pid) h =
      request fails stream pid (job_desc_from_str serde tr.data_text) h
  handle_typ fails stream tr (outgoing pid) h =
      if pid == 0 then publish fails tr.data_text h else answer fails pid tr h

  -- The task of one connection, from what `Listener::read` returned.
  unfoldable pub handle :
      (ℕ → Bool) → ℕ → Outcome Text Transmission → Listener Hints → Outcome Text (Listener Hints)
  handle fails stream (ok tr) h = handle_typ fails stream tr tr.typ h
  handle fails stream (err e) h = ok (send_error fails stream e h)
  handle fails stream panic h = panic
