-- ===== src/Fulfilled/RoundTrip.antt =====
-- Reading the text of a fulfilled job, at the other end of the socket.
use notifs_piper.Common.{◌≤◌, ◌≡◌, refl, none, some, [], ◌∷◌, ◌++◌, ok, arith}
use notifs_piper.Text.{Text, codes}
use notifs_piper.Text.Split.{Lacks, hash, split_once-hash}
use notifs_piper.Text.Decimal.{to_string, max_of}
use notifs_piper.Payload.{parse-to_string, split_hash, nid}
use notifs_piper.Job.RoundTrip.{split_hash-printed}
use notifs_piper.Fulfilled.{
  fulfilled_split, EventType, close, action_invoked, activation_token, event_named, event_from_str,
  event_to_string, results, event, other, value, failure, FulfilledJob, JobResult, ResultType,
  fulfilled_named, fulfilled_from_str, fulfilled_to_string, debug, typed_text,
}

abbrev pub EventInRange : EventType → Type 0
EventInRange (close id) = id ≤ max_of 32
EventInRange (action_invoked id key) = id ≤ max_of 32
EventInRange (activation_token id token) = id ≤ max_of 32

-- The first `#` ends the tag.
pub split_hash-tag :
    (tag rest : Text) → Lacks hash tag → split_hash (tag ++ hash ∷ rest) ≡ ok (tag, rest)
unfolding split_hash
split_hash-tag tag rest h = rw (split_once-hash tag rest h)

-- An event whose id is in range is read back from its text, whatever its argument holds.
pub event_from_str-to_string :
    (ev : EventType) → EventInRange ev → event_from_str (event_to_string ev) ≡ ok ev
unfolding event_from_str event_to_string event_named
event_from_str-to_string (close id) h = rw (
  split_hash-tag (codes "cls") (to_string id) (omega arith),
  parse-to_string id nid (codes "EventType") h,
)
event_from_str-to_string (action_invoked id key) h = rw (
  split_hash-tag (codes "act") (to_string id ++ codes "#" ++ key) (omega arith),
  split_hash-printed id key,
  parse-to_string id nid (codes "EventType") h,
)
event_from_str-to_string (activation_token id token) h = rw (
  split_hash-tag (codes "acv") (to_string id ++ codes "#" ++ token) (omega arith),
  split_hash-printed id token,
  parse-to_string id nid (codes "EventType") h,
)

-- What is left of a fulfilled job behind the socket: an event loses its result, an error its type,
-- and an empty result everything.
abbrev pub received : FulfilledJob → FulfilledJob
received fj = received_as fj.typ fj.result
  where
    received_as : ResultType → JobResult → FulfilledJob
    received_as (event ev) r = record { result = value none; typ = event ev }
    received_as other r = record { result = value (some (debug r)); typ = other }
    received_as results (failure e) = record { result = failure e; typ = other }
    received_as results (value none) = record { result = value none; typ = other }
    received_as results (value (some [])) = record { result = value none; typ = other }
    received_as results (value (some (c ∷ s))) = record {
      result = value (some (c ∷ s));
      typ = results;
    }

abbrev pub TypeInRange : ResultType → Type 0
TypeInRange (event ev) = EventInRange ev
TypeInRange results = Unit
TypeInRange other = Unit

typed_text-round :
    (t : ResultType) (r : JobResult)
    → TypeInRange t
    → fulfilled_from_str (typed_text t r) ≡ ok (received (record { result = r; typ = t }))
unfolding fulfilled_from_str fulfilled_named
typed_text-round (event ev) r h =
    rw (
      split_hash-tag (codes "ev") (event_to_string ev) (omega arith),
      event_from_str-to_string ev h,
    )
typed_text-round other r h = rw (split_hash-tag (codes "oth") (debug r) (omega arith))
typed_text-round results (failure e) h = rw (split_hash-tag (codes "err") e (omega arith))
typed_text-round results (value none) h = refl
typed_text-round results (value (some [])) h = refl
typed_text-round results (value (some (c ∷ s))) h =
    rw (split_hash-tag (codes "res") (c ∷ s) (omega arith))

-- For every fulfilled job whose ids are in range, its text is read without an error, as what
-- `received` keeps of it.
pub fulfilled_from_str-to_string :
    (fj : FulfilledJob)
    → TypeInRange fj.typ
    → fulfilled_from_str (fulfilled_to_string fj) ≡ ok (received fj)
unfolding fulfilled_to_string
fulfilled_from_str-to_string fj h = typed_text-round fj.typ fj.result h

-- The text behind the tag `res` is the result, also if it is empty.
pub fulfilled_from_str_res :
    (t : Text)
    → fulfilled_from_str (codes "res#" ++ t)
      ≡ ok (record { result = value (some t); typ = results })
unfolding fulfilled_from_str fulfilled_split fulfilled_named
fulfilled_from_str_res t = rw (split_hash-tag (codes "res") t (omega arith))
