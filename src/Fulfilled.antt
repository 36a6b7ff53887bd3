-- ===== src/Fulfilled.antt =====
-- `EventType` and `FulfilledJob` of server/jobs/mod.rs: what the execution of a job answers, and
-- its text on the wire.
pub mod RoundTrip
use notifs_piper.Common.{
  ℕ, ◌%◌, ◌+◌, ◌-◌, Option, none, some, [], ◌∷◌, ◌++◌, ok, err, ◌>>=◌, ltb, ◌==◌, if◌then◌else◌,
}
use notifs_piper.Text.{Text, codes, text_eq, is_empty}
use notifs_piper.Text.Decimal.{to_string}
use notifs_piper.Payload.{Parsed, parse, split_hash, nid}

pub data EventType : Type 0 where
  close : ℕ → EventType
  action_invoked : ℕ → Text → EventType
  activation_token : ℕ → Text → EventType

-- The arms of the `match` on the tag.
unfoldable pub event_named : Text → Text → Parsed EventType
event_named typ rest =
    if text_eq typ (codes "cls")
    then (do nid' ← parse rest nid (codes "EventType"); ok (close nid'))
    else if text_eq typ (codes "act")
    then (do
      (id, act) ← split_hash rest
      nid' ← parse id nid (codes "EventType")
      ok (action_invoked nid' act))
    else if text_eq typ (codes "acv")
    then (do
      (id, acv) ← split_hash rest
      nid' ← parse id nid (codes "EventType")
      ok (activation_token nid' acv))
    else err (record { data_text = typ; error = codes "Bad type for 'EventType'."; details = [] })

unfoldable pub event_from_str : Text → Parsed EventType
event_from_str data_text = do (typ, rest) ← split_hash data_text; event_named typ rest

unfoldable pub event_to_string : EventType → Text
event_to_string (close id) = codes "cls#" ++ to_string id
event_to_string (action_invoked id key) = codes "act#" ++ to_string id ++ codes "#" ++ key
event_to_string (activation_token id token) = codes "acv#" ++ to_string id ++ codes "#" ++ token

pub data ResultType : Type 0 where
  results : ResultType
  event : EventType → ResultType
  other : ResultType

-- `Result<Option<String>, String>`
pub data JobResult : Type 0 where
  value : Option Text → JobResult
  failure : Text → JobResult

pub record FulfilledJob : Type 0 where
  pub result : JobResult
  pub typ : ResultType

-- The arms of the `match` on the tag.
unfoldable pub fulfilled_named : Text → Text → Parsed FulfilledJob
fulfilled_named typ rest =
    if text_eq typ (codes "err")
    then ok (record { result = failure rest; typ = other })
    else if text_eq typ (codes "res")
    then ok (record { result = value (some rest); typ = results })
    else if text_eq typ (codes "ev")
    then (do ev ← event_from_str rest; ok (record { result = value none; typ = event ev }))
    else if text_eq typ (codes "oth")
    then ok (record { result = value (some rest); typ = other })
    else err
        (record { data_text = typ; error = codes "Invalid type for 'FulfilledJob'."; details = [] })

fulfilled_split : Text → Parsed FulfilledJob
fulfilled_split data_text = do (typ, rest) ← split_hash data_text; fulfilled_named typ rest

unfoldable pub fulfilled_from_str : Text → Parsed FulfilledJob
unfolding fulfilled_split
fulfilled_from_str data_text =
    if is_empty data_text
    then ok (record { result = value none; typ = other })
    else fulfilled_split data_text

abbrev hex_digit : ℕ → ℕ
hex_digit n = if ltb n 10 then b'0' + n else b'a' + (n - 10)

-- A byte in `{:?}`: the escapes of `str`'s `Debug` on ASCII; other bytes are taken as printable.
debug_byte : ℕ → Text
debug_byte c =
    if c == 0
    then codes "\\0"
    else if c == 9
    then codes "\\t"
    else if c == 10
    then codes "\\n"
    else if c == 13
    then codes "\\r"
    else if c == b'"'
    then codes "\\\""
    else if c == b'\\'
    then codes "\\\\"
    else if ltb c 16
    then codes "\\u{" ++ hex_digit c ∷ codes "}"
    else if ltb c 32
    then codes "\\u{1" ++ hex_digit (c % 16) ∷ codes "}"
    else if c == 127
    then codes "\\u{7f}"
    else c ∷ []

debug_bytes : Text → Text
debug_bytes [] = []
debug_bytes (c ∷ s) = debug_byte c ++ debug_bytes s

-- `{:?}` of the result
unfoldable pub debug : JobResult → Text
unfolding debug_bytes debug_byte
debug (value none) = codes "Ok(None)"
debug (value (some s)) = codes "Ok(Some(\"" ++ debug_bytes s ++ codes "\"))"
debug (failure s) = codes "Err(\"" ++ debug_bytes s ++ codes "\")"

abbrev pub result_text : JobResult → Text
result_text (failure e) = codes "err#" ++ e
result_text (value none) = []
result_text (value (some s)) = if is_empty s then [] else codes "res#" ++ s

abbrev pub typed_text : ResultType → JobResult → Text
typed_text (event ev) result = codes "ev#" ++ event_to_string ev
typed_text other result = codes "oth#" ++ debug result
typed_text results result = result_text result

unfoldable pub fulfilled_to_string : FulfilledJob → Text
fulfilled_to_string fj = typed_text fj.typ fj.result
