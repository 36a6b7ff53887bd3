-- ===== src/Transmission.antt =====
-- `TransmissionType` and `Transmission` of server/transmission.rs: the frame of every message.
pub mod RoundTrip
use notifs_piper.Common.{ℕ, ◌≡◌, [], ◌++◌, ok, err, ◌>>=◌, if◌then◌else◌}
use notifs_piper.Text.{Text, codes, text_eq}
use notifs_piper.Text.Decimal.{to_string}
use notifs_piper.Payload.{Parsed, parse, split_hash, split_hashes, pid}
use notifs_piper.Fulfilled.{FulfilledJob, fulfilled_to_string}

pub data TransmissionType : Type 0 where
  incoming : ℕ → TransmissionType
  outgoing : ℕ → TransmissionType
  error : TransmissionType

abbrev type_named : Text → ℕ → Parsed TransmissionType
type_named first second =
    if text_eq first (codes "inc")
    then ok (incoming second)
    else if text_eq first (codes "out")
    then ok (outgoing second)
    else err (record {
      data_text = first;
      error = codes "Invalid type for 'TransmissionType' enum.";
      details = [];
    })

type_split : Text → Parsed TransmissionType
type_split data_text = do
  (first, second) ← split_hash data_text
  n ← parse second pid (codes "TransmissionType")
  type_named first n

unfoldable pub type_from_str : Text → Parsed TransmissionType
unfolding type_split
type_from_str data_text = if text_eq data_text (codes "Err") then ok error else type_split data_text

unfoldable pub type_to_string : TransmissionType → Text
type_to_string (incoming n) = codes "inc#" ++ to_string n
type_to_string (outgoing n) = codes "out#" ++ to_string n
type_to_string error = codes "Err"

pub record Transmission : Type 0 where
  pub typ : TransmissionType
  pub data_text : Text

unfoldable pub from_fulfilled : FulfilledJob → ℕ → Transmission
from_fulfilled ft n = record { typ = outgoing n; data_text = fulfilled_to_string ft }

unfoldable pub transmission_from_str : Text → Parsed Transmission
transmission_from_str data_text = do
  (first, second) ← split_hashes data_text
  typ ← type_from_str first
  ok (record { typ = typ; data_text = second })

unfoldable pub transmission_to_string : Transmission → Text
transmission_to_string tr = type_to_string tr.typ ++ codes "##" ++ tr.data_text
