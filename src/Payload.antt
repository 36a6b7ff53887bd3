-- ===== src/Payload.antt =====
-- The wire format's common ground: `PayloadError` of server/transmission.rs, and the macros
-- `split_once!` and `parse!` of utils/macros.rs. A `from_str_static` returns an `Outcome`, since
-- some of them panic on texts that a client can send.
use notifs_piper.Common.{ℕ, ◌≡◌, ◌≤◌, [], ◌∷◌, ◌++◌, Outcome, ok, err, panic, ok_or}
use notifs_piper.Text.{Text, codes}
use notifs_piper.Text.Split.{hash, split_once}
use notifs_piper.Text.Decimal.{from_str, to_string, max_of}
use notifs_piper.Text.Decimal.RoundTrip.{from_str-to_string}

pub record PayloadError : Type 0 where
  pub data_text : Text
  pub error : Text
  pub details : Text

abbrev pub Parsed : Type 0 → Type 0
Parsed A = Outcome PayloadError A

abbrev not_found : Text → Text → PayloadError
not_found shown data_text = record {
  data_text = data_text;
  error = codes "Pattern [" ++ shown ++ codes "] was not found in split.";
  details = [];
}

-- `split_once!(data, '#')`
unfoldable pub split_hash : Text → Parsed (Text × Text)
split_hash data_text = ok_or (split_once (hash ∷ []) data_text) (not_found (codes "'#'") data_text)

-- `split_once!(data, "##")`
unfoldable pub split_hashes : Text → Parsed (Text × Text)
split_hashes data_text =
    ok_or (split_once (hash ∷ hash ∷ []) data_text) (not_found (codes "\"##\"") data_text)

-- An integer type of the source: its name, and its greatest value.
pub record IntType : Type 0 where
  pub type_name : Text
  pub most : ℕ

abbrev pub nid : IntType
nid = record { type_name = codes "Nid"; most = max_of 32 }

abbrev pub pid : IntType
pid = record { type_name = codes "Pid"; most = max_of 32 }

abbrev pub flags_repr : IntType
flags_repr = record { type_name = codes "FlagsRepr"; most = max_of 8 }

abbrev pub log_count_type : IntType
log_count_type = record { type_name = codes "LogCountType"; most = max_of 16 }

abbrev pub notification_closed_repr : IntType
notification_closed_repr = record { type_name = codes "NotificationClosedRepr"; most = max_of 32 }

abbrev or_parse_error : IntType → Text → Text → Outcome Text ℕ → Parsed ℕ
or_parse_error ty owner data_text (ok n) = ok n
or_parse_error ty owner data_text panic = panic
or_parse_error ty owner data_text (err details) = err (record {
  data_text = data_text;
  error =
      codes "Invalid parsing for type '"
      ++ ty.type_name
      ++ codes "' in structure '"
      ++ owner
      ++ codes "'.";
  details = details;
})

-- `parse!(data, type, "owner")`
unfoldable pub parse : Text → IntType → Text → Parsed ℕ
parse data_text ty owner = or_parse_error ty owner data_text (from_str ty.most data_text)

-- A printed number is read back at every type that holds it.
pub parse-to_string :
    (n : ℕ) (ty : IntType) (owner : Text) → n ≤ ty.most → parse (to_string n) ty owner ≡ ok n
unfolding parse
parse-to_string n ty owner h = rw (from_str-to_string ty.most n h)
