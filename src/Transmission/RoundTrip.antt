-- ===== src/Transmission/RoundTrip.antt =====
-- Reading the text of a transmission.
use notifs_piper.Common.{◌≤◌, ◌≡◌, refl, ◌∷◌, ◌++◌, ok, arith}
use notifs_piper.Text.{Text, codes}
use notifs_piper.Text.Decimal.{to_string, max_of}
use notifs_piper.Text.Decimal.RoundTrip.{printed, All-IsDigit-Lacks}
use notifs_piper.Payload.{parse-to_string, split_hashes, pid}
use notifs_piper.Job.RoundTrip.{split_hashes-Lacks, split_once-fields}
use notifs_piper.Fulfilled.RoundTrip.{split_hash-tag}
use notifs_piper.Transmission.{
  TransmissionType, incoming, outgoing, error, type_from_str, type_to_string, Transmission,
  transmission_from_str, transmission_to_string,
}

abbrev pub PidInRange : TransmissionType → Type 0
PidInRange (incoming n) = n ≤ max_of 32
PidInRange (outgoing n) = n ≤ max_of 32
PidInRange error = Unit

type-round : (t : TransmissionType) → PidInRange t → type_from_str (type_to_string t) ≡ ok t
unfolding type_from_str type_to_string
type-round (incoming n) h = rw (
  split_hash-tag (codes "inc") (to_string n) (omega arith),
  parse-to_string n pid (codes "TransmissionType") h,
)
type-round (outgoing n) h = rw (
  split_hash-tag (codes "out") (to_string n) (omega arith),
  parse-to_string n pid (codes "TransmissionType") h,
)
type-round error h = refl

split_hashes-type :
    (t : TransmissionType) (r : Text)
    → split_hashes (type_to_string t ++ codes "##" ++ r) ≡ ok (type_to_string t, r)
unfolding split_hashes type_to_string
split_hashes-type (incoming n) r =
    let p = printed n in
    rw (
      split_once-fields (codes "inc") (to_string n) p.first p.others r p.text (omega arith)
        (All-IsDigit-Lacks (p.first ∷ p.others) p.digit))
split_hashes-type (outgoing n) r =
    let p = printed n in
    rw (
      split_once-fields (codes "out") (to_string n) p.first p.others r p.text (omega arith)
        (All-IsDigit-Lacks (p.first ∷ p.others) p.digit))
split_hashes-type error r =
    unfold type_to_string in split_hashes-Lacks (codes "Err") r (omega arith)

-- Every transmission whose pid fits is read back from its text, whatever data it carries.
pub transmission_from_str-to_string :
    (tr : Transmission)
    → PidInRange tr.typ
    → transmission_from_str (transmission_to_string tr) ≡ ok tr
unfolding transmission_from_str transmission_to_string
transmission_from_str-to_string tr h =
    rw (split_hashes-type tr.typ tr.data_text, type-round tr.typ h)
