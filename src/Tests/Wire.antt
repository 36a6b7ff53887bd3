-- ===== src/Tests/Wire.antt =====
-- The theorems of the wire format on concrete messages.
use notifs_piper.Common.{◌≡◌, refl, none, ok, arith}
use notifs_piper.Text.{codes}
use notifs_piper.Job.{JobDesc, close, dismissed}
use notifs_piper.Job.Wire.{job_desc_from_str, job_desc_to_string, job_to_string, desc_to_string}
use notifs_piper.Text.Decimal.{to_string}
use notifs_piper.Job.RoundTrip.{job_desc_from_str-to_string}
use notifs_piper.Fulfilled.{
  EventType, FulfilledJob, value, failure, event, fulfilled_from_str, fulfilled_to_string,
}
use notifs_piper.Fulfilled.RoundTrip.{fulfilled_from_str-to_string}
use notifs_piper.Transmission.{
  Transmission, outgoing, transmission_from_str, transmission_to_string,
}
use notifs_piper.Transmission.RoundTrip.{transmission_from_str-to_string}
use notifs_piper.Tests.Codec.{NoHints, codec, codec-IsLawful}
use notifs_piper.Tests.Values.{asks}

abbrev dismiss : JobDesc NoHints
dismiss = asks (close 7 dismissed)

dismiss_text : job_desc_to_string codec dismiss ≡ ok (codes "42#0##close##7#2")
unfolding job_desc_to_string job_to_string desc_to_string to_string
dismiss_text = refl

job_desc_from_str-to_string_example :
    job_desc_from_str codec (codes "42#0##close##7#2") ≡ ok dismiss
job_desc_from_str-to_string_example =
    job_desc_from_str-to_string codec-IsLawful dismiss (codes "42#0##close##7#2") (omega arith)
      (omega arith) (omega arith) dismiss_text

abbrev clicked : EventType
clicked = EventType.action_invoked 7 (codes "open#1")

-- A signal that has failed is received as the event alone.
abbrev not_sent : FulfilledJob
not_sent = record { result = failure (codes "Cannot emit signal."); typ = event clicked }

fulfilled_from_str-to_string_example :
    fulfilled_from_str (fulfilled_to_string not_sent)
    ≡ ok (record { result = value none; typ = event clicked })
fulfilled_from_str-to_string_example = fulfilled_from_str-to_string not_sent (omega arith)

abbrev answer : Transmission
answer = record { typ = outgoing 42; data_text = codes "res##[1##2]" }

transmission_from_str-to_string_example :
    transmission_from_str (transmission_to_string answer) ≡ ok answer
transmission_from_str-to_string_example = transmission_from_str-to_string answer (omega arith)
