-- ===== src/Tests/Sockets.antt =====
-- The theorems of the listener with three watching processes, of which one is silent and one is
-- gone.
use mathlib.Core.List.{Permᴰ}
use mathlib.Core.List.Permᴰ.{swap}
use notifs_piper.Listener.Order.{IsAlike, Agrees}
use notifs_piper.Listener.Order.Alike.{handle-Agrees}
use notifs_piper.Common.{panic, inl, Outcome, ℕ, ◌≡◌, refl, Bool, [], ◌∷◌, ◌++◌, ok, arith, ◌==◌}
use notifs_piper.Text.{Text, codes}
use notifs_piper.Flags.{is}
use notifs_piper.Job.{JobDesc, query}
use notifs_piper.Transmission.{Transmission, outgoing}
use notifs_piper.Listener.{Listener, handle}
use notifs_piper.Listener.Delivery.{published, handle-published, handle-panic_iff}
use notifs_piper.Job.Wire.{job_desc_from_str, job_desc_to_string, job_to_string, desc_to_string}
use notifs_piper.Job.RoundTrip.{job_desc_from_str-to_string}
use notifs_piper.Text.Decimal.{to_string}
use notifs_piper.Tests.Codec.{NoHints, codec, codec-IsLawful}
use notifs_piper.Tests.Values.{four, asks, bus}

abbrev pub gone : ℕ → Bool
gone stream = stream == 70

abbrev pub watched : Listener NoHints
watched = record {
  active = [];
  listening =
      (5, record { stream = 50; flags = 0 })
      ∷ (6, record { stream = 60; flags = 1 })
      ∷ (7, record { stream = 70; flags = 0 })
      ∷ [];
  written = [];
  channel = (bus 3).channel;
}

-- The same processes, walked in another order.
abbrev watched_otherwise : Listener NoHints
watched_otherwise = record watched {
  listening =
      (6, record { stream = 60; flags = 1 })
      ∷ (5, record { stream = 50; flags = 0 })
      ∷ (7, record { stream = 70; flags = 0 })
      ∷ [];
}

otherwise-IsAlike : IsAlike watched watched_otherwise
otherwise-IsAlike = record {
  active = Permᴰ.nil;
  listening = swap refl refl;
  written = λ s. refl;
  channel = refl;
}

abbrev shown_text : Text
shown_text = codes "res#" ++ codec.event_to_string four

handle-published_example :
    handle codec gone 9 (ok (record { typ = outgoing 0; data_text = shown_text })) watched
    ≡ ok (published gone watched shown_text 4)
handle-published_example = handle-published codec-IsLawful gone 9 watched four (omega arith) refl

unreadable-panics :
    handle codec gone 9 (ok (record { typ = outgoing 0; data_text = codes "res#" ++ [] })) watched
    ≡ panic
unfolding is
unreadable-panics = (handle-panic_iff gone watched codec 9 []).1 (refl, inl (λ ne e. cc))

abbrev pub question : JobDesc NoHints
question = asks (query 2)

question_text : job_desc_to_string codec question ≡ ok (codes "42#0##query##2")
unfolding job_desc_to_string job_to_string desc_to_string to_string
question_text = refl

pub question_read : job_desc_from_str codec (codes "42#0##query##2") ≡ ok question
question_read =
    job_desc_from_str-to_string codec-IsLawful question (codes "42#0##query##2") (omega arith)
      (omega arith) (omega arith) question_text

abbrev pub told : Transmission
told = record { typ = outgoing 42; data_text = codes "res#true" }

abbrev shown : Outcome Text Transmission
shown = ok (record { typ = outgoing 0; data_text = shown_text })

handle-Agrees_example :
    Agrees (handle codec gone 9 shown watched) (handle codec gone 9 shown watched_otherwise)
handle-Agrees_example =
    handle-Agrees codec gone 9 shown watched watched_otherwise (omega arith) otherwise-IsAlike
