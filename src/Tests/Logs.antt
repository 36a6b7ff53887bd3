-- ===== src/Tests/Logs.antt =====
-- The theorems of the buffer on a manager with three notifications.
use notifs_piper.Common.{
  ℕ, ◌<◌, ◌^◌, ◌≡◌, ◌↔◌, refl, true, false, some, [], ◌∷◌, length, take, drop, ok, panic, arith,
  inl,
}
use notifs_piper.Common.Int.{pos}
use notifs_piper.Event.{set_read}
use notifs_piper.Manager.{LogsManager, find, append_notification, read_logs, map_timeout}
use notifs_piper.Manager.Retention.{length-append_notification_overfull}
use notifs_piper.Manager.Reading.{read_logs_panic_iff, read_logs_lem}
use notifs_piper.Manager.Timeout.{map_timeout-pos}
use notifs_piper.Tests.Codec.{NoHints}
use notifs_piper.Tests.Values.{one, two, three, event_of, manager, three_logs}

-- Of a log file with three notifications, and a configuration for two.
length-append_notification_overfull_example :
    length
      (append_notification (manager 2 (three ∷ two ∷ one ∷ [])) (event_of 4 0 false)).logs_buffer
    ≡ 4
length-append_notification_overfull_example =
    length-append_notification_overfull (manager 2 (three ∷ two ∷ one ∷ [])) (event_of 4 0 false)
      (inl (omega arith))

find-three : find 3 three_logs.logs_buffer ≡ some three
unfolding find
find-three = refl

read_logs_panic_iff_example : (read_logs three_logs 2 1 true ≡ panic) ↔ ((1 < 2) × (1 < 3))
read_logs_panic_iff_example = read_logs_panic_iff three_logs 2 1 true

read_logs_lem_example :
    (man' : LogsManager NoHints) × (read_logs three_logs 1 5 true
      ≡ ok (man', take 4 (drop 1 man'.logs_buffer)))
    × (man'.logs_buffer ≡ three ∷ set_read two ∷ set_read one ∷ [])
    × (man'.dirty ≡ true)
read_logs_lem_example = read_logs_lem three_logs 1 5 true (omega arith)

-- Seventy seconds become less than five.
map_timeout-pos_example :
    (v : ℕ) × (map_timeout three_logs (pos 70000) ≡ ok (some v))
    × (v < 2 ^ 16)
    × ((v ≡ 70000) ↔ (70000 < 2 ^ 16))
map_timeout-pos_example = map_timeout-pos three_logs 70000 (omega arith)
