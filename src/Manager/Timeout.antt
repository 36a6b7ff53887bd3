-- ===== src/Manager/Timeout.antt =====
-- `map_timeout`: how long a notification is shown, in milliseconds.
use notifs_piper.Common.{ℕ, zero, suc, ◌%◌, ◌^◌, ◌<◌, ◌≡◌, ◌↔◌, refl, some, ok, arith}
use notifs_piper.Common.Int.{pos}
use notifs_piper.Manager.{LogsManager, map_timeout}

-- A positive timeout becomes a number of milliseconds that fits in sixteen bits, and it is kept
-- exactly if it fits itself: every longer one is cut to something else.
pub map_timeout-pos :
    {Hints : Type 0} (man : LogsManager Hints) (n : ℕ)
    → 0 < n
    → (v : ℕ) × (map_timeout man (pos n) ≡ ok (some v)) × (v < 2 ^ 16) × ((v ≡ n) ↔ (n < 2 ^ 16))
unfolding map_timeout
map_timeout-pos man zero h = absurd (omega arith)
map_timeout-pos man (suc n) h =
    (suc n % 2 ^ 16, refl, omega arith, (λ e. omega arith, λ e. omega arith))
