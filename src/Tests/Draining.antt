-- ===== src/Tests/Draining.antt =====
-- A notification was pushed, and its signal not yet sent.
use notifs_piper.Common.{◌≡◌, refl, false, []}
use notifs_piper.Job.{broadcast}
use notifs_piper.Dbus.{internal}
use notifs_piper.Server.{State, Reach, here, next, push}
use notifs_piper.Server.Draining.Served.{start-drains}
use notifs_piper.Tests.Codec.{NoHints, codec, codec-IsLawful}
use notifs_piper.Tests.Values.{three_logs, io}
use notifs_piper.Tests.Sessions.{stored, config, boot, first, starts, fourth, pushed_state}

start-drains_example :
    (t : State NoHints) × Reach codec pushed_state t
    × (t.daemon.queue ≡ [])
    × (t.in_flight ≡ 0)
    × (t.signals ≡ 0)
    × (t.received ≡ false)
start-drains_example =
    start-drains codec io refl refl boot config stored three_logs.logs_buffer first pushed_state
      refl (codec-IsLawful.logs_round three_logs.logs_buffer) starts
      (next here (push (internal (broadcast fourth)) refl)) (tt, tt)
