-- ===== src/Tests/Restart.antt =====
-- The daemon is started again from the file that the fourth notification has left.
use notifs_piper.Common.{◌≡◌, refl, ok}
use notifs_piper.Startup.{Files}
use notifs_piper.Dbus.{max_id}
use notifs_piper.Server.Boot.{Running, start}
use notifs_piper.Server.Restart.{start-restart}
use notifs_piper.Tests.Codec.{NoHints, codec, codec-IsLawful}
use notifs_piper.Tests.Values.{three_logs}
use notifs_piper.Tests.Sessions.{
  stored, config, boot, first, starts, after_fourth, behind_fourth, ran,
}

abbrev left : Files
left = record stored { logs = after_fourth.logs_file }

start-restart_example :
    (r' : Running NoHints) × (start codec boot config left ≡ ok r')
    × (r'.session.state.daemon.server.man.logs_buffer ≡ after_fourth.server.man.logs_buffer)
    × (r'.session.counter ≡ max_id after_fourth.server.man.logs_buffer)
    × (r'.files ≡ left)
start-restart_example =
    start-restart codec-IsLawful boot boot config config stored left three_logs.logs_buffer first
      behind_fourth.state refl (codec-IsLawful.logs_round three_logs.logs_buffer) starts ran refl
      (refl, refl, refl, refl, refl) refl refl
