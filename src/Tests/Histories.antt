-- ===== src/Tests/Histories.antt =====
-- The run of a call of `notify` as a run of the serial server.
use notifs_piper.Common.{◌≡◌, refl, [], ◌++◌}
use notifs_piper.Server.History.{Serves, visible, all_pushed, all_executed, all_buses}
use notifs_piper.Server.History.Serial.{start-Serves}
use notifs_piper.Tests.Codec.{codec, codec-IsLawful}
use notifs_piper.Tests.Values.{three_logs, distinct}
use notifs_piper.Tests.Sessions.{
  stored, config, boot, first, starts, behind_fourth, served, served-tame,
}

start-Serves_example :
    (all_pushed served ≡ all_executed served ++ behind_fourth.state.daemon.queue)
    × Serves codec config.logs_config
        (record { logs = three_logs.logs_buffer; sent = []; emitted = [] })
        (all_executed served)
        (all_buses served)
        (visible behind_fourth.state.daemon)
start-Serves_example =
    start-Serves codec boot config stored three_logs.logs_buffer first behind_fourth served refl
      (codec-IsLawful.logs_round three_logs.logs_buffer) starts served-tame distinct
