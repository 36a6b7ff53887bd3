-- ===== src/Manager/Retention.antt =====
-- How many notifications the buffer holds: `append_notification` and `max_logs`.
use notifs_piper.Common.{
  ◌+◌, ◌-◌, ◌≤◌, ◌<◌, ◌≡◌, ◌⊎◌, refl, true, some, length, min, arith, ◌==◌, if◌then◌else◌,
}
use notifs_piper.Event.{NotificationEvent}
use notifs_piper.Manager.{LogsManager, find, append_notification}
use notifs_piper.Manager.Buffer.{length-pop_back}

-- The buffer respects the configured bound.
abbrev pub IsBounded : {Hints : Type 0} → LogsManager Hints → Type 0
IsBounded man = length man.logs_buffer ≤ man.logs_config.max_logs

module _ {Hints : Type 0} (man : LogsManager Hints) (ne : NotificationEvent Hints) where
  length-append_notification : length (append_notification man ne).logs_buffer ≡ (
      if length man.logs_buffer == man.logs_config.max_logs
      then length man.logs_buffer - 1 + 1
      else length man.logs_buffer + 1)
  unfolding append_notification
  length-append_notification = ground (arith, length-pop_back man.logs_buffer)

  -- With room for at least one notification, a buffer within its bound stays within it: it grows by
  -- one until it is full, and keeps its length from then on.
  pub length-append_notification_bounded :
      0 < man.logs_config.max_logs
      → IsBounded man
      → length (append_notification man ne).logs_buffer
        ≡ min (length man.logs_buffer + 1) man.logs_config.max_logs
  length-append_notification_bounded some_room fits = ground (arith, length-append_notification)

  -- A buffer beyond its bound, or with a bound of zero, grows by one at every notification: only
  -- the exact bound makes room.
  pub length-append_notification_overfull :
      (man.logs_config.max_logs < length man.logs_buffer) ⊎ (man.logs_config.max_logs ≡ 0)
      → length (append_notification man ne).logs_buffer ≡ length man.logs_buffer + 1
  length-append_notification_overfull h = ground (arith, length-append_notification)

  -- The new notification stands in front, is found by its id, and the buffer is to be written.
  pub append_notification-find :
      (find ne.id (append_notification man ne).logs_buffer ≡ some ne)
      × ((append_notification man ne).dirty ≡ true)
  unfolding append_notification find
  append_notification-find = (ground arith, refl)

  pub config-append_notification : (append_notification man ne).logs_config ≡ man.logs_config
  unfolding append_notification
  config-append_notification = refl
