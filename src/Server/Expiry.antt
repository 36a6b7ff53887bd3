-- ===== src/Server/Expiry.antt =====
-- How a notification that nobody closes is closed by its timer.
use notifs_piper.Common.{
  ℕ, ◌+◌, ◌≤◌, ◌<◌, ◌^◌, ◌≡◌, ◌≢◌, refl, ap, ◌∙◌, true, false, none, some, List, [], ◌∷◌, ◌++◌, ok,
  arith, ltb, if◌then◌else◌,
}
use notifs_piper.Common.Int.{pos}
use notifs_piper.Text.{codes}
use notifs_piper.Event.{NotificationEvent, Serde, set_closed}
use notifs_piper.Job.{JobDesc, close, expired}
use notifs_piper.Fulfilled.{EventType, FulfilledJob}
use notifs_piper.Manager.{find, map_timeout}
use notifs_piper.Manager.Buffer.{find-modify_found}
use notifs_piper.Execute.Bus.{Timer, notification_closed, Server}
use notifs_piper.Execute.{execute, closed_or_false}
use notifs_piper.Execute.Closing.{closes, closed_server, execute_close_expired}
use notifs_piper.Execute.Later.{man-run_signal}
use notifs_piper.Exec.{Io}
use notifs_piper.Exec.Answering.{exec_ok}
use notifs_piper.Dbus.{internal}
use notifs_piper.Server.{
  State, Step, wake, send, receive, run, Reach, here, next, pushed, with_timers,
}

abbrev expiry : {Hints : Type 0} → Timer → JobDesc Hints
expiry timer = internal (close timer.id expired)

module _ {Hints : Type 0} (serde : Serde Hints) (io : Io) (srv : Server Hints) (timer : Timer) where
  -- The server behind a close that goes through.
  abbrev closed_by : Server Hints × FulfilledJob
  closed_by = closes io.env timer.id expired (record { pid = 0; flags = 0 }) srv

  closed_by-closed :
      (ne : NotificationEvent Hints)
      → find timer.id srv.man.logs_buffer ≡ some ne
      → closed_or_false (find timer.id closed_by.0.man.logs_buffer) ≡ true
  closed_by-closed ne found =
      let same =
        man-run_signal io.env (codes "Cannot emit 'notification_closed' signal.")
          (notification_closed timer.id 1) (EventType.close timer.id)
          (closed_server io.env timer.id expired (record { pid = 0; flags = 0 }) srv) in
      rw (same, find-modify_found timer.id set_closed (λ e. refl) srv.man.logs_buffer ne found) refl

  execute-expiry :
      (ne : NotificationEvent Hints) (v : ℕ)
      → srv.man.logs_config.auto_close ≡ true
      → find timer.id srv.man.logs_buffer ≡ some ne
      → ne.closed ≡ false
      → ne.timeout ≢ pos 0
      → map_timeout srv.man ne.timeout ≡ ok (some v)
      → v + ne.time ≤ io.env.system_time
      → v + ne.time < 2 ^ 128
      → execute serde io.env (close timer.id expired) (record { pid = 0; flags = 0 }) srv
        ≡ ok closed_by
  unfolding execute
  execute-expiry ne v auto found still_open timed fits late small =
      let past : ltb io.env.system_time (v + ne.time) ≡ false = ground arith in
      let ran =
        execute_close_expired io.env timer.id (record { pid = 0; flags = 0 }) srv ne v auto found
          still_open timed fits small in
      rw past at ran

module _ {Hints : Type 0} (serde : Serde Hints) (io : Io) (s : State Hints)
    (before after : List Timer) (timer : Timer) where
  -- The state behind the timer that has woken.
  abbrev woken : State Hints
  woken = record s {
    daemon = with_timers (before ++ after) (pushed (expiry timer) s.daemon);
    in_flight = s.in_flight + 1;
  }

  abbrev signalled : State Hints
  signalled = record s { daemon = woken.daemon; signals = s.signals + 1 }

  abbrev awake : State Hints
  awake = record s { daemon = woken.daemon; received = true }

  -- The threads go on until the manager has received the signal of the timer.
  reaches_awake :
      (now : ℕ)
      → s.daemon.server.timers ≡ before ++ timer ∷ after
      → timer.snd ≡ true
      → timer.wakeup ≤ now
      → s.received ≡ false
      → Reach serde s awake
  reaches_awake now timers can due waits =
      let e : woken ≡ record woken { in_flight = s.in_flight + (if timer.snd then 1 else 0) } =
        rw can refl in
      let step1 : Step serde s woken = wake before after timer now timers due e in
      let step2 : Step serde woken signalled = send s.in_flight (omega arith) refl in
      let step3 : Step serde signalled awake = receive s.signals (omega arith) waits refl in
      next (next (next here step1) step2) step3

  -- With automatic closing, a timer whose thread can signal, and whose notification is stored, open
  -- and has a valid timeout, leads to its close: where the queue is empty, the manager waits for a
  -- signal, the file and the socket take what is written, and both clocks are behind the expiry, which fits in 128 bits,
  -- the threads reach a state in which the notification is closed and the queue is empty.
  pub expiry_closes :
      (ne : NotificationEvent Hints) (v now : ℕ)
      → s.daemon.server.timers ≡ before ++ timer ∷ after
      → timer.snd ≡ true
      → timer.wakeup ≤ now
      → s.daemon.queue ≡ []
      → s.received ≡ false
      → s.daemon.server.man.logs_config.auto_close ≡ true
      → find timer.id s.daemon.server.man.logs_buffer ≡ some ne
      → ne.closed ≡ false
      → ne.timeout ≢ pos 0
      → map_timeout s.daemon.server.man ne.timeout ≡ ok (some v)
      → v + ne.time ≤ io.env.system_time
      → v + ne.time < 2 ^ 128
      → io.write_error ≡ none
      → io.socket_error ≡ none
      → (t : State Hints) × Reach serde s t
        × (closed_or_false (find timer.id t.daemon.server.man.logs_buffer) ≡ true)
        × (t.daemon.queue ≡ [])
  expiry_closes ne v now timers can due empty waits auto found still_open timed fits late small w
        w' =
      let srv = woken.daemon.server in
      let ran =
        execute-expiry serde io srv timer ne v auto found still_open timed fits late small in
      let one : woken.daemon.queue ≡ expiry timer ∷ [] = ap (λ q. q ++ expiry timer ∷ []) empty in
      let (d', st, run_ok, left, logs) =
        exec_ok serde io (expiry timer) woken.daemon (closed_by serde io srv timer).0
          (closed_by serde io srv timer).1 one w w' ran in
      let t : State Hints = record s { daemon = d'; received = false } in
      let last : Step serde awake t = run io d' st refl run_ok refl in
      (
        t,
        next (reaches_awake now timers can due waits) last,
        ap (λ l. closed_or_false (find timer.id l)) logs
            ∙ closed_by-closed serde io srv timer ne found,
        left,
      )
