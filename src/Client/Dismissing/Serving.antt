-- ===== src/Client/Dismissing/Serving.antt =====
-- The way of the close itself.
use notifs_piper.Common.{
  ℕ, ◌≤◌, ◌≡◌, refl, ap, Bool, true, false, none, some, [], ◌∷◌, ◌++◌, map, ok, inl, arith, length,
  if◌then◌else◌,
}
use notifs_piper.Text.{codes}
use notifs_piper.Text.Decimal.{max_of}
use notifs_piper.Flags.{join, force, none_flag}
use notifs_piper.Event.{NotificationEvent, Serde, IsLawful, set_closed}
use notifs_piper.Job.{close, dismissed, Desc}
use notifs_piper.Fulfilled.{
  EventType, event, FulfilledJob, value, event_to_string, fulfilled_to_string,
}
use notifs_piper.Transmission.{Transmission, outgoing, from_fulfilled}
use notifs_piper.Transmission.RoundTrip.{transmission_from_str-to_string}
use notifs_piper.Manager.{find, modify_found}
use notifs_piper.Execute.Bus.{Env, Server, notification_closed}
use notifs_piper.Execute.Signals.{run_signal, emit}
use notifs_piper.Execute.Closing.{closed_server, execute_close_found, drops_other}
use notifs_piper.Execute.{execute}
use notifs_piper.Exec.{Io, Daemon}
use notifs_piper.Exec.Answering.{exec-reply}
use notifs_piper.Listener.Processes.{Distinct}
use notifs_piper.Listener.Delivery.{working, relayed, handle-event}
use notifs_piper.Listener.{Listener}
use notifs_piper.Client.{Request, Peer, described, send, signal_request, joined}
use notifs_piper.Client.Watching.{heard}
use notifs_piper.Client.Crowd.{served, heard_all, work}
use notifs_piper.Client.Crowd.Asking.{queued, heard-queued}
use notifs_piper.Client.Dismissing.{dismissal, Emits, close_text}

force_fits : (forced : Bool) → joined ((if forced then force else none_flag) ∷ []) ≤ 255
unfolding joined join
force_fits true = omega arith
force_fits false = omega arith

abbrev close_done : ℕ → FulfilledJob
close_done id = record { result = value (some []); typ = event (EventType.close id) }

module _ {Hints : Type 0} (serde : Serde Hints) (env : Env) (id : ℕ) (desc : Desc)
    (s : Server Hints) where
  abbrev dismissed_server : Server Hints
  dismissed_server = record (closed_server env id dismissed desc s) {
    emitted = s.emitted ++ notification_closed id 2 ∷ [];
  }

  execute-dismissed :
      (ne : NotificationEvent Hints)
      → find id s.man.logs_buffer ≡ some ne
      → ne.closed ≡ false
      → Emits env s
      → execute serde env (close id dismissed) desc s ≡ ok (dismissed_server, close_done id)
  unfolding execute run_signal emit
  execute-dismissed ne found open_ne (runs, up, seen, emits) =
      rw
        (
          execute_close_found env id dismissed desc s ne false found (inl open_ne)
              (drops_other env s.man ne dismissed refl),
          runs,
          up,
          seen,
          emits,
        )
        refl

module _ {Hints : Type 0} {serde : Serde Hints} (lawful : IsLawful serde) (io : Io)
    (fails : ℕ → Bool) (stream own : ℕ) (process_id id : ℕ) (forced : Bool) (peer : Peer)
    (h : Listener Hints) (d : Daemon Hints) where
  -- A close that goes through marks the notification, and is announced.
  pub served-dismissal :
      (ne : NotificationEvent Hints)
      → id ≤ max_of 32
      → (send serde (dismissal process_id id forced) peer).result ≡ some (ok tt)
      → find id d.server.man.logs_buffer ≡ some ne
      → ne.closed ≡ false
      → Emits io.env d.server
      → Distinct h.listening
      → h.channel.manager_up ≡ true
      → h.channel.queue ≡ []
      → io.write_error ≡ none
      → io.socket_error ≡ none
      → (h' : Listener Hints) × (d' : Daemon Hints) × (served serde io fails stream
            ((own, (send serde (dismissal process_id id forced) peer).bytes) ∷ [])
            h
            d
          ≡ ok (h', d'))
        × (h'.written
            ≡ h.written ++ map (λ e. (e.1.stream, close_text id)) (working fails h.listening))
        × (d'.server.emitted ≡ d.server.emitted ++ notification_closed id 2 ∷ [])
        × (d'.server.man.logs_buffer ≡ modify_found set_closed id d.server.man.logs_buffer)
        × (h'.channel.queue ≡ [])
        × (h'.channel.manager_up ≡ true)
  unfolding served heard_all work heard from_fulfilled fulfilled_to_string signal_request
  served-dismissal ne range done found open_ne emits distinct up empty writes sends =
      let r : Request Hints = dismissal process_id id forced in
      let jd = described serde r in
      let hq = queued serde r own h in
      let one : hq.channel.queue ≡ jd ∷ [] = ap (λ q. q ++ jd ∷ []) empty in
      let heard_one =
        heard-queued lawful fails r peer own h (range, omega arith, force_fits forced) done refl
          up in
      let (d', ran, sent, left, logs, emitted) =
        exec-reply serde io jd (record d { queue = hq.channel.queue; sent = [] })
          (dismissed_server serde io.env id jd.desc d.server) (close_done id) [] [] one writes sends
          (execute-dismissed serde io.env id jd.desc d.server ne found open_ne emits) refl in
      let left_h : Listener Hints = record hq {
        channel = record hq.channel { queue = d'.queue };
      } in
      let reply : Transmission = record {
        typ = outgoing 0;
        data_text = codes "ev#" ++ event_to_string (EventType.close id);
      } in
      let shown =
        handle-event fails left_h serde stream (value (some [])) (EventType.close id) range
          distinct in
      (
        relayed fails left_h (fulfilled_to_string (close_done id)),
        d',
        rw
            (
              heard_one,
              ap length one,
              ran,
              sent,
              transmission_from_str-to_string reply (omega arith),
              shown,
            )
            refl,
        refl,
        emitted,
        logs,
        left,
        up,
      )
