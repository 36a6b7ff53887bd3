-- ===== src/Client/Dismissing/Told.antt =====
-- The queries behind a close.
use notifs_piper.Common.{
  ℕ, ◌≤◌, ◌≡◌, refl, ap, ◌∙◌, Bool, true, false, none, some, List, [], ◌∷◌, ◌++◌, map, ok, All,
}
use notifs_piper.Text.{Text}
use notifs_piper.Text.Decimal.{max_of}
use notifs_piper.Event.{NotificationEvent, Serde, IsLawful, set_closed}
use notifs_piper.Manager.{find}
use notifs_piper.Manager.Buffer.{find-modify_found}
use notifs_piper.Execute.Bus.{notification_closed}
use notifs_piper.Exec.{Io, Daemon}
use notifs_piper.Listener.Processes.{Distinct}
use notifs_piper.Listener.Delivery.{working}
use notifs_piper.Listener.{Listener}
use notifs_piper.Client.{Peer, send}
use notifs_piper.Client.Crowd.{Asker, reply_to, connections, served, HasSent, ArePidsDistinct}
use notifs_piper.Execute.Results.Reported.{told_closed_lem}
use notifs_piper.Client.Crowd.Answered.{crowd-answered}
use notifs_piper.Client.Dismissing.{dismissal, Emits, close_text, told}
use notifs_piper.Client.Dismissing.Serving.{served-dismissal}

module _ {Hints : Type 0} (id : ℕ) (logs : List (NotificationEvent Hints)) where
  replies-told :
      (ne : NotificationEvent Hints) (l : List Asker)
      → find id logs ≡ some ne
      → ne.closed ≡ true
      → All (λ a. a.id ≡ id) l
      → map {B = ℕ × Text} (λ a. (a.stream, reply_to logs a)) l ≡ map (λ a. (a.stream, told a)) l
  replies-told ne [] found shut same = refl
  replies-told ne (a ∷ l) found shut (e, same) =
      rw (e, ← told_closed_lem id logs, found, shut)
        (ap (◌∷◌ (a.stream, told a)) (replies-told ne l found shut same))

module _ {Hints : Type 0} {serde : Serde Hints} (lawful : IsLawful serde) (io : Io)
    (fails : ℕ → Bool) (stream own : ℕ) (process_id id : ℕ) (forced : Bool) (peer : Peer)
    (h : Listener Hints) (d : Daemon Hints) where
  -- Let `send!` return `Ok` for the request of `signal <id> closed`, forced or not, with an id in
  -- range, where the first stored notification with this id is open. Let the bus take the signal, no
  -- process watch twice, the manager be up with an empty queue, its file and its socket take writes,
  -- and the JSON codec be lawful. When the request is served, no step fails; every watching process
  -- whose stream takes it is written the event of the close once, and the bus is told
  -- `NotificationClosed` with the reason 2 once. If then clients query this id at once, each with a
  -- pid of its own other than zero, its request sent and in range and its stream taking writes, no
  -- step fails either, and each of them is written exactly one answer on its own stream, in the order
  -- of the requests: `true`.
  pub dismissal-told :
      (l : List Asker) (ne : NotificationEvent Hints)
      → id ≤ max_of 32
      → (send serde (dismissal process_id id forced) peer).result ≡ some (ok tt)
      → find id d.server.man.logs_buffer ≡ some ne
      → ne.closed ≡ false
      → Emits io.env d.server
      → Distinct h.listening
      → h.channel.manager_up ≡ true
      → h.channel.queue ≡ []
      → io.write_error ≡ none
      → io.socket_error ≡ none
      → All (HasSent serde fails) l
      → ArePidsDistinct l
      → All (λ a. a.id ≡ id) l
      → (h1 : Listener Hints) × (d1 : Daemon Hints) × (h2 : Listener Hints) × (d2 : Daemon Hints)
        × (served serde io fails stream
              ((own, (send serde (dismissal process_id id forced) peer).bytes) ∷ [])
              h
              d
            ≡ ok (h1, d1))
        × (h1.written
            ≡ h.written ++ map (λ e. (e.1.stream, close_text id)) (working fails h.listening))
        × (d1.server.emitted ≡ d.server.emitted ++ notification_closed id 2 ∷ [])
        × (served serde io fails stream (connections serde l) h1 d1 ≡ ok (h2, d2))
        × (h2.written ≡ h1.written ++ map (λ a. (a.stream, told a)) l)
  dismissal-told l ne range done found open_ne emits distinct up empty writes sends sent pids same =
      let (h1, d1, ran, shown, emitted, logs, left, up') =
        served-dismissal lawful io fails stream own process_id id forced peer h d ne range done
          found open_ne emits distinct up empty writes sends in
      let (h2, d2, ran', out, _, _, _) =
        crowd-answered lawful io fails stream l h1 d1 sent pids up' left writes sends in
      let shut : find id d1.server.man.logs_buffer ≡ some (set_closed ne) =
        ap (find id) logs
        ∙ find-modify_found id set_closed (λ e. refl) d.server.man.logs_buffer ne found in
      (
        h1,
        d1,
        h2,
        d2,
        ran,
        shown,
        emitted,
        ran',
        out
            ∙ ap (λ w. h1.written ++ w)
                (replies-told id d1.server.man.logs_buffer (set_closed ne) l shut refl same),
      )
