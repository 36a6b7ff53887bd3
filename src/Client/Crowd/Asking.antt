-- ===== src/Client/Crowd/Asking.antt =====
-- The listener reads the requests of many clients, and the answers for them.
use notifs_piper.Common.{
  ℕ, ◌+◌, ◌≡◌, refl, sym, ◌∙◌, Bool, true, false, some, List, [], ◌∷◌, ◌++◌, append_assoc,
  append-nil, map, ok, arith, ◌==◌, All,
}
use notifs_piper.Text.{codes, text_eq}
use notifs_piper.Event.{NotificationEvent, Serde, IsLawful}
use notifs_piper.Dbus.{push_job}
use notifs_piper.Execute.Spec.{told_closed}
use notifs_piper.Exec.Answering.{answered}
use notifs_piper.Transmission.{Transmission, outgoing}
use notifs_piper.Transmission.RoundTrip.{transmission_from_str-to_string}
use notifs_piper.Listener.Processes.{
  lookup, insert, remove, Fresh, lookup-insert, lookup-insert_other, lookup-remove_other,
}
use notifs_piper.Listener.{Listener, handle, answer, write_or_log}
use notifs_piper.Client.Requests.{RequestInRange, send-IsReceived}
use notifs_piper.Job.{canonical_name}
use notifs_piper.Client.Watching.{heard}
use notifs_piper.Client.{Request, Peer, described, send}
use notifs_piper.Client.Crowd.{
  Asker, request_of, jobs_of, reply_to, heard_all, connections, HasSent, ArePidsDistinct,
}

abbrev pairs : List Asker → List (ℕ × ℕ)
pairs l = map (λ a. (a.pid, a.stream)) l

module _ {Hints : Type 0} (serde : Serde Hints) where
  -- The listener behind a request.
  abbrev pub queued : Request Hints → ℕ → Listener Hints → Listener Hints
  queued r stream h = record h {
    active = insert r.pid stream h.active;
    channel = record h.channel {
      queue = h.channel.queue ++ described serde r ∷ [];
      signals = h.channel.signals + 1;
    };
  }

  abbrev asked : Asker → Listener Hints → Listener Hints
  asked a h = queued (request_of a) a.stream h

  abbrev pub all_asked : List Asker → Listener Hints → Listener Hints
  all_asked [] h = h
  all_asked (a ∷ l) h = all_asked l (asked a h)

  pub up-all_asked :
      (l : List Asker) (h : Listener Hints)
      → h.channel.manager_up ≡ true
      → (all_asked l h).channel.manager_up ≡ true
  up-all_asked [] h up = up
  up-all_asked (a ∷ l) h up = up-all_asked l (asked a h) up

  pub written-all_asked :
      (l : List Asker) (h : Listener Hints) → (all_asked l h).written ≡ h.written
  written-all_asked [] h = refl
  written-all_asked (a ∷ l) h = written-all_asked l (asked a h)

  pub queue-all_asked :
      (l : List Asker) (h : Listener Hints)
      → (all_asked l h).channel.queue ≡ h.channel.queue ++ jobs_of serde l
  queue-all_asked [] h = sym (append-nil h.channel.queue)
  queue-all_asked (a ∷ l) h =
      queue-all_asked l (asked a h)
      ∙ append_assoc h.channel.queue (described serde (request_of a) ∷ []) (jobs_of serde l)

  lookup-all_asked :
      (p : ℕ) (l : List Asker) (h : Listener Hints)
      → Fresh p (pairs l)
      → lookup p (all_asked l h).active ≡ lookup p h.active
  lookup-all_asked p [] h f = refl
  lookup-all_asked p (a ∷ l) h (other, f) =
      lookup-all_asked p l (asked a h) f
      ∙ lookup-insert_other p a.pid a.stream h.active (λ q. other (sym q))

  -- Every client waits with its stream.
  abbrev pub AllWait : List Asker → List (ℕ × ℕ) → Type 0
  AllWait l active = All (λ a. lookup a.pid active ≡ some a.stream) l

  pub all_asked-AllWait :
      (l : List Asker) (h : Listener Hints) → ArePidsDistinct l → AllWait l (all_asked l h).active
  all_asked-AllWait [] h d = tt
  all_asked-AllWait (a ∷ l) h (f, d) = (
    lookup-all_asked a.pid l (asked a h) f ∙ lookup-insert a.pid a.stream h.active,
    all_asked-AllWait l (asked a h) d,
  )

  remove-AllWait :
      (p : ℕ) (l : List Asker) (active : List (ℕ × ℕ))
      → Fresh p (pairs l)
      → AllWait l active
      → AllWait l (remove p active)
  remove-AllWait p [] active f w = tt
  remove-AllWait p (a ∷ l) active (other, f) (w, ws) =
      (lookup-remove_other a.pid p active other ∙ w, remove-AllWait p l active f ws)

module _ {Hints : Type 0} {serde : Serde Hints} (lawful : IsLawful serde) (fails : ℕ → Bool) where
  -- The listener queues a request that was sent, if it is no `watch`.
  pub heard-queued :
      (r : Request Hints) (peer : Peer) (stream : ℕ) (h : Listener Hints)
      → RequestInRange r
      → (send serde r peer).result ≡ some (ok tt)
      → text_eq (canonical_name r.job) (codes "watch") ≡ false
      → h.channel.manager_up ≡ true
      → heard serde fails stream (send serde r peer).bytes h ≡ ok (queued serde r stream h)
  unfolding heard handle push_job
  heard-queued r peer stream h range done asks up =
      let (text, received, parsed) = send-IsReceived lawful r peer range done in
      rw (received, parsed, asks, up) refl

  pub heard_all-requests :
      (l : List Asker) (h : Listener Hints)
      → All (HasSent serde fails) l
      → h.channel.manager_up ≡ true
      → heard_all serde fails (connections serde l) h ≡ ok (all_asked serde l h)
  unfolding heard_all
  heard_all-requests [] h s up = refl
  heard_all-requests (a ∷ l) h ((some_pid, range, done, open_stream), ss) up =
      rw (heard-queued (request_of a) a.peer a.stream h range done refl up)
        (heard_all-requests l (asked serde a h) ss up)

module _ {Hints : Type 0} where
  -- The listener behind an answer.
  abbrev replied : List (NotificationEvent Hints) → Asker → Listener Hints → Listener Hints
  replied logs a h = record h {
    active = remove a.pid h.active;
    written = h.written ++ (a.stream, reply_to logs a) ∷ [];
  }

module _ {Hints : Type 0} (serde : Serde Hints) (fails : ℕ → Bool)
    (logs : List (NotificationEvent Hints)) where
  heard-reply :
      (stream : ℕ) (a : Asker) (h : Listener Hints)
      → HasSent serde fails a
      → lookup a.pid h.active ≡ some a.stream
      → heard serde fails stream (reply_to logs a) h ≡ ok (replied logs a h)
  unfolding heard handle answer write_or_log
  heard-reply stream a h (some_pid, range, done, open_stream) waits =
      let reply : Transmission = record {
        typ = outgoing a.pid;
        data_text = answered (told_closed a.id logs);
      } in
      let other_pid : (a.pid == 0) ≡ false = ground arith in
      rw (transmission_from_str-to_string reply range.1, other_pid, answer, waits, open_stream) refl

  pub heard_all-replies :
      (stream : ℕ) (l : List Asker) (h : Listener Hints)
      → All (HasSent serde fails) l
      → ArePidsDistinct l
      → AllWait serde l h.active
      → (h' : Listener Hints) × (heard_all serde fails
            (map (λ t. (stream, t)) (map (λ a. reply_to logs a) l))
            h
          ≡ ok h')
        × (h'.written ≡ h.written ++ map (λ a. (a.stream, reply_to logs a)) l)
        × (h'.channel ≡ h.channel)
  unfolding heard_all
  heard_all-replies stream [] h s d w = (h, refl, sym (append-nil h.written), refl)
  heard_all-replies stream (a ∷ l) h (s, ss) (f, d) (w, ws) =
      let (h', relayed, out, same) =
        heard_all-replies stream l (replied logs a h) ss d
          (remove-AllWait serde a.pid l h.active f ws) in
      (
        h',
        rw (heard-reply stream a h s w) relayed,
        out
            ∙ append_assoc h.written ((a.stream, reply_to logs a) ∷ [])
                (map (λ x. (x.stream, reply_to logs x)) l),
        same,
      )
