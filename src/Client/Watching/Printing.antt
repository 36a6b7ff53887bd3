-- ===== src/Client/Watching/Printing.antt =====
-- What a client that watches prints.
use notifs_piper.Common.{
  ℕ, ◌≤◌, ◌≡◌, refl, ap, ◌∙◌, Bool, true, false, Option, some, List, [], ◌∷◌, ◌++◌, map, Outcome,
  ok, err, arith, ◌==◌, if◌then◌else◌,
}
use notifs_piper.Text.{Text}
use notifs_piper.Event.{NotificationEvent, Serde, IsLawful}
use notifs_piper.Transmission.{Transmission}
use notifs_piper.Transmission.RoundTrip.{transmission_from_str-to_string}
use notifs_piper.Exec.Answering.{answered}
use notifs_piper.Socket.{parsed_data}
use notifs_piper.Cli.{Sub}
use notifs_piper.Listener.Processes.{insert, insert-Distinct}
use notifs_piper.Listener.Requests.{IsUnique}
use notifs_piper.Listener.Order.Maps.{on}
use notifs_piper.Listener.{Listener, handle}
use notifs_piper.Client.Requests.{RequestInRange, send-IsReceived}
use notifs_piper.Client.Runs.{given, print_all-interrupted}
use notifs_piper.Flags.{join, silent, none_flag}
use notifs_piper.Text.Decimal.{max_of}
use notifs_piper.Client.{joined, Peer, send, watch_request, interrupted, run_command}
use notifs_piper.Client.Watching.{
  broadcast_of, broadcast_text, heard, relay, IsNewStream, IsServing, on-remove, relay-on,
}

parsed_back :
    {Hints : Type 0} (serde : Serde Hints) (l : List (ℕ × NotificationEvent Hints))
    → map (λ x. some (parsed_data (ok (broadcast_text serde x.1)))) l
      ≡ map (λ tr. some (ok tr)) (map (λ x. broadcast_of serde x.1) l)
parsed_back serde [] = refl
parsed_back serde ((stream, ne) ∷ l) =
    rw (transmission_from_str-to_string (broadcast_of serde ne) (omega arith))
      (ap (◌∷◌ (some (ok (broadcast_of serde ne)))) (parsed_back serde l))

lines_of :
    {Hints : Type 0} (serde : Serde Hints) (l : List (ℕ × NotificationEvent Hints))
    → map (λ tr. tr.data_text) (map (λ x. broadcast_of serde x.1) l)
      ≡ map (λ x. answered (serde.event_to_string x.1)) l
lines_of serde [] = refl
lines_of serde ((stream, ne) ∷ l) =
    ap (◌∷◌ (answered (serde.event_to_string ne))) (lines_of serde l)

quiet_fits : (quiet : Bool) → join 0 (if quiet then silent else none_flag) ≤ 255
unfolding join
quiet_fits true = omega arith
quiet_fits false = omega arith

module _ {Hints : Type 0} {serde : Serde Hints} (lawful : IsLawful serde) (fails : ℕ → Bool)
    (stream : ℕ) (h : Listener Hints) (utf8_error : Text → Option Text) (peer : Peer)
    (process_id : ℕ) (quiet : Bool) where
  abbrev watching : Listener Hints
  watching = record h {
    listening =
        insert process_id
          (record {
            stream = stream;
            flags = (watch_request {Hints = Hints} process_id quiet).flags;
          })
          h.listening;
  }

  watch-InRange :
      process_id ≤ max_of 32 → RequestInRange (watch_request {Hints = Hints} process_id quiet)
  unfolding watch_request joined
  watch-InRange fits = (tt, fits, quiet_fits quiet)

  -- The listener reads the request and enters the client among those that watch.
  heard-watch :
      process_id ≤ max_of 32
      → (send serde (watch_request process_id quiet) peer).result ≡ some (ok tt)
      → heard serde fails stream (send serde (watch_request process_id quiet) peer).bytes h
        ≡ ok watching
  unfolding heard handle watch_request
  heard-watch fits done =
      let (text, received, parsed) =
        send-IsReceived lawful (watch_request process_id quiet) peer (watch-InRange fits) done in
      rw (received, parsed) refl

  watching-IsServing :
      IsUnique h
      → h.channel.manager_up ≡ true
      → IsNewStream stream h.listening
      → IsServing stream watching
  watching-IsServing unique up new = record {
    unique = (
      unique.0,
      insert-Distinct process_id
          (record {
            stream = stream;
            flags = (watch_request {Hints = Hints} process_id quiet).flags;
          })
          h.listening unique.1,
    );
    up = up;
    listens = λ t.
        let same : (stream == stream) ≡ true = ground arith in
        rw same (ap (◌∷◌ t) (on-remove stream process_id t h.listening new));
  }

  -- If the `send!` of a client's `watch` returns `Ok`, with a pid of 32 bits, on a stream on which no
  -- process watches, that was written nothing and takes writes, the manager runs, and no process
  -- waits or watches twice, then the listener enters the client among the watching processes, and
  -- writes each notification that is broadcast after that, from whatever connections, once to its
  -- stream, in the order of the broadcasts. The client, if its reads give these transmissions and then
  -- an error, prints the JSON of each notification behind the tag `res#`, in that order, and ends with
  -- the error of an interrupted connection. The JSON of an event is taken to be read back as printed.
  pub watch-prints :
      (checks : Bool) (l : List (ℕ × NotificationEvent Hints)) (e : Text)
      (later : List (Option (Outcome Text Transmission)))
      → process_id ≤ max_of 32
      → (send serde (watch_request process_id quiet) peer).result ≡ some (ok tt)
      → IsUnique h
      → h.channel.manager_up ≡ true
      → IsNewStream stream h.listening
      → on stream h.written ≡ []
      → fails stream ≡ false
      → given utf8_error peer.reads
        ≡ map (λ x. some (parsed_data (ok (broadcast_text serde x.1)))) l ++ some (err e) ∷ later
      → (h1 h2 : Listener Hints) × (heard serde fails stream
            (send serde (watch_request process_id quiet) peer).bytes
            h
          ≡ ok h1)
        × (relay serde fails l h1 ≡ ok h2)
        × (on stream h2.written ≡ map (λ x. broadcast_text serde x.1) l)
        × (run_command serde utf8_error peer checks process_id (Sub.watch quiet)
            ≡ some (record {
              sent = (send serde (watch_request process_id quiet) peer).bytes;
              printed = map (λ x. answered (serde.event_to_string x.1)) l;
              result = some (err interrupted);
            }))
  unfolding run_command
  watch-prints checks l e later fits done unique up new fresh works reads =
      let (h2, relayed, out) =
        relay-on lawful fails stream works l watching (watching-IsServing unique up new) in
      let texts : on stream h2.written ≡ map (λ x. broadcast_text serde x.1) l =
        out ∙ ap (λ x. x ++ map (λ y. broadcast_text serde y.1) l) fresh in
      let sent = (send serde (watch_request process_id quiet) peer).bytes in
      let printed =
        print_all-interrupted utf8_error sent e (map (λ x. broadcast_of serde x.1) l) peer.reads
          later (reads ∙ ap (λ x. x ++ some (err e) ∷ later) (parsed_back serde l)) in
      (
        watching,
        h2,
        heard-watch fits done,
        relayed,
        texts,
        rw (done, printed, lines_of serde l) refl,
      )
