-- ===== src/Client/Exchange.antt =====
-- A request, its job, and its answer, through the client, the listener and the manager.
use notifs_piper.Common.{
  ℕ, ◌-◌, ◌≤◌, ◌≡◌, ◌≢◌, refl, ◌∙◌, ap, sym, Bool, true, false, not, none, some, List, [], ◌∷◌,
  ◌++◌, take, drop, Outcome, ok, ◌>>=◌, if◌then◌else◌,
}
use notifs_piper.Text.{Text, codes, text_eq}
use notifs_piper.Text.Decimal.{max_of}
use notifs_piper.Flags.{is, silent}
use notifs_piper.Event.{NotificationEvent, Serde, IsLawful, set_read}
use notifs_piper.Job.{canonical_name, query, read}
use notifs_piper.Fulfilled.{FulfilledJob, value, results, fulfilled_to_string}
use notifs_piper.Transmission.{Transmission, outgoing, from_fulfilled, transmission_to_string}
use notifs_piper.Transmission.RoundTrip.{transmission_from_str-to_string}
use notifs_piper.Manager.{find}
use notifs_piper.Manager.Reading.{read_logs_lem, map_window}
use notifs_piper.Execute.Bus.{Server}
use notifs_piper.Execute.{execute, execute_query, execute_read, bool_text, closed_or_false}
use notifs_piper.Exec.{Io, Daemon, exec}
use notifs_piper.Exec.Answering.{
  bool_text_ne_nil, last_sent, last_sent-append, answered, result_text-some, exec-reply,
}
use notifs_piper.Listener.Requests.{handle-answer}
use notifs_piper.Listener.{Listener, handle}
use notifs_piper.Socket.{parsed_data}
use notifs_piper.Client.Requests.{RequestInRange, IsReceived, send-IsReceived}
use notifs_piper.Client.{Request, Peer, described, send}

-- The way of one request: the listener reads the client's bytes from `stream` and queues the job,
-- the manager runs it, the listener reads the manager's answer from `stream'` and passes it on.
unfoldable pub round :
    {Hints : Type 0}
    → Serde Hints
    → Io
    → (ℕ → Bool)
    → ℕ
    → ℕ
    → Text
    → Listener Hints
    → Daemon Hints
    → Outcome Text (Listener Hints × Daemon Hints)
round serde io fails stream stream' bytes h d = do
  tr ← parsed_data (ok bytes)
  h1 ← handle serde fails stream (ok tr) h
  (d', st) ← exec serde io (record d { queue = h1.channel.queue })
  text ← last_sent d'.sent
  tr' ← parsed_data (ok text)
  h2 ← handle serde fails stream' (ok tr') h1
  ok (h2, d')

module _ {Hints : Type 0} {serde : Serde Hints} (lawful : IsLawful serde) (io : Io)
    (fails : ℕ → Bool) (stream stream' : ℕ) (h : Listener Hints) (d : Daemon Hints) where
  -- The answer to a request goes back to the stream of the request.
  round-answer :
      (r : Request Hints) (bytes : Text) (s : Server Hints) (fj : FulfilledJob) (t : Text)
      → IsReceived serde r bytes
      → r.pid ≢ 0
      → r.pid ≤ max_of 32
      → text_eq (canonical_name r.job) (codes "watch") ≡ false
      → fails stream ≡ false
      → h.channel.manager_up ≡ true
      → h.channel.queue ≡ []
      → io.write_error ≡ none
      → io.socket_error ≡ none
      → execute serde io.env r.job (described serde r).desc d.server ≡ ok (s, fj)
      → fj.result ≡ value (some t)
      → (h' : Listener Hints) × (d' : Daemon Hints) × (round serde io fails stream stream' bytes h d
          ≡ ok (h', d'))
        × (h'.written
            ≡ h.written
              ++ (
                stream,
                transmission_to_string
                    (record { typ = outgoing r.pid; data_text = fulfilled_to_string fj }),
              )
                ∷ [])
        × (d'.server.man.logs_buffer ≡ s.man.logs_buffer)
  unfolding round from_fulfilled
  round-answer r bytes s fj t (text, received, parsed) some_pid fits asks open_stream up empty w w'
        run v =
      let jd = described serde r in
      let reply : Transmission = record {
        typ = outgoing r.pid;
        data_text = fulfilled_to_string fj;
      } in
      let (h1, h2, first, queue, second, out, _) =
        handle-answer serde fails stream stream' r.pid text (fulfilled_to_string fj) jd h some_pid
          parsed asks up in
      let one : h1.channel.queue ≡ jd ∷ [] = queue ∙ ap (λ l. l ++ jd ∷ []) empty in
      let (d', ran, sent, _, logs, _) =
        exec-reply serde io jd (record d { queue = h1.channel.queue }) s fj t [] one w w' run v in
      let last : last_sent d'.sent ≡ ok (transmission_to_string reply) =
        rw sent (last_sent-append d.sent (transmission_to_string reply)) in
      (
        h2,
        d',
        rw (received, first, ran, last, transmission_from_str-to_string reply fits, second),
        rw open_stream at out,
        logs,
      )

-- The stream and the bytes of the answer that carries the logs from `start` up to `end`.
abbrev pub window_reply :
    {Hints : Type 0} → Serde Hints → ℕ → ℕ → ℕ → ℕ → List (NotificationEvent Hints) → ℕ × Text
window_reply serde stream pid start end l = (
  stream,
  transmission_to_string (record {
    typ = outgoing pid;
    data_text = answered (serde.logs_to_string (take (end - start) (drop start l)));
  }),
)

module _ {Hints : Type 0} {serde : Serde Hints} (lawful : IsLawful serde) (io : Io)
    (fails : ℕ → Bool) (stream stream' : ℕ) (h : Listener Hints) (d : Daemon Hints) where
  -- If a client's `send!` of a query returns `Ok`, with the numbers in range and a pid that is not
  -- 0, the client's stream takes writes, the manager runs with an empty queue, and the file and the
  -- socket of its thread take what is written, then the way of the request ends with exactly one
  -- write: to the client's stream, of the transmission for its pid with `true` or `false`, as the
  -- stored notification is closed or not, and `false` if none is stored. The logs stay as they
  -- were.
  pub round_query :
      (r : Request Hints) (peer : Peer) (id : ℕ)
      → r.job ≡ query id
      → RequestInRange r
      → r.pid ≢ 0
      → (send serde r peer).result ≡ some (ok tt)
      → fails stream ≡ false
      → h.channel.manager_up ≡ true
      → h.channel.queue ≡ []
      → io.write_error ≡ none
      → io.socket_error ≡ none
      → (h' : Listener Hints) × (d' : Daemon Hints) × (round serde io fails stream stream'
            (send serde r peer).bytes
            h
            d
          ≡ ok (h', d'))
        × (h'.written
            ≡ h.written
              ++ (
                stream,
                transmission_to_string (record {
                  typ = outgoing r.pid;
                  data_text =
                      answered (bool_text (closed_or_false (find id d.server.man.logs_buffer)));
                }),
              )
                ∷ [])
        × (d'.server.man.logs_buffer ≡ d.server.man.logs_buffer)
  unfolding execute execute_query
  round_query r peer id asks range some_pid done open_stream up empty w w' =
      let answer = bool_text (closed_or_false (find id d.server.man.logs_buffer)) in
      let (h', d', ran, out, logs) =
        round-answer lawful io fails stream stream' h d r (send serde r peer).bytes d.server
          (record { result = value (some answer); typ = results }) answer
          (send-IsReceived lawful r peer range done) some_pid range.1 (rw asks refl) open_stream up
          empty w w' (rw asks refl) refl in
      (
        h',
        d',
        ran,
        rw
            (result_text-some answer
              (bool_text_ne_nil (closed_or_false (find id d.server.man.logs_buffer))))
            at out,
        logs,
      )

  -- If a client's `send!` of a reading whose start is not behind its end returns `Ok`, with the
  -- numbers in range and a pid that is not 0, the client's stream takes writes, the manager runs
  -- with an empty queue, and the file and the socket of its thread take what is written, then the
  -- way of the request ends with exactly one write: to the client's stream, of the transmission for
  -- its pid with the JSON of the window of the logs as they are afterwards. The notifications of
  -- the window are then marked as read, unless the request is silent; nothing else has changed in
  -- the logs.
  pub round_read :
      (r : Request Hints) (peer : Peer) (start end : ℕ)
      → r.job ≡ read start end
      → start ≤ end
      → RequestInRange r
      → r.pid ≢ 0
      → (send serde r peer).result ≡ some (ok tt)
      → fails stream ≡ false
      → h.channel.manager_up ≡ true
      → h.channel.queue ≡ []
      → io.write_error ≡ none
      → io.socket_error ≡ none
      → (h' : Listener Hints) × (d' : Daemon Hints) × (round serde io fails stream stream'
            (send serde r peer).bytes
            h
            d
          ≡ ok (h', d'))
        × (h'.written
            ≡ h.written ++ window_reply serde stream r.pid start end d'.server.man.logs_buffer ∷ [])
        × (d'.server.man.logs_buffer ≡ (
            if not (is silent r.flags)
            then map_window set_read start end d.server.man.logs_buffer
            else d.server.man.logs_buffer))
  unfolding execute execute_read
  round_read r peer start end asks ordered range some_pid done open_stream up empty w w' =
      let (man', cut, marked, _) =
        read_logs_lem d.server.man start end (not (is silent r.flags)) ordered in
      let answer = serde.logs_to_string (take (end - start) (drop start man'.logs_buffer)) in
      let (h', d', ran, out, logs) =
        round-answer lawful io fails stream stream' h d r (send serde r peer).bytes
          (record d.server { man = man' }) (record { result = value (some answer); typ = results })
          answer (send-IsReceived lawful r peer range done) some_pid range.1 (rw asks refl)
          open_stream up empty w w' (rw (asks, cut) refl) refl in
      (
        h',
        d',
        ran,
        rw (result_text-some answer (lawful.logs_ne_nil _)) at out
            ∙ ap (λ l. h.written ++ window_reply serde stream r.pid start end l ∷ []) (sym logs),
        logs ∙ marked,
      )
