-- ===== src/Server/Announcing.antt =====
-- A notification on its way from the bus to the processes that watch.
use notifs_piper.Common.{
  some, ℕ, ◌+◌, ◌≡◌, refl, sym, ap, ◌∙◌, Bool, true, none, List, [], ◌∷◌, ◌++◌, Outcome, ok, arith,
  ◌>>=◌,
}
use notifs_piper.Text.{Text}
use notifs_piper.Event.{NotificationEvent, Serde, IsLawful}
use notifs_piper.Job.{JobDesc, broadcast}
use notifs_piper.Transmission.{Transmission, outgoing, from_fulfilled, transmission_to_string}
use notifs_piper.Transmission.RoundTrip.{transmission_from_str-to_string}
use notifs_piper.Manager.{find, append_notification}
use notifs_piper.Manager.Retention.{append_notification-find}
use notifs_piper.Execute.Broadcast.{replace}
use notifs_piper.Execute.Total.{shown, execute-broadcast}
use notifs_piper.Exec.{ExecState, Io, Daemon, exec}
use notifs_piper.Exec.Answering.{
  last_sent, last_sent-append, answered, result_text-some, exec-reply,
}
use notifs_piper.Dbus.{NotifyCall, choose_id, internal, made, notify, push_job}
use notifs_piper.Socket.{parsed_data}
use notifs_piper.Listener.{Listener, handle}
use notifs_piper.Listener.Processes.{Distinct}
use notifs_piper.Listener.Delivery.{published, handle-published}

-- The listener reads what the manager has sent last from `stream`, with the queue as it is now.
unfoldable pub pass_on :
    {Hints : Type 0}
    → Serde Hints
    → (ℕ → Bool)
    → ℕ
    → Listener Hints
    → Daemon Hints
    → Outcome Text (Listener Hints)
pass_on serde fails stream h d = do
  text ← last_sent d.sent
  tr ← parsed_data (ok text)
  handle serde fails stream (ok tr) (record h { channel = record h.channel { queue = d.queue } })

-- The way of one call of `notify`: the job is queued, the manager receives its signal and runs it,
-- and the listener reads what the manager sends from `stream` and passes it on.
unfoldable pub notify_round :
    {Hints : Type 0}
    → Serde Hints
    → Io
    → (ℕ → Bool)
    → ℕ
    → Bool
    → ℕ
    → NotifyCall Hints
    → ℕ
    → Listener Hints
    → Daemon Hints
    → Outcome Text (ℕ × Listener Hints × Daemon Hints)
notify_round serde io fails stream checks time call counter h d = do
  (n, id) ← notify checks time call (record { counter = counter; channel = h.channel })
  (d', st) ← exec serde io (record d { queue = n.channel.queue })
  h' ← pass_on serde fails stream h d'
  ok (id, h', d')

module _ {Hints : Type 0} {serde : Serde Hints} (lawful : IsLawful serde) (io : Io)
    (fails : ℕ → Bool) (stream : ℕ) (h : Listener Hints) (d : Daemon Hints) where
  same_listener :
      (queue : List (JobDesc Hints))
      → queue ≡ h.channel.queue
      → record h { channel = record h.channel { queue = queue } } ≡ h
  same_listener queue e = λ i. record h { channel = record h.channel { queue = e i } }

  pass_on-published :
      (ne : NotificationEvent Hints) (d' : Daemon Hints)
      → Distinct h.listening
      → h.channel.manager_up ≡ true
      → d'.queue ≡ h.channel.queue
      → last_sent d'.sent
        ≡ ok (
            transmission_to_string
              (record { typ = outgoing 0; data_text = answered (serde.event_to_string ne) }))
      → pass_on serde fails stream h d'
        ≡ ok (published fails h (answered (serde.event_to_string ne)) ne.id)
  unfolding pass_on
  pass_on-published ne d' distinct up same last =
      let reply : Transmission = record {
        typ = outgoing 0;
        data_text = answered (serde.event_to_string ne);
      } in
      rw (last, transmission_from_str-to_string reply (omega arith))
        (ap (handle serde fails stream (ok reply)) (same_listener d'.queue same)
          ∙ handle-published lawful fails stream h ne distinct up)

  notify-chosen :
      (checks : Bool) (time : ℕ) (call : NotifyCall Hints) (counter id counter' : ℕ)
      → choose_id checks call.replaces_id counter ≡ ok (id, counter')
      → h.channel.manager_up ≡ true
      → notify checks time call (record { counter = counter; channel = h.channel })
        ≡ ok (
          record {
            counter = counter';
            channel = record h.channel {
              queue = h.channel.queue ++ internal (broadcast (made call time id)) ∷ [];
              signals = h.channel.signals + 1;
            };
          },
          id,
        )
  unfolding notify push_job
  notify-chosen checks time call counter id counter' chosen up = rw (chosen, up) refl

  notify_round-parts :
      (checks : Bool) (time : ℕ) (call : NotifyCall Hints) (counter id counter' : ℕ)
      (d' : Daemon Hints) (st : ExecState) (h' : Listener Hints)
      → choose_id checks call.replaces_id counter ≡ ok (id, counter')
      → h.channel.manager_up ≡ true
      → exec serde io
          (record d { queue = h.channel.queue ++ internal (broadcast (made call time id)) ∷ [] })
        ≡ ok (d', st)
      → pass_on serde fails stream h d' ≡ ok h'
      → notify_round serde io fails stream checks time call counter h d ≡ ok (id, h', d')
  unfolding notify_round
  notify_round-parts checks time call counter id counter' d' st h' chosen up ran passed =
      rw (notify-chosen checks time call counter id counter' chosen up, ran, passed) refl

  -- If a call of `notify` is given an id, the manager runs with an empty queue, the file and the
  -- socket of its thread take what is written, no process watches twice, and the JSON of an event
  -- is read back as printed and is not empty, then the way of the call ends so: the client of the
  -- bus is given that id; the notification is stored, by `append_notification` behind the removal
  -- of what it replaces, and is what a lookup of that id finds; and it is written once to every watching process whose stream takes it, the others
  -- are forgotten, and its `Acknowledge` is queued exactly if a process that is not silent was
  -- reached.
  pub notify_round_lem :
      (checks : Bool) (time : ℕ) (call : NotifyCall Hints) (counter id counter' : ℕ)
      → choose_id checks call.replaces_id counter ≡ ok (id, counter')
      → Distinct h.listening
      → h.channel.manager_up ≡ true
      → h.channel.queue ≡ []
      → io.write_error ≡ none
      → io.socket_error ≡ none
      → (d' : Daemon Hints) × (notify_round serde io fails stream checks time call counter h d
          ≡ ok
              (id, published fails h (answered (serde.event_to_string (made call time id))) id, d'))
        × (d'.server.man.logs_buffer
            ≡ (append_notification
                (replace d.server.man (made call time id))
                (made call time id)).logs_buffer)
        × (find id d'.server.man.logs_buffer ≡ some (made call time id))
  unfolding from_fulfilled
  notify_round_lem checks time call counter id counter' chosen distinct up empty w w' =
      let ne = made call time id in
      let jd = internal (broadcast ne) in
      let reply : Transmission = record {
        typ = outgoing 0;
        data_text = answered (serde.event_to_string ne);
      } in
      let (s, ran, man) = execute-broadcast serde io.env jd.desc ne d.server in
      let one : h.channel.queue ++ jd ∷ [] ≡ jd ∷ [] = ap (λ q. q ++ jd ∷ []) empty in
      let (d', run_ok, sent, left, logs, _) =
        exec-reply serde io jd (record d { queue = h.channel.queue ++ jd ∷ [] }) s
          (shown serde io.env jd.desc ne d.server) (serde.event_to_string ne) [] one w w' ran
          refl in
      let text = result_text-some (serde.event_to_string ne) (lawful.event_ne_nil ne) in
      let last : last_sent d'.sent ≡ ok (transmission_to_string reply) =
        rw (sent, text) (last_sent-append d.sent (transmission_to_string reply)) in
      let passed = pass_on-published ne d' distinct up (left ∙ sym empty) last in
      (
        d',
        notify_round-parts checks time call counter id counter' d' _ _ chosen up run_ok passed,
        logs ∙ ap (λ m. m.logs_buffer) man,
        ap (λ l. find id l) (logs ∙ ap (λ m. m.logs_buffer) man)
            ∙ (append_notification-find (replace d.server.man ne) ne).0,
      )
