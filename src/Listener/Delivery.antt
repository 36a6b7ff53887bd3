-- ===== src/Listener/Delivery.antt =====
-- What a broadcast does to the watching processes, and when a notification counts as read.
use notifs_piper.Common.{
  Outcome, err, panic, ◌⊎◌, ◌↔◌, ℕ, ◌≡◌, ◌≢◌, refl, ap, ◌∙◌, Bool, true, false, not, ◌||◌, List, [],
  ◌∷◌, ◌++◌, map, All, ok, arith, inl, inr, Bool-cases, if◌then◌else◌, ◌+◌,
}
use notifs_piper.Text.{Text, codes}
use notifs_piper.Flags.{is, silent}
use notifs_piper.Event.{NotificationEvent, Serde, IsLawful}
use notifs_piper.Job.{acknowledge}
use notifs_piper.Transmission.{Transmission, outgoing, transmission_to_string}
use notifs_piper.Dbus.{internal, push_job}
use notifs_piper.Listener.Processes.{
  remove, remove_all, remove_all-cons, remove_all-head, Fresh, Distinct,
}
use notifs_piper.Listener.{Watcher, Listener, deliver, publish, handle, announced}
use notifs_piper.Fulfilled.RoundTrip.{
  EventInRange, fulfilled_from_str_res, fulfilled_from_str-to_string,
}
use notifs_piper.Fulfilled.{EventType, event, JobResult, FulfilledJob, fulfilled_to_string}

-- The watching processes whose stream takes the write.
abbrev pub working : (ℕ → Bool) → List (ℕ × Watcher) → List (ℕ × Watcher)
working fails [] = []
working fails ((pid, w) ∷ l) =
    let rest = working fails l in if fails w.stream then rest else (pid, w) ∷ rest

-- Whether one of these processes is not silent.
abbrev pub any_loud : List (ℕ × Watcher) → Bool
any_loud [] = false
any_loud ((pid, w) ∷ l) = not (is silent w.flags) || any_loud l

module _ (fails : ℕ → Bool) (t : Text) where
  old-other :
      (j : ℕ) (l : List (ℕ × Watcher)) → Fresh j l → All (λ i. i ≢ j) (deliver fails t l).old
  unfolding deliver
  old-other j [] h = tt
  old-other j ((pid, w) ∷ l) (h, hs) = elim (Bool-cases (fails w.stream)) [
    | inl e ↦ rw e (h, old-other j l hs)
    | inr e ↦ rw e (old-other j l hs)
  ]

  -- Exactly the processes that could not be reached are forgotten.
  pub remove_all-old :
      (l : List (ℕ × Watcher)) → Distinct l → remove_all (deliver fails t l).old l ≡ working fails l
  unfolding deliver remove_all remove
  remove_all-old [] h = refl
  remove_all-old ((pid, w) ∷ l) (h, hs) = elim (Bool-cases (fails w.stream)) [
    | inl e ↦ rw e (remove_all-head (deliver fails t l).old pid w l h ∙ remove_all-old l hs)
    | inr e ↦
        rw (e, remove_all-cons (deliver fails t l).old pid w l (old-other pid l h))
          (ap (◌∷◌ (pid, w)) (remove_all-old l hs))
  ]

  pub deliver-writes :
      (l : List (ℕ × Watcher))
      → (deliver fails t l).writes ≡ map (λ e. (e.1.stream, t)) (working fails l)
  unfolding deliver
  deliver-writes [] = refl
  deliver-writes ((pid, w) ∷ l) = ground (arith, deliver-writes l)

  pub deliver-read :
      (l : List (ℕ × Watcher)) → (deliver fails t l).read ≡ any_loud (working fails l)
  unfolding deliver
  deliver-read [] = refl
  deliver-read ((pid, w) ∷ l) = ground (arith, deliver-read l)

module _ {Hints : Type 0} (fails : ℕ → Bool) (h : Listener Hints) where
  -- What a broadcast of the text of a notification leaves behind.
  abbrev pub published : Text → ℕ → Listener Hints
  published data_text id =
      let tr : Transmission = record { typ = outgoing 0; data_text = data_text } in
      let rest = working fails h.listening in
      record h {
        written = h.written ++ map (λ e. (e.1.stream, transmission_to_string tr)) rest;
        listening = rest;
        channel =
            if any_loud rest
            then record h.channel {
              queue = h.channel.queue ++ internal (acknowledge id) ∷ [];
              signals = h.channel.signals + 1;
            }
            else h.channel;
      }

module _ {Hints : Type 0} {serde : Serde Hints} (lawful : IsLawful serde) (fails : ℕ → Bool)
    (stream : ℕ) (h : Listener Hints) where
  -- If no process watches twice, the manager runs and the JSON of an event is read back as printed,
  -- then a broadcast of a notification is written once to every watching process whose stream takes
  -- it, in the order of the map, and forgets exactly the others. One `Acknowledge` of the
  -- notification is queued, with its signal, if a process that is not silent was reached, and none
  -- otherwise. The processes that wait for results are left alone.
  pub handle-published :
      (ne : NotificationEvent Hints)
      → Distinct h.listening
      → h.channel.manager_up ≡ true
      → handle serde fails stream
          (ok (record { typ = outgoing 0; data_text = codes "res#" ++ serde.event_to_string ne }))
          h
        ≡ ok (published fails h (codes "res#" ++ serde.event_to_string ne) ne.id)
  unfolding handle publish announced push_job
  handle-published ne distinct up =
      let data_text = codes "res#" ++ serde.event_to_string ne in
      let t = transmission_to_string (record { typ = outgoing 0; data_text = data_text }) in
      elim (Bool-cases (any_loud (working fails h.listening))) [
        | inl loud ↦ rw (
          deliver-read fails t h.listening,
          deliver-writes fails t h.listening,
          remove_all-old fails t h.listening distinct,
          loud,
          fulfilled_from_str_res (serde.event_to_string ne),
          lawful.event_round ne,
          up,
        )
        | inr loud ↦ rw (
          deliver-read fails t h.listening,
          deliver-writes fails t h.listening,
          remove_all-old fails t h.listening distinct,
          loud,
        )
      ]

module _ {Hints : Type 0} (fails : ℕ → Bool) (h : Listener Hints) where
  -- What the broadcast of a text that carries no notification leaves behind.
  abbrev pub relayed : Text → Listener Hints
  relayed data_text =
      let tr : Transmission = record { typ = outgoing 0; data_text = data_text } in
      let rest = working fails h.listening in
      record h {
        written = h.written ++ map (λ e. (e.1.stream, transmission_to_string tr)) rest;
        listening = rest;
      }

  -- The text of a broadcast is the JSON of no notification.
  abbrev pub IsUnreadable : Serde Hints → Text → Type 0
  IsUnreadable serde t = (ne : NotificationEvent Hints) → serde.event_from_str t ≢ ok ne

  abbrev broadcast_line : Text → Text
  broadcast_line t =
      transmission_to_string (record { typ = outgoing 0; data_text = codes "res#" ++ t })

  pub handle-panic_iff :
      (serde : Serde Hints) (stream : ℕ) (t : Text)
      → (handle serde fails stream
            (ok (record { typ = outgoing 0; data_text = codes "res#" ++ t }))
            h
          ≡ panic)
        ↔ ((any_loud (working fails h.listening) ≡ true)
            × (IsUnreadable serde t ⊎ (h.channel.manager_up ≡ false)))
  unfolding handle publish announced push_job
  handle-panic_iff serde stream t =
      by_cases (any_loud (working fails h.listening)) (serde.event_from_str t) h.channel.manager_up
        refl refl refl
    where
      by_cases :
          (loud : Bool) (o : Outcome Text (NotificationEvent Hints)) (up : Bool)
          → any_loud (working fails h.listening) ≡ loud
          → serde.event_from_str t ≡ o
          → h.channel.manager_up ≡ up
          → (handle serde fails stream
                (ok (record { typ = outgoing 0; data_text = codes "res#" ++ t }))
                h
              ≡ panic)
            ↔ ((any_loud (working fails h.listening) ≡ true)
                × (IsUnreadable serde t ⊎ (h.channel.manager_up ≡ false)))
      by_cases false o up a b c =
          rw (deliver-read fails (broadcast_line t) h.listening, a) (λ q. cc, λ q. cc)
      by_cases true (ok ne) true a b c =
          rw (deliver-read fails (broadcast_line t) h.listening, a, fulfilled_from_str_res t, b, c)
            (λ q. cc, λ (l, q). elim q [ inl u ↦ absurd (u ne refl) | inr d ↦ cc ])
      by_cases true (ok ne) false a b c =
          rw (deliver-read fails (broadcast_line t) h.listening, a, fulfilled_from_str_res t, b, c)
            (λ q. (refl, inr refl), λ q. refl)
      by_cases true (err x) up a b c =
          rw (deliver-read fails (broadcast_line t) h.listening, a, fulfilled_from_str_res t, b)
            (λ q. (refl, inl (λ ne e. cc)), λ q. refl)
      by_cases true panic up a b c =
          rw (deliver-read fails (broadcast_line t) h.listening, a, fulfilled_from_str_res t, b)
            (λ q. (refl, inl (λ ne e. cc)), λ q. refl)

  -- An event is written once to every watching process whose stream takes it, and queues nothing.
  pub handle-event :
      (serde : Serde Hints) (stream : ℕ) (r : JobResult) (ev : EventType)
      → EventInRange ev
      → Distinct h.listening
      → handle serde fails stream
          (ok (record {
            typ = outgoing 0;
            data_text = fulfilled_to_string (record { result = r; typ = event ev });
          }))
          h
        ≡ ok (relayed (fulfilled_to_string (record { result = r; typ = event ev })))
  unfolding handle publish announced
  handle-event serde stream r ev range distinct =
      let fj : FulfilledJob = record { result = r; typ = event ev } in
      let t =
        transmission_to_string (record { typ = outgoing 0; data_text = fulfilled_to_string fj }) in
      elim (Bool-cases (any_loud (working fails h.listening))) [
        | inl loud ↦
            rw
              (
                deliver-read fails t h.listening,
                deliver-writes fails t h.listening,
                remove_all-old fails t h.listening distinct,
                loud,
                fulfilled_from_str-to_string fj range,
              )
              refl
        | inr loud ↦
            rw
              (
                deliver-read fails t h.listening,
                deliver-writes fails t h.listening,
                remove_all-old fails t h.listening distinct,
                loud,
              )
              refl
      ]
