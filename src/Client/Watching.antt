-- ===== src/Client/Watching.antt =====
-- A client that watches: the broadcasts that the listener passes on to its stream.
pub mod Printing
use notifs_piper.Common.{
  ℕ, ◌+◌, ◌≡◌, ◌≢◌, refl, sym, ap, ◌∙◌, Bool, true, false, List, [], ◌∷◌, ◌++◌, append_assoc,
  append-nil, map, Outcome, ok, arith, ◌>>=◌, ◌==◌, if◌then◌else◌, All, Bool-cases, inl, inr,
}
use notifs_piper.Text.{Text}
use notifs_piper.Event.{NotificationEvent, Serde, IsLawful}
use notifs_piper.Transmission.{Transmission, outgoing, transmission_to_string}
use notifs_piper.Transmission.RoundTrip.{transmission_from_str-to_string}
use notifs_piper.Job.{JobDesc}
use notifs_piper.Dbus.{Channel}
use notifs_piper.Exec.Answering.{answered}
use notifs_piper.Socket.{parsed_data}
use notifs_piper.Listener.Processes.{remove}
use notifs_piper.Listener.Delivery.{working, any_loud, published, handle-published}
use notifs_piper.Listener.Requests.{IsUnique, handle-IsUnique}
use notifs_piper.Listener.Order.Maps.{on, on-append}
use notifs_piper.Listener.{Watcher, Listener, handle}

-- What the manager sends of a broadcast.
abbrev pub broadcast_of : {Hints : Type 0} → Serde Hints → NotificationEvent Hints → Transmission
broadcast_of serde ne = record { typ = outgoing 0; data_text = answered (serde.event_to_string ne) }

abbrev pub broadcast_text : {Hints : Type 0} → Serde Hints → NotificationEvent Hints → Text
broadcast_text serde ne = transmission_to_string (broadcast_of serde ne)

-- The listener reads the bytes of one connection.
unfoldable pub heard :
    {Hints : Type 0}
    → Serde Hints
    → (ℕ → Bool)
    → ℕ
    → Text
    → Listener Hints
    → Outcome Text (Listener Hints)
heard serde fails stream bytes h = do
  tr ← parsed_data (ok bytes)
  handle serde fails stream (ok tr) h

-- The listener reads broadcasts, each from a connection of its own.
unfoldable pub relay :
    {Hints : Type 0}
    → Serde Hints
    → (ℕ → Bool)
    → List (ℕ × NotificationEvent Hints)
    → Listener Hints
    → Outcome Text (Listener Hints)
relay serde fails [] h = ok h
relay serde fails ((stream, ne) ∷ l) h = do
  h' ← heard serde fails stream (broadcast_text serde ne) h
  relay serde fails l h'

-- One process watches on the stream.
abbrev pub IsHeard : ℕ → List (ℕ × Watcher) → Type 0
IsHeard s l = (t : Text) → on s (map (λ e. (e.1.stream, t)) l) ≡ t ∷ []

on-working :
    (fails : ℕ → Bool) (s : ℕ) (t : Text) (l : List (ℕ × Watcher))
    → fails s ≡ false
    → on s (map (λ e. (e.1.stream, t)) (working fails l)) ≡ on s (map (λ e. (e.1.stream, t)) l)
on-working fails s t [] h = refl
on-working fails s t ((pid, w) ∷ l) h = elim (Bool-cases (fails w.stream)) [
  | inl q ↦ elim (Bool-cases (w.stream == s)) [
    | inl e ↦
        let same : w.stream ≡ s = ground arith in
        let works : fails w.stream ≡ false = rw same h in cc
    | inr e ↦ rw (q, e) (on-working fails s t l h)
  ]
  | inr q ↦ rw q (ap (λ r. if w.stream == s then t ∷ r else r) (on-working fails s t l h))
]

-- No process watches on the stream.
abbrev pub IsNewStream : ℕ → List (ℕ × Watcher) → Type 0
IsNewStream s l = All (λ e. e.1.stream ≢ s) l

pub on-remove :
    (s pid : ℕ) (t : Text) (l : List (ℕ × Watcher))
    → IsNewStream s l
    → on s (map (λ e. (e.1.stream, t)) (remove pid l)) ≡ []
unfolding remove
on-remove s pid t [] h = refl
on-remove s pid t ((j, w) ∷ l) (h, hs) = ground (arith, on-remove s pid t l hs)

up_still :
    {Hints : Type 0} (b : Bool) (c : Channel Hints) (queue : List (JobDesc Hints))
    → c.manager_up ≡ true
    → (if b then record c { queue = queue; signals = c.signals + 1 } else c).manager_up ≡ true
up_still true c queue h = h
up_still false c queue h = h

-- A listener with a manager and with one process that watches on this stream.
pub record IsServing {Hints : Type 0} (s : ℕ) (h : Listener Hints) : Type 0 where
  pub unique : IsUnique h
  pub up : h.channel.manager_up ≡ true
  pub listens : IsHeard s h.listening

module _ {Hints : Type 0} {serde : Serde Hints} (lawful : IsLawful serde) (fails : ℕ → Bool) (s : ℕ)
    (works : fails s ≡ false) where
  heard-broadcast :
      (stream : ℕ) (ne : NotificationEvent Hints) (h : Listener Hints)
      → IsServing s h
      → heard serde fails stream (broadcast_text serde ne) h
        ≡ ok (published fails h (answered (serde.event_to_string ne)) ne.id)
  unfolding heard
  heard-broadcast stream ne h p =
      rw (transmission_from_str-to_string (broadcast_of serde ne) (omega arith))
        (handle-published lawful fails stream h ne p.unique.1 p.up)

  published-IsServing :
      (stream : ℕ) (ne : NotificationEvent Hints) (h : Listener Hints)
      → IsServing s h
      → IsServing s (published fails h (answered (serde.event_to_string ne)) ne.id)
  published-IsServing stream ne h p = record {
    unique =
        handle-IsUnique serde fails stream (ok (broadcast_of serde ne)) h _
          (handle-published lawful fails stream h ne p.unique.1 p.up) p.unique;
    up = up_still (any_loud (working fails h.listening)) _ _ p.up;
    listens = λ t. on-working fails s t h.listening works ∙ p.listens t;
  }

  on-published :
      (ne : NotificationEvent Hints) (h : Listener Hints)
      → IsServing s h
      → on s (published fails h (answered (serde.event_to_string ne)) ne.id).written
        ≡ on s h.written ++ broadcast_text serde ne ∷ []
  on-published ne h p =
      let t = broadcast_text serde ne in
      on-append s h.written (map (λ e. (e.1.stream, t)) (working fails h.listening))
      ∙ ap (λ l. on s h.written ++ l) (on-working fails s t h.listening works ∙ p.listens t)

  -- Every broadcast is written to the stream, in the order in which they come.
  pub relay-on :
      (l : List (ℕ × NotificationEvent Hints)) (h : Listener Hints)
      → IsServing s h
      → (h' : Listener Hints) × (relay serde fails l h ≡ ok h')
        × (on s h'.written ≡ on s h.written ++ map (λ e. broadcast_text serde e.1) l)
  unfolding relay
  relay-on [] h p = (h, refl, sym (append-nil (on s h.written)))
  relay-on ((stream, ne) ∷ l) h p =
      let h1 = published fails h (answered (serde.event_to_string ne)) ne.id in
      let (h', relayed, out) = relay-on l h1 (published-IsServing stream ne h p) in
      (
        h',
        rw (heard-broadcast stream ne h p) relayed,
        out
            ∙ ap (λ x. x ++ map (λ e. broadcast_text serde e.1) l) (on-published ne h p)
            ∙ append_assoc (on s h.written) (broadcast_text serde ne ∷ [])
                (map (λ e. broadcast_text serde e.1) l),
      )
