-- ===== src/Listener/Tasks/Sections.antt =====
-- What the sections of the tasks do to the map of waiting processes and to the queue.
use notifs_piper.Common.{
  ℕ, ◌≡◌, ◌≢◌, inl, inr, refl, Bool, Option, none, some, [], ◌∷◌, ◌++◌, ok, arith, ok-injective,
  >>=-eq-ok, Option-cases, if◌then◌else◌,
}
use notifs_piper.Text.{Text}
use notifs_piper.Event.{Serde}
use notifs_piper.Job.{JobDesc}
use notifs_piper.Transmission.{Transmission, outgoing, transmission_to_string}
use notifs_piper.Dbus.{push_job}
use notifs_piper.Fulfilled.{fulfilled_from_str}
use notifs_piper.Listener.Processes.{lookup, remove}
use notifs_piper.Listener.{
  Listener, queue_job, answer, publish, deliver, announced, acknowledged, write_or_log,
}
use notifs_piper.Listener.Tasks.{times, pids}
use notifs_piper.Listener.Tasks.Counting.{times-append, pids-append, times-zero}

module _ {Hints : Type 0} where
  pub queue_job_lem :
      (jd : JobDesc Hints) (h h' : Listener Hints)
      → queue_job jd h ≡ ok h'
      → (h'.active ≡ h.active) × (h'.channel.queue ≡ h.channel.queue ++ jd ∷ [])
  unfolding push_job
  queue_job_lem jd h h' e = ground arith

  write_or_log_lem :
      (fails : ℕ → Bool) (stream : ℕ) (tr : Transmission) (h : Listener Hints)
      → ((write_or_log fails stream tr h).active ≡ h.active)
        × ((write_or_log fails stream tr h).channel ≡ h.channel)
  unfolding write_or_log
  write_or_log_lem fails stream tr h = ground arith

  pub answer_lem :
      (fails : ℕ → Bool) (p : ℕ) (tr : Transmission) (h h' : Listener Hints)
      → answer fails p tr h ≡ ok h'
      → (h'.active ≡ remove p h.active) × (h'.channel ≡ h.channel)
  unfolding answer
  answer_lem fails p tr h h' e = elim (Option-cases (lookup p h.active)) [
    | inl q ↦ let q' = rw (q, answer) at e in cc
    | inr (stream, q) ↦
        let h1 : Listener Hints = record h { active = remove p h.active } in
        let q' : ok (write_or_log fails stream tr h1) ≡ ok h' = rw (q, answer) at e in
        rw (← ok-injective q') (write_or_log_lem fails stream tr h1)
  ]

  pub answer_waiting :
      (fails : ℕ → Bool) (p : ℕ) (tr : Transmission) (h : Listener Hints)
      → lookup p h.active ≢ none
      → (stream : ℕ) × (lookup p h.active ≡ some stream)
        × (answer fails p tr h
            ≡ ok (write_or_log fails stream tr (record h { active = remove p h.active })))
  unfolding answer
  answer_waiting fails p tr h w = elim (Option-cases (lookup p h.active)) [
    | inl missing ↦ absurd (w missing)
    | inr (stream, found) ↦ (stream, found, rw (found, answer) refl)
  ]

  acknowledged_lem :
      (serde : Serde Hints) (id : Option ℕ) (h h' : Listener Hints)
      → acknowledged serde h id ≡ ok h'
      → (h'.active ≡ h.active)
        × ((p : ℕ) → p ≢ 0 → times p (pids h'.channel.queue) ≡ times p (pids h.channel.queue))
  acknowledged_lem serde none h h' e = rw (← ok-injective e) (refl, λ p z. refl)
  acknowledged_lem serde (some id) h h' e =
      let (active, queue) = queue_job_lem _ h h' e in
      (
        active,
        λ p z.
            rw (queue, pids-append h.channel.queue _, times-append p (pids h.channel.queue) _)
              (times-zero p (pids h.channel.queue) z),
      )

  pub publish_lem :
      (serde : Serde Hints) (fails : ℕ → Bool) (text : Text) (h h' : Listener Hints)
      → publish serde fails text h ≡ ok h'
      → (h'.active ≡ h.active)
        × ((p : ℕ) → p ≢ 0 → times p (pids h'.channel.queue) ≡ times p (pids h.channel.queue))
  unfolding publish
  publish_lem serde fails text h h' e =
      let tr : Transmission = record { typ = outgoing 0; data_text = text } in
      let d = deliver fails (transmission_to_string tr) h.listening in
      let (id, _, q) =
        >>=-eq-ok (if d.read then announced serde (fulfilled_from_str text) else ok none) _ e in
      acknowledged_lem serde id _ h' q
