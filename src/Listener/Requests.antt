-- ===== src/Listener/Requests.antt =====
-- A request and its answer, and the maps of processes over all connections.
use notifs_piper.Common.{
  ℕ, ◌≡◌, ◌≢◌, refl, append-nil, Bool, true, false, Option, none, some, [], ◌∷◌, ◌++◌, Outcome, ok,
  err, panic, arith, inl, inr, Bool-cases, Option-cases, if◌then◌else◌, ◌==◌, ok-injective,
  >>=-eq-ok, ◌+◌,
}
use notifs_piper.Text.{Text, codes, text_eq}
use notifs_piper.Payload.{Parsed}
use notifs_piper.Event.{Serde}
use notifs_piper.Job.{JobDesc, canonical_name}
use notifs_piper.Job.Wire.{job_desc_from_str}
use notifs_piper.Transmission.{
  Transmission, TransmissionType, incoming, outgoing, error, transmission_to_string,
}
use notifs_piper.Fulfilled.{fulfilled_from_str}
use notifs_piper.Dbus.{push_job}
use notifs_piper.Listener.Processes.{
  lookup, remove, insert, Distinct, lookup-insert, lookup-remove, remove-Distinct, insert-Distinct,
  remove_all-Distinct,
}
use notifs_piper.Listener.{
  Watcher, Listener, deliver, write_or_log, send_error, queue_job, answer, announced, acknowledged,
  publish, request, handle_typ, handle,
}

module _ {Hints : Type 0} (fails : ℕ → Bool) (stream : ℕ) (tr : Transmission)
    (h : Listener Hints) where
  written-write_or_log :
      (write_or_log fails stream tr h).written
      ≡ h.written ++ (if fails stream then [] else (stream, transmission_to_string tr) ∷ [])
  unfolding write_or_log
  written-write_or_log = elim (Bool-cases (fails stream)) [
    | inl e ↦ rw (e, append-nil h.written)
    | inr e ↦ rw e
  ]

  active-write_or_log : (write_or_log fails stream tr h).active ≡ h.active
  unfolding write_or_log
  active-write_or_log = ground arith

  answer-found :
      (pid : ℕ)
      → lookup pid h.active ≡ some stream
      → answer fails pid tr h
        ≡ ok (write_or_log fails stream tr (record h { active = remove pid h.active }))
  unfolding answer
  answer-found pid p = rw (p, answer)

module _ {Hints : Type 0} (serde : Serde Hints) (fails : ℕ → Bool) where
  -- If the manager runs, a request from a process other than 0 that is parsed and is no `watch` is
  -- queued behind the other jobs; the answer to this process that comes next, over whatever
  -- connection, is written to the stream of the request, if that still takes it, and to no other,
  -- and the process does not wait any more.
  pub handle-answer :
      (stream stream' pid : ℕ) (t data_text : Text) (jd : JobDesc Hints) (h : Listener Hints)
      → pid ≢ 0
      → job_desc_from_str serde t ≡ ok jd
      → text_eq (canonical_name jd.cmd) (codes "watch") ≡ false
      → h.channel.manager_up ≡ true
      → (h' h'' : Listener Hints) × (handle serde fails stream
            (ok (record { typ = incoming pid; data_text = t }))
            h
          ≡ ok h')
        × (h'.channel.queue ≡ h.channel.queue ++ jd ∷ [])
        × (handle serde fails stream' (ok (record { typ = outgoing pid; data_text = data_text })) h'
            ≡ ok h'')
        × (h''.written
            ≡ h.written
              ++ (if fails stream
                  then []
                  else (
                    stream,
                    transmission_to_string (record { typ = outgoing pid; data_text = data_text }),
                  )
                    ∷ []))
        × (lookup pid h''.active ≡ none)
  unfolding handle answer push_job
  handle-answer stream stream' pid t data_text jd h some_pid parsed asks up =
      let tr : Transmission = record { typ = outgoing pid; data_text = data_text } in
      let other_pid : (pid == 0) ≡ false = ground arith in
      let h' : Listener Hints = record h {
        active = insert pid stream h.active;
        channel = record h.channel {
          queue = h.channel.queue ++ jd ∷ [];
          signals = h.channel.signals + 1;
        };
      } in
      let h1 : Listener Hints = record h' { active = remove pid h'.active } in
      (
        h',
        write_or_log fails stream tr h1,
        rw (parsed, asks, up),
        refl,
        rw other_pid (answer-found fails stream tr h' pid (lookup-insert pid stream h.active)),
        written-write_or_log fails stream tr h1,
        rw (active-write_or_log fails stream tr h1) (lookup-remove pid h'.active),
      )

-- No process waits twice, and none watches twice.
abbrev pub IsUnique : {Hints : Type 0} → Listener Hints → Type 0
IsUnique h = Distinct h.active × Distinct h.listening

module _ {Hints : Type 0} (fails : ℕ → Bool) where
  write_or_log-IsUnique :
      (stream : ℕ) (tr : Transmission) (h : Listener Hints)
      → IsUnique h
      → IsUnique (write_or_log fails stream tr h)
  unfolding write_or_log
  write_or_log-IsUnique stream tr h u = elim (Bool-cases (fails stream)) [
    | inl e ↦ rw e u
    | inr e ↦ rw e u
  ]

  answer-IsUnique :
      (pid : ℕ) (tr : Transmission) (h h' : Listener Hints)
      → answer fails pid tr h ≡ ok h'
      → IsUnique h
      → IsUnique h'
  unfolding answer
  answer-IsUnique pid tr h h' e u = elim (Option-cases (lookup pid h.active)) [
    | inl p ↦ let q = rw (p, answer) at e in cc
    | inr (stream, p) ↦
        let h1 : Listener Hints = record h { active = remove pid h.active } in
        let q : ok (write_or_log fails stream tr h1) ≡ ok h' = rw (p, answer) at e in
        rw (← ok-injective q)
          (write_or_log-IsUnique stream tr h1 (remove-Distinct pid h.active u.0, u.1))
  ]

  queue_job-IsUnique :
      (jd : JobDesc Hints) (h h' : Listener Hints)
      → queue_job jd h ≡ ok h'
      → IsUnique h
      → IsUnique h'
  queue_job-IsUnique jd h h' e u =
      let (channel, _, q) = >>=-eq-ok (push_job jd h.channel) _ e in rw (← ok-injective q) u

module _ {Hints : Type 0} (serde : Serde Hints) (fails : ℕ → Bool) where
  acknowledged-IsUnique :
      (id : Option ℕ) (h h' : Listener Hints)
      → acknowledged serde h id ≡ ok h'
      → IsUnique h
      → IsUnique h'
  acknowledged-IsUnique none h h' e u = rw (← ok-injective e) u
  acknowledged-IsUnique (some id) h h' e u = queue_job-IsUnique fails _ h h' e u

  publish-IsUnique :
      (t : Text) (h h' : Listener Hints)
      → publish serde fails t h ≡ ok h'
      → IsUnique h
      → IsUnique h'
  unfolding publish
  publish-IsUnique t h h' e u =
      let tr : Transmission = record { typ = outgoing 0; data_text = t } in
      let d = deliver fails (transmission_to_string tr) h.listening in
      let (id, _, q) =
        >>=-eq-ok (if d.read then announced serde (fulfilled_from_str t) else ok none) _ e in
      acknowledged-IsUnique id _ h' q (u.0, remove_all-Distinct d.old h.listening u.1)

  request-IsUnique :
      (stream pid : ℕ) (p : Parsed (JobDesc Hints)) (h h' : Listener Hints)
      → request serde fails stream pid p h ≡ ok h'
      → IsUnique h
      → IsUnique h'
  unfolding send_error
  request-IsUnique stream pid (ok jd) h h' e u =
      elim (Bool-cases (text_eq (canonical_name jd.cmd) (codes "watch"))) [
        | inl w ↦
            let watcher : Watcher = record { stream = stream; flags = jd.desc.flags } in
            let q : ok (record h { listening = insert pid watcher h.listening }) ≡ ok h' =
              rw w at e in
            rw (← ok-injective q) (u.0, insert-Distinct pid watcher h.listening u.1)
        | inr w ↦
            queue_job-IsUnique fails jd (record h { active = insert pid stream h.active }) h'
              (rw w at e) (insert-Distinct pid stream h.active u.0, u.1)
      ]
  request-IsUnique stream pid (err x) h h' e u =
      rw (← ok-injective e) (write_or_log-IsUnique fails stream _ h u)
  request-IsUnique stream pid panic h h' e u = cc

  handle_typ-IsUnique :
      (stream : ℕ) (tr : Transmission) (typ : TransmissionType) (h h' : Listener Hints)
      → handle_typ serde fails stream tr typ h ≡ ok h'
      → IsUnique h
      → IsUnique h'
  unfolding send_error
  handle_typ-IsUnique stream tr error h h' e u =
      rw (← ok-injective e) (write_or_log-IsUnique fails stream _ h u)
  handle_typ-IsUnique stream tr (incoming pid) h h' e u =
      request-IsUnique stream pid (job_desc_from_str serde tr.data_text) h h' e u
  handle_typ-IsUnique stream tr (outgoing pid) h h' e u = elim (Bool-cases (pid == 0)) [
    | inl z ↦ publish-IsUnique tr.data_text h h' (rw z at e) u
    | inr z ↦ answer-IsUnique fails pid tr h h' (rw z at e) u
  ]

  -- What one connection does, whatever it carries, keeps this: a process has at most one stream
  -- that waits for results and at most one that watches.
  pub handle-IsUnique :
      (stream : ℕ) (read : Outcome Text Transmission) (h h' : Listener Hints)
      → handle serde fails stream read h ≡ ok h'
      → IsUnique h
      → IsUnique h'
  unfolding handle send_error
  handle-IsUnique stream (ok tr) h h' e u = handle_typ-IsUnique stream tr tr.typ h h' e u
  handle-IsUnique stream (err x) h h' e u =
      rw (← ok-injective e) (write_or_log-IsUnique fails stream _ h u)
  handle-IsUnique stream panic h h' e u = cc
