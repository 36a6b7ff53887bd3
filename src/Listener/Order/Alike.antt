-- ===== src/Listener/Order/Alike.antt =====
-- The task of one connection on two listeners that differ in the order of their maps.
use mathlib.Core.List.Permᴰ.{cons}
use notifs_piper.Common.{
  ℕ, refl, sym, ap, ◌∙◌, Bool, Option, none, some, [], ◌∷◌, ◌++◌, map, Outcome, ok, err, panic,
  ◌>>=◌, ◌==◌, if◌then◌else◌, Bool-cases, Option-cases, inl, inr,
}
use notifs_piper.Text.{Text, codes, text_eq}
use notifs_piper.Payload.{Parsed}
use notifs_piper.Event.{Serde}
use notifs_piper.Job.{JobDesc, canonical_name}
use notifs_piper.Job.Wire.{job_desc_from_str}
use notifs_piper.Fulfilled.{fulfilled_from_str}
use notifs_piper.Transmission.{
  Transmission, TransmissionType, incoming, outgoing, error, transmission_to_string,
}
use notifs_piper.Dbus.{Channel, push_job}
use notifs_piper.Listener.Processes.{lookup, insert, remove, remove_all}
use notifs_piper.Listener.Delivery.{working, any_loud, remove_all-old, deliver-writes, deliver-read}
use notifs_piper.Listener.Requests.{IsUnique}
use notifs_piper.Listener.Order.{IsAlike, Agrees}
use notifs_piper.Listener.Order.Maps.{
  Distinct-reordered, on, on-append, on-reordered, any_loud-reordered, working-reordered,
  remove-reordered, lookup-reordered,
}
use notifs_piper.Listener.{
  Listener, deliver, write_or_log, send_error, queue_job, answer, announced, acknowledged, publish,
  request, handle_typ, handle,
}

module _ {Hints : Type 0} (fails : ℕ → Bool) where
  written-IsAlike :
      (s : ℕ) (t : Text) (h k : Listener Hints)
      → IsAlike h k
      → IsAlike
          (record h { written = h.written ++ (s, t) ∷ [] })
          (record k { written = k.written ++ (s, t) ∷ [] })
  written-IsAlike s t h k a = record {
    active = a.active;
    listening = a.listening;
    channel = a.channel;
    written = λ r.
        on-append r h.written ((s, t) ∷ [])
        ∙ ap (λ l. l ++ on r ((s, t) ∷ [])) (a.written r)
        ∙ sym (on-append r k.written ((s, t) ∷ []));
  }

  write_or_log-IsAlike :
      (s : ℕ) (tr : Transmission) (h k : Listener Hints)
      → IsAlike h k
      → IsAlike (write_or_log fails s tr h) (write_or_log fails s tr k)
  unfolding write_or_log
  write_or_log-IsAlike s tr h k a = elim (Bool-cases (fails s)) [
    | inl e ↦ rw e a
    | inr e ↦ rw e (written-IsAlike s (transmission_to_string tr) h k a)
  ]

  answer-Agrees :
      (pid : ℕ) (tr : Transmission) (h k : Listener Hints)
      → IsUnique h
      → IsAlike h k
      → Agrees (answer fails pid tr h) (answer fails pid tr k)
  unfolding answer
  answer-Agrees pid tr h k u a =
      let same = lookup-reordered pid a.active u.0 in
      elim (Option-cases (lookup pid h.active)) [
        | inl e ↦ rw (answer, ← same, e) tt
        | inr (s, e) ↦
            rw (answer, ← same, e)
              (write_or_log-IsAlike s tr (record h { active = remove pid h.active })
                (record k { active = remove pid k.active })
                (record {
                  active = remove-reordered pid a.active;
                  listening = a.listening;
                  written = a.written;
                  channel = a.channel;
                }))
      ]

  -- The writes of a broadcast and the processes that are left.
  delivered-IsAlike :
      (t : Text) (h k : Listener Hints)
      → IsUnique h
      → IsUnique k
      → IsAlike h k
      → IsAlike
          (record h {
            written = h.written ++ (deliver fails t h.listening).writes;
            listening = remove_all (deliver fails t h.listening).old h.listening;
          })
          (record k {
            written = k.written ++ (deliver fails t k.listening).writes;
            listening = remove_all (deliver fails t k.listening).old k.listening;
          })
  delivered-IsAlike t h k u v a = record {
    active = a.active;
    listening =
        rw (remove_all-old fails t h.listening u.1, remove_all-old fails t k.listening v.1)
          (working-reordered fails a.listening);
    written = λ s.
        rw (deliver-writes fails t h.listening, deliver-writes fails t k.listening)
          (on-append s h.written _
            ∙ ap (λ l. l ++ on s (map (λ e. (e.1.stream, t)) (working fails h.listening)))
                (a.written s)
            ∙ ap (λ l. on s k.written ++ l) (on-reordered s t (working-reordered fails a.listening))
            ∙ sym (on-append s k.written _));
    channel = a.channel;
  }

module _ {Hints : Type 0} where
  channelled :
      (o : Outcome Text (Channel Hints)) (h k : Listener Hints)
      → IsAlike h k
      → Agrees
          (do channel ← o; ok (record h { channel = channel }))
          (do channel ← o; ok (record k { channel = channel }))
  channelled (ok c) h k a = record {
    active = a.active;
    listening = a.listening;
    written = a.written;
    channel = refl;
  }
  channelled (err e) h k a = refl
  channelled panic h k a = tt

  queue_job-Agrees :
      (jd : JobDesc Hints) (h k : Listener Hints)
      → IsAlike h k
      → Agrees (queue_job jd h) (queue_job jd k)
  queue_job-Agrees jd h k a = rw (← a.channel) (channelled (push_job jd h.channel) h k a)

module _ {Hints : Type 0} (serde : Serde Hints) (fails : ℕ → Bool) where
  acknowledged-Agrees :
      (o : Outcome Text (Option ℕ)) (h k : Listener Hints)
      → IsAlike h k
      → Agrees (do id ← o; acknowledged serde h id) (do id ← o; acknowledged serde k id)
  acknowledged-Agrees (ok none) h k a = a
  acknowledged-Agrees (ok (some id)) h k a = queue_job-Agrees _ h k a
  acknowledged-Agrees (err e) h k a = refl
  acknowledged-Agrees panic h k a = tt

  publish-Agrees :
      (t : Text) (h k : Listener Hints)
      → IsUnique h
      → IsUnique k
      → IsAlike h k
      → Agrees (publish serde fails t h) (publish serde fails t k)
  unfolding publish
  publish-Agrees t h k u v a =
      let text = transmission_to_string (record { typ = outgoing 0; data_text = t }) in
      let rest = working-reordered fails a.listening in
      rw
        (
          deliver-read fails text h.listening,
          deliver-read fails text k.listening,
          any_loud-reordered rest,
        )
        (acknowledged-Agrees
          (if any_loud (working fails k.listening)
            then announced serde (fulfilled_from_str t)
            else ok none)
          _ _ (delivered-IsAlike fails text h k u v a))

  request-Agrees :
      (stream pid : ℕ) (p : Parsed (JobDesc Hints)) (h k : Listener Hints)
      → IsAlike h k
      → Agrees (request serde fails stream pid p h) (request serde fails stream pid p k)
  unfolding send_error
  request-Agrees stream pid (ok jd) h k a =
      elim (Bool-cases (text_eq (canonical_name jd.cmd) (codes "watch"))) [
        | inl w ↦ rw w (record {
          active = a.active;
          listening = cons refl (remove-reordered pid a.listening);
          written = a.written;
          channel = a.channel;
        })
        | inr w ↦ rw w (
            queue_job-Agrees jd (record h { active = insert pid stream h.active })
              (record k { active = insert pid stream k.active })
              (record {
                active = cons refl (remove-reordered pid a.active);
                listening = a.listening;
                written = a.written;
                channel = a.channel;
              }))
      ]
  request-Agrees stream pid (err x) h k a = write_or_log-IsAlike fails stream _ h k a
  request-Agrees stream pid panic h k a = tt

  handle_typ-Agrees :
      (stream : ℕ) (tr : Transmission) (typ : TransmissionType) (h k : Listener Hints)
      → IsUnique h
      → IsUnique k
      → IsAlike h k
      → Agrees (handle_typ serde fails stream tr typ h) (handle_typ serde fails stream tr typ k)
  unfolding send_error
  handle_typ-Agrees stream tr error h k u v a = write_or_log-IsAlike fails stream _ h k a
  handle_typ-Agrees stream tr (incoming pid) h k u v a =
      request-Agrees stream pid (job_desc_from_str serde tr.data_text) h k a
  handle_typ-Agrees stream tr (outgoing pid) h k u v a = elim (Bool-cases (pid == 0)) [
    | inl z ↦ rw z (publish-Agrees tr.data_text h k u v a)
    | inr z ↦ rw z (answer-Agrees fails pid tr h k u a)
  ]

  -- The order in which the maps of processes are walked cannot be told. If no process waits or watches
  -- twice, and two listeners hold the same in their maps in whatever order, have the same channel and
  -- have written the same texts to each stream in the same order, then the task of a connection ends
  -- alike on both, whatever the connection carries: with two listeners that are so again, with the same
  -- error, or with a panic.
  pub handle-Agrees :
      (stream : ℕ) (read : Outcome Text Transmission) (h k : Listener Hints)
      → IsUnique h
      → IsAlike h k
      → Agrees (handle serde fails stream read h) (handle serde fails stream read k)
  unfolding handle send_error
  handle-Agrees stream (ok tr) h k u a =
      handle_typ-Agrees stream tr tr.typ h k u
        (Distinct-reordered a.active u.0, Distinct-reordered a.listening u.1) a
  handle-Agrees stream (err x) h k u a = write_or_log-IsAlike fails stream _ h k a
  handle-Agrees stream panic h k u a = tt
