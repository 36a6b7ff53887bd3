-- ===== src/Exec/Answering.antt =====
-- `exec` on the only job of the queue, where the file and the socket take what is written.
use notifs_piper.Common.{
  ℕ, ◌≡◌, ◌≢◌, refl, ◌∙◌, ap, true, false, ◌&&◌, Bool, none, List, Outcome, err, some, [], ◌∷◌,
  ◌++◌, ok, arith, Bool-cases, inl, inr,
}
use notifs_piper.Text.{Text, codes}
use notifs_piper.Event.{Serde}
use notifs_piper.Job.{JobDesc}
use notifs_piper.Fulfilled.{FulfilledJob, value, results, fulfilled_to_string}
use notifs_piper.Transmission.{from_fulfilled, transmission_to_string}
use notifs_piper.Execute.Bus.{Server}
use notifs_piper.Execute.{execute, bool_text}
use notifs_piper.Exec.{
  ExecState, executed, Io, Daemon, saved, persist, reply, run_job, exec, is_drained, is_value_none,
  state_of,
}

-- What the last of the texts sent to the socket is.
abbrev pub last_sent : List Text → Outcome Text Text
last_sent [] = err []
last_sent (t ∷ []) = ok t
last_sent (t ∷ u ∷ l) = last_sent (u ∷ l)

pub last_sent-append : (l : List Text) (t : Text) → last_sent (l ++ t ∷ []) ≡ ok t
last_sent-append [] t = refl
last_sent-append (x ∷ []) t = refl
last_sent-append (x ∷ y ∷ l) t = last_sent-append (y ∷ l) t

-- The text of an answer that is a result.
abbrev pub answered : Text → Text
answered t = codes "res#" ++ t

pub result_text-some :
    (t : Text)
    → t ≢ []
    → fulfilled_to_string (record { result = value (some t); typ = results }) ≡ answered t
unfolding fulfilled_to_string
result_text-some [] e = absurd (e refl)
result_text-some (c ∷ t) e = refl

pub bool_text_ne_nil : (b : Bool) → bool_text b ≢ []
bool_text_ne_nil true = λ e. cc
bool_text_ne_nil false = λ e. cc

module _ {Hints : Type 0} (serde : Serde Hints) (io : Io) where
  -- What a job leaves of the daemon, before the answer.
  persist_ok :
      (empty : Bool) (d : Daemon Hints)
      → io.write_error ≡ none
      → (d' : Daemon Hints) × (persist serde io empty d ≡ ok d')
        × (d'.sent ≡ d.sent)
        × (d'.queue ≡ d.queue)
        × (d'.server.man.logs_buffer ≡ d.server.man.logs_buffer)
        × (d'.server.emitted ≡ d.server.emitted)
  unfolding persist
  persist_ok empty d w = elim (Bool-cases (empty && d.server.man.dirty)) [
    | inl e ↦ (saved serde d, rw (e, w), refl, refl, refl, refl)
    | inr e ↦ (d, rw e, refl, refl, refl, refl)
  ]

  reply-value :
      (pid : ℕ) (fj : FulfilledJob) (t : Text) (d : Daemon Hints)
      → io.socket_error ≡ none
      → fj.result ≡ value (some t)
      → reply io pid fj d
        ≡ ok (
          record d { sent = d.sent ++ transmission_to_string (from_fulfilled fj pid) ∷ [] },
          executed,
        )
  unfolding reply
  reply-value pid fj t d w v = ground arith

  -- The first job of the queue, if its result is a text, is answered with one transmission.
  pub exec-reply :
      (jd : JobDesc Hints) (d : Daemon Hints) (s : Server Hints) (fj : FulfilledJob) (t : Text)
      (rest : List (JobDesc Hints))
      → d.queue ≡ jd ∷ rest
      → io.write_error ≡ none
      → io.socket_error ≡ none
      → execute serde io.env jd.cmd jd.desc d.server ≡ ok (s, fj)
      → fj.result ≡ value (some t)
      → (d' : Daemon Hints) × (exec serde io d ≡ ok (d', executed))
        × (d'.sent ≡ d.sent ++ transmission_to_string (from_fulfilled fj jd.desc.pid) ∷ [])
        × (d'.queue ≡ rest)
        × (d'.server.man.logs_buffer ≡ s.man.logs_buffer)
        × (d'.server.emitted ≡ s.emitted)
  unfolding exec run_job
  exec-reply jd d s fj t rest q w w' h v =
      let (d1, p, same, left, logs, emitted) =
        persist_ok (is_drained rest) (record d { queue = rest; server = s }) w in
      let d' : Daemon Hints = record d1 {
        sent = d1.sent ++ transmission_to_string (from_fulfilled fj jd.desc.pid) ∷ [];
      } in
      (d', rw (q, h, p, reply-value jd.desc.pid fj t d1 w' v), rw same, left, logs, emitted)

  reply_ok :
      (pid : ℕ) (fj : FulfilledJob) (d : Daemon Hints)
      → io.socket_error ≡ none
      → (d' : Daemon Hints) × (st : ExecState) × (reply io pid fj d ≡ ok (d', st))
        × (d'.server ≡ d.server)
        × (d'.queue ≡ d.queue)
  unfolding reply
  reply_ok pid fj d w = elim (Bool-cases (is_value_none fj.result)) [
    | inl e ↦ (d, executed, rw e, refl, refl)
    | inr e ↦ (
      record d { sent = d.sent ++ transmission_to_string (from_fulfilled fj pid) ∷ [] },
      state_of fj.result,
      rw (e, w),
      refl,
      refl,
    )
  ]

  -- The only job of the queue, if it succeeds, leaves its logs and an empty queue.
  pub exec_ok :
      (jd : JobDesc Hints) (d : Daemon Hints) (s : Server Hints) (fj : FulfilledJob)
      → d.queue ≡ jd ∷ []
      → io.write_error ≡ none
      → io.socket_error ≡ none
      → execute serde io.env jd.cmd jd.desc d.server ≡ ok (s, fj)
      → (d' : Daemon Hints) × (st : ExecState) × (exec serde io d ≡ ok (d', st))
        × (d'.queue ≡ [])
        × (d'.server.man.logs_buffer ≡ s.man.logs_buffer)
  unfolding exec run_job
  exec_ok jd d s fj q w w' h =
      let (d1, p, _, empty, logs, _) = persist_ok true (record d { queue = []; server = s }) w in
      let (d', st, e, same, left) = reply_ok jd.desc.pid fj d1 w' in
      (d', st, rw (q, h, p, e), left ∙ empty, ap (λ x. x.man.logs_buffer) same ∙ logs)
