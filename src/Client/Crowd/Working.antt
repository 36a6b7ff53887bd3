-- ===== src/Client/Crowd/Working.antt =====
-- The manager answers the queries of many clients.
use notifs_piper.Common.{
  ◌≡◌, refl, sym, ap, ◌∙◌, none, some, List, [], ◌∷◌, ◌++◌, append_assoc, append-nil, map, ok,
  length,
}
use notifs_piper.Event.{Serde}
use notifs_piper.Manager.{find}
use notifs_piper.Fulfilled.{FulfilledJob, results, value}
use notifs_piper.Transmission.{from_fulfilled}
use notifs_piper.Execute.{execute, execute_query, bool_text, closed_or_false}
use notifs_piper.Execute.Results.Reported.{told_closed_lem}
use notifs_piper.Exec.{executed, Io, Daemon, exec}
use notifs_piper.Exec.Answering.{bool_text_ne_nil, result_text-some, exec-reply}
use notifs_piper.Client.{described}
use notifs_piper.Client.Crowd.{Asker, request_of, jobs_of, reply_to, work}

module _ {Hints : Type 0} (serde : Serde Hints) (io : Io) (writes : io.write_error ≡ none)
    (sends : io.socket_error ≡ none) where
  exec-query :
      (a : Asker) (l : List Asker) (d : Daemon Hints)
      → d.queue ≡ jobs_of serde (a ∷ l)
      → (d' : Daemon Hints) × (exec serde io d ≡ ok (d', executed))
        × (d'.sent ≡ d.sent ++ reply_to d.server.man.logs_buffer a ∷ [])
        × (d'.queue ≡ jobs_of serde l)
        × (d'.server.man.logs_buffer ≡ d.server.man.logs_buffer)
  unfolding execute execute_query from_fulfilled
  exec-query a l d e =
      let answer = bool_text (closed_or_false (find a.id d.server.man.logs_buffer)) in
      let fj : FulfilledJob = record { result = value (some answer); typ = results } in
      let (d', ran, sent, left, logs, _) =
        exec-reply serde io (described serde (request_of a)) d d.server fj answer (jobs_of serde l)
          e writes sends refl refl in
      let text =
        result_text-some answer
          (bool_text_ne_nil (closed_or_false (find a.id d.server.man.logs_buffer))) in
      (d', ran, rw (text, told_closed_lem a.id d.server.man.logs_buffer) at sent, left, logs)

  -- As many calls of `exec` as there are queries answer them in their order, and leave the logs alone.
  pub work-queries :
      (l : List Asker) (d : Daemon Hints)
      → d.queue ≡ jobs_of serde l
      → (d' : Daemon Hints) × (work serde io (length (jobs_of serde l)) d ≡ ok d')
        × (d'.sent ≡ d.sent ++ map (λ a. reply_to d.server.man.logs_buffer a) l)
        × (d'.queue ≡ [])
        × (d'.server.man.logs_buffer ≡ d.server.man.logs_buffer)
  unfolding work
  work-queries [] d e = (d, refl, sym (append-nil d.sent), e, refl)
  work-queries (a ∷ l) d e =
      let (d1, ran, sent, left, logs) = exec-query a l d e in
      let (d', worked, sent', empty, logs') = work-queries l d1 left in
      (
        d',
        rw ran worked,
        sent'
            ∙ ap (λ b. d1.sent ++ map (λ x. reply_to b x) l) logs
            ∙ ap (λ t. t ++ map (λ x. reply_to d.server.man.logs_buffer x) l) sent
            ∙ append_assoc d.sent (reply_to d.server.man.logs_buffer a ∷ [])
                (map (λ x. reply_to d.server.man.logs_buffer x) l),
        empty,
        logs' ∙ logs,
      )
