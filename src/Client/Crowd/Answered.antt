-- ===== src/Client/Crowd/Answered.antt =====
-- Many clients that query at once, and their answers.
use notifs_piper.Common.{
  ℕ, ◌≡◌, refl, ap, ◌∙◌, Bool, true, none, List, [], ◌++◌, map, ok, All, length,
}
use notifs_piper.Event.{Serde, IsLawful}
use notifs_piper.Exec.{Io, Daemon}
use notifs_piper.Listener.{Listener}
use notifs_piper.Client.Crowd.{
  Asker, jobs_of, reply_to, connections, served, HasSent, ArePidsDistinct, work,
}
use notifs_piper.Client.Crowd.Asking.{
  all_asked, written-all_asked, queue-all_asked, up-all_asked, all_asked-AllWait,
  heard_all-requests, heard_all-replies,
}
use notifs_piper.Client.Crowd.Working.{work-queries}

module _ {Hints : Type 0} {serde : Serde Hints} (lawful : IsLawful serde) (io : Io)
    (fails : ℕ → Bool) (stream : ℕ) where
  -- Let `send!` return `Ok` for every client of a list that queries, its request be in range, its
  -- pid be neither zero nor that of another client of the list, and its stream take writes. Let the
  -- manager be up with an empty queue, its file and its socket take writes, and the JSON codec be
  -- lawful. When the listener reads all the requests, then the manager runs as many jobs, then the
  -- listener reads all the answers, no step fails, and the listener has written exactly one answer
  -- for each client, in the order of the requests and on that client's own stream: `true` if the
  -- first stored notification with the id of its query is closed, and `false` if that is open or no
  -- notification has this id. The logs are as before, the queue is empty again,
  -- and the manager is up.
  pub crowd-answered :
      (l : List Asker) (h : Listener Hints) (d : Daemon Hints)
      → All (HasSent serde fails) l
      → ArePidsDistinct l
      → h.channel.manager_up ≡ true
      → h.channel.queue ≡ []
      → io.write_error ≡ none
      → io.socket_error ≡ none
      → (h' : Listener Hints) × (d' : Daemon Hints) × (served serde io fails stream
            (connections serde l)
            h
            d
          ≡ ok (h', d'))
        × (h'.written ≡ h.written ++ map (λ a. (a.stream, reply_to d.server.man.logs_buffer a)) l)
        × (d'.server.man.logs_buffer ≡ d.server.man.logs_buffer)
        × (h'.channel.queue ≡ [])
        × (h'.channel.manager_up ≡ true)
  unfolding served
  crowd-answered l h d sent distinct up empty writes sends =
      let h1 = all_asked serde l h in
      let logs = d.server.man.logs_buffer in
      let queue : h1.channel.queue ≡ jobs_of serde l =
        queue-all_asked serde l h ∙ ap (λ q. q ++ jobs_of serde l) empty in
      let (d', worked, texts, left, kept) =
        work-queries serde io writes sends l (record d { queue = h1.channel.queue; sent = [] })
          queue in
      let h1' : Listener Hints = record h1 { channel = record h1.channel { queue = d'.queue } } in
      let (h2, relayed, out, same) =
        heard_all-replies serde fails logs stream l h1' sent distinct
          (all_asked-AllWait serde l h distinct) in
      let worked' : work serde io (length h1.channel.queue)
            (record d { queue = h1.channel.queue; sent = [] })
          ≡ ok d' =
        ap (λ q. work serde io (length q) (record d { queue = h1.channel.queue; sent = [] })) queue
        ∙ worked in
      (
        h2,
        d',
        rw (heard_all-requests lawful fails l h sent up, worked', texts, relayed) refl,
        out ∙ ap (λ w. w ++ map (λ a. (a.stream, reply_to logs a)) l) (written-all_asked serde l h),
        kept,
        ap (λ c. c.queue) same ∙ left,
        ap (λ c. c.manager_up) same ∙ up-all_asked serde l h up,
      )
