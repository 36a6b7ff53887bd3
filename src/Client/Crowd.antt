-- ===== src/Client/Crowd.antt =====
-- Many clients that query at once: all requests are read before the manager runs the first job, and
-- all answers are sent before the listener reads the first.
pub mod Asking
pub mod Working
pub mod Answered
use notifs_piper.Common.{
  ℕ, zero, suc, ◌≡◌, ◌≢◌, Bool, true, false, some, ◌==◌, if◌then◌else◌, List, [], ◌∷◌, map, Outcome,
  ok, ◌>>=◌, length,
}
use notifs_piper.Text.{Text, codes}
use notifs_piper.Event.{NotificationEvent, Serde}
use notifs_piper.Job.{JobDesc, query}
use notifs_piper.Transmission.{outgoing, transmission_to_string}
use notifs_piper.Execute.Spec.{told_closed}
use notifs_piper.Exec.{Io, Daemon, exec}
use notifs_piper.Exec.Answering.{answered}
use notifs_piper.Listener.Processes.{Distinct}
use notifs_piper.Listener.{Listener}
use notifs_piper.Client.Requests.{RequestInRange}
use notifs_piper.Client.Watching.{heard}
use notifs_piper.Client.{Request, Peer, described, send}

-- A client that queries: the stream of its connection, as the listener has it, and as its own end.
pub record Asker : Type 0 where
  pub stream : ℕ
  pub peer : Peer
  pub pid : ℕ
  pub flags : ℕ
  pub id : ℕ

abbrev pub request_of : {Hints : Type 0} → Asker → Request Hints
request_of a = record { job = query a.id; flags = a.flags; pid = a.pid }

-- The listener reads one connection after the other.
unfoldable pub heard_all :
    {Hints : Type 0}
    → Serde Hints
    → (ℕ → Bool)
    → List (ℕ × Text)
    → Listener Hints
    → Outcome Text (Listener Hints)
heard_all serde fails [] h = ok h
heard_all serde fails ((stream, bytes) ∷ l) h = do
  h' ← heard serde fails stream bytes h
  heard_all serde fails l h'

-- The manager receives this many signals.
unfoldable pub work :
    {Hints : Type 0} → Serde Hints → Io → ℕ → Daemon Hints → Outcome Text (Daemon Hints)
work serde io zero d = ok d
work serde io (suc n) d = do (d', st) ← exec serde io d; work serde io n d'

abbrev pub connections : {Hints : Type 0} → Serde Hints → List Asker → List (ℕ × Text)
connections serde l = map (λ a. (a.stream, (send serde (request_of a) a.peer).bytes)) l

-- All requests, all jobs, all answers; `stream` is that of the connections of the manager, which has
-- the queue in common with the listener.
unfoldable pub served :
    {Hints : Type 0}
    → Serde Hints
    → Io
    → (ℕ → Bool)
    → ℕ
    → List (ℕ × Text)
    → Listener Hints
    → Daemon Hints
    → Outcome Text (Listener Hints × Daemon Hints)
served {Hints} serde io fails stream l h d = do
  h1 ← heard_all serde fails l h
  d' ← work serde io (length h1.channel.queue) (record d { queue = h1.channel.queue; sent = [] })
  let left : Listener Hints = record h1 { channel = record h1.channel { queue = d'.queue } }
  h2 ← heard_all serde fails (map (λ t. (stream, t)) d'.sent) left
  ok (h2, d')

module _ {Hints : Type 0} where
  abbrev pub jobs_of : Serde Hints → List Asker → List (JobDesc Hints)
  jobs_of serde l = map (λ a. described serde (request_of a)) l

  -- The answer for a client, where these are the logs.
  abbrev pub reply_to : List (NotificationEvent Hints) → Asker → Text
  reply_to logs a =
      transmission_to_string
        (record { typ = outgoing a.pid; data_text = answered (told_closed a.id logs) })

-- A client whose `send!` returns `Ok`, and whose stream takes the answer.
abbrev pub HasSent : {Hints : Type 0} → Serde Hints → (ℕ → Bool) → Asker → Type 0
HasSent {Hints} serde fails a =
    (a.pid ≢ 0)
    × RequestInRange {Hints = Hints} (request_of a)
    × ((send serde (request_of a) a.peer).result ≡ some (ok tt))
    × (fails a.stream ≡ false)

-- No two clients have the same pid.
abbrev pub ArePidsDistinct : List Asker → Type 0
ArePidsDistinct l = Distinct (map (λ a. (a.pid, a.stream)) l)
