-- ===== src/Listener/Tasks.antt =====
-- The tasks of server/listener.rs side by side, at the grain of their locks: a request is first
-- entered in the map of waiting processes and later pushed; the manager takes a job and may answer it;
-- an answer is later taken by a task of its own.
pub mod Counting
pub mod Sections
pub mod Waiting
use notifs_piper.Common.{
  ℕ, ◌+◌, ◌≡◌, ◌≢◌, ◌⊎◌, Bool, List, [], ◌∷◌, ◌++◌, map, ok, ◌==◌, if◌then◌else◌,
}
use notifs_piper.Text.{Text}
use notifs_piper.Event.{Serde}
use notifs_piper.Job.{JobDesc}
use notifs_piper.Transmission.{Transmission}
use notifs_piper.Listener.Processes.{insert}
use notifs_piper.Listener.{Watcher, Listener, queue_job, answer, publish}

-- The shared state; the jobs of the tasks that have entered their process and not yet pushed; and the
-- pids of the answers that no task has taken yet.
pub record Tasks (Hints : Type 0) : Type 0 where
  pub listener : Listener Hints
  pub entered : List (JobDesc Hints)
  pub answers : List ℕ

module _ {Hints : Type 0} where
  -- The section under the lock of the waiting processes.
  abbrev pub enter_process : ℕ → ℕ → Listener Hints → Listener Hints
  enter_process pid stream h = record h { active = insert pid stream h.active }

  abbrev pub with_queue : List (JobDesc Hints) → Listener Hints → Listener Hints
  with_queue queue h = record h { channel = record h.channel { queue = queue } }

-- `enter` and `push` are the two sections of a request; `inject` is a job of the bus or of a timer; `watch` is a
-- request to watch;
-- `reply` and `drop` are the manager's thread, which answers a job or does not; `take` and `spread` are
-- the tasks of the answers.
pub data Turn {Hints : Type 0} (serde : Serde Hints) (fails : ℕ → Bool) (s t : Tasks Hints)
    : Type 0 where
  enter :
      (jd : JobDesc Hints) (pid stream : ℕ)
      → t ≡ record s { listener = enter_process pid stream s.listener; entered = jd ∷ s.entered }
      → Turn serde fails s t
  push :
      (before after : List (JobDesc Hints)) (jd : JobDesc Hints) (h : Listener Hints)
      → s.entered ≡ before ++ jd ∷ after
      → queue_job jd s.listener ≡ ok h
      → t ≡ record s { listener = h; entered = before ++ after }
      → Turn serde fails s t
  inject :
      (jd : JobDesc Hints) (h : Listener Hints)
      → jd.desc.pid ≡ 0
      → queue_job jd s.listener ≡ ok h
      → t ≡ record s { listener = h }
      → Turn serde fails s t
  watch :
      (pid : ℕ) (w : Watcher)
      → t ≡ record s {
        listener = record s.listener { listening = insert pid w s.listener.listening };
      }
      → Turn serde fails s t
  reply :
      (jd : JobDesc Hints) (queue : List (JobDesc Hints))
      → s.listener.channel.queue ≡ jd ∷ queue
      → t ≡ record s {
        listener = with_queue queue s.listener;
        answers = s.answers ++ jd.desc.pid ∷ [];
      }
      → Turn serde fails s t
  drop :
      (jd : JobDesc Hints) (queue : List (JobDesc Hints))
      → s.listener.channel.queue ≡ jd ∷ queue
      → t ≡ record s { listener = with_queue queue s.listener }
      → Turn serde fails s t
  take :
      (before after : List ℕ) (pid : ℕ) (tr : Transmission) (h : Listener Hints)
      → s.answers ≡ before ++ pid ∷ after
      → pid ≢ 0
      → answer fails pid tr s.listener ≡ ok h
      → t ≡ record s { listener = h; answers = before ++ after }
      → Turn serde fails s t
  spread :
      (before after : List ℕ) (data_text : Text) (h : Listener Hints)
      → s.answers ≡ before ++ 0 ∷ after
      → publish serde fails data_text s.listener ≡ ok h
      → t ≡ record s { listener = h; answers = before ++ after }
      → Turn serde fails s t

pub data Turns {Hints : Type 0} (serde : Serde Hints) (fails : ℕ → Bool) (s : Tasks Hints)
    : Tasks Hints → Type 0 where
  here : Turns serde fails s s
  next : {t u : Tasks Hints} → Turns serde fails s t → Turn serde fails t u → Turns serde fails s u

abbrev pub times : ℕ → List ℕ → ℕ
times p [] = 0
times p (q ∷ l) = (if q == p then 1 else 0) + times p l

abbrev pub pids : {Hints : Type 0} → List (JobDesc Hints) → List ℕ
pids l = map (λ jd. jd.desc.pid) l

-- How many requests of the process are on their way.
abbrev pub in_flight : {Hints : Type 0} → ℕ → Tasks Hints → ℕ
in_flight p s =
    times p (pids s.entered) + times p (pids s.listener.channel.queue) + times p s.answers

-- Nothing is on its way.
abbrev pub IsQuiet : {Hints : Type 0} → Tasks Hints → Type 0
IsQuiet s = (s.entered ≡ []) × (s.listener.channel.queue ≡ []) × (s.answers ≡ [])

-- A process names itself in its request and, unless it is 0, makes one only when none of its requests
-- is on its way.
module _ {Hints : Type 0} {serde : Serde Hints} {fails : ℕ → Bool} where
  abbrev pub IsPatient : {s t : Tasks Hints} → Turn serde fails s t → Type 0
  IsPatient {s} (enter jd pid stream e) =
      (pid ≡ jd.desc.pid) × ((jd.desc.pid ≡ 0) ⊎ (in_flight jd.desc.pid s ≡ 0))
  IsPatient _ = Unit {0}

  abbrev pub AllPatient : {s t : Tasks Hints} → Turns serde fails s t → Type 0
  AllPatient here = Unit
  AllPatient (next turns turn) = AllPatient turns × IsPatient turn
