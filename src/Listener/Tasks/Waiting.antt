-- ===== src/Listener/Tasks/Waiting.antt =====
-- A process waits in the map as long as a request of it is on its way.
use notifs_piper.Common.{
  ℕ, ◌≤◌, ◌≡◌, ◌≢◌, ◌⊎◌, inl, inr, refl, sym, ap, ◌∙◌, Bool, none, some, List, [], ◌∷◌, ◌++◌, ok,
  arith,
}
use notifs_piper.Event.{Serde}
use notifs_piper.Transmission.{Transmission}
use notifs_piper.Listener.Processes.{
  lookup, remove, insert, insert_found, lookup-insert_other, lookup-remove_other,
}
use notifs_piper.Listener.{answer, write_or_log}
use notifs_piper.Listener.Tasks.{
  Tasks, Turn, enter, push, inject, watch, reply, drop, take, spread, Turns, here, next, times,
  pids, in_flight, enter_process, with_queue, IsQuiet, IsPatient, AllPatient,
}
use notifs_piper.Listener.Tasks.Counting.{
  times-append, taken-times, taken-pids, added-pids, times-same, times-other, eq_cases,
}
use notifs_piper.Listener.Tasks.Sections.{queue_job_lem, answer_lem, answer_waiting, publish_lem}

module _ {Hints : Type 0} where
  -- A process waits, and at most one of its requests is on its way.
  abbrev Waits : ℕ → Tasks Hints → Type 0
  Waits p s = (in_flight p s ≤ 1) × ((in_flight p s ≡ 0) ⊎ (lookup p s.listener.active ≢ none))

  Waits-kept :
      (p : ℕ) (s t : Tasks Hints)
      → Waits p s
      → in_flight p t ≤ in_flight p s
      → lookup p t.listener.active ≡ lookup p s.listener.active
      → Waits p t
  Waits-kept p s t (bound, inl z) fewer same = (omega arith, inl (omega arith))
  Waits-kept p s t (bound, inr w) fewer same = (omega arith, inr (rw same w))

  Waits-quiet : (p : ℕ) (s : Tasks Hints) → IsQuiet s → Waits p s
  Waits-quiet p s (entered, queue, answers) =
      let nothing : in_flight p s ≡ 0 = rw (entered, queue, answers) refl in
      (omega (arith, nothing), inl nothing)

  waiting :
      (p : ℕ) (s : Tasks Hints)
      → in_flight p s ≡ 1
      → (in_flight p s ≡ 0) ⊎ (lookup p s.listener.active ≢ none)
      → lookup p s.listener.active ≢ none
  waiting p s one (inl z) = absurd (omega (arith, one, z))
  waiting p s one (inr w) = w

  in_flight_other :
      (p q : ℕ) (s : Tasks Hints)
      → p ≢ 0
      → q ≡ p
      → (q ≡ 0) ⊎ (in_flight q s ≡ 0)
      → in_flight p s ≡ 0
  in_flight_other p q s nz e (inl z) = absurd (nz (sym e ∙ z))
  in_flight_other p q s nz e (inr z) = rw (← e) z

  module _ {serde : Serde Hints} {fails : ℕ → Bool} (p : ℕ) (not_zero : p ≢ 0) where
    Waits-turn :
        {s t : Tasks Hints} (turn : Turn serde fails s t) → IsPatient turn → Waits p s → Waits p t
    Waits-turn {s} (enter jd pid stream e) (itself, patient) w =
        rw e (elim (eq_cases jd.desc.pid p) [
          | inl same ↦ (
            omega (
              arith,
              in_flight_other p jd.desc.pid s not_zero same patient,
              times-same p jd.desc.pid (pids s.entered) same,
            ),
            inr (insert_found p pid stream s.listener.active (itself ∙ same)),
          )
          | inr other ↦
              Waits-kept p s
                (record s {
                  listener = enter_process pid stream s.listener;
                  entered = jd ∷ s.entered;
                })
                w (omega (arith, times-other p jd.desc.pid (pids s.entered) other))
                (lookup-insert_other p pid stream s.listener.active (λ q. other (sym (q ∙ itself))))
        ])
    Waits-turn {s} (push before after jd h split queued e) patient w =
        let (active, queue) = queue_job_lem jd s.listener h queued in
        rw e (
          Waits-kept p s (record s { listener = h; entered = before ++ after }) w
            (omega (
              arith,
              taken-pids p jd s.entered before after split,
              added-pids p jd s.listener.channel.queue h.channel.queue queue,
            ))
            (ap (lookup p) active))
    Waits-turn {s} (inject jd h zero queued e) patient w =
        let (active, queue) = queue_job_lem jd s.listener h queued in
        rw e (
          Waits-kept p s (record s { listener = h }) w
            (omega (
              arith,
              added-pids p jd s.listener.channel.queue h.channel.queue queue,
              times-other p jd.desc.pid [] (λ q. not_zero (sym q ∙ zero)),
            ))
            (ap (lookup p) active))
    Waits-turn {s} (watch pid watcher e) patient w = rw e (
        Waits-kept p s
          (record s {
            listener = record s.listener { listening = insert pid watcher s.listener.listening };
          })
          w (omega arith) refl)
    Waits-turn {s} (reply jd queue split e) patient w = rw e (
        Waits-kept p s
          (record s {
            listener = with_queue queue s.listener;
            answers = s.answers ++ jd.desc.pid ∷ [];
          })
          w
          (omega (
            arith,
            taken-pids p jd s.listener.channel.queue [] queue split,
            times-append p s.answers (jd.desc.pid ∷ []),
          ))
          refl)
    Waits-turn {s} (drop jd queue split e) patient w = rw e (
        Waits-kept p s (record s { listener = with_queue queue s.listener }) w
          (omega (arith, taken-pids p jd s.listener.channel.queue [] queue split)) refl)
    Waits-turn {s} (take before after pid out h split q answered e) patient w =
        let (active, channel) = answer_lem fails pid out s.listener h answered in
        rw e (elim (eq_cases pid p) [
          | inl same ↦
              let none_left : in_flight p (record s { listener = h; answers = before ++ after })
                  ≡ 0 =
                omega (
                  arith,
                  w.0,
                  taken-times p pid s.answers before after split,
                  times-same p pid [] same,
                  ap (λ c. times p (pids c.queue)) channel,
                ) in
              (omega (arith, none_left), inl none_left)
          | inr other ↦
              Waits-kept p s (record s { listener = h; answers = before ++ after }) w
                (omega (
                  arith,
                  taken-times p pid s.answers before after split,
                  ap (λ c. times p (pids c.queue)) channel,
                ))
                (ap (lookup p) active
                  ∙ lookup-remove_other p pid s.listener.active (λ q. other (sym q)))
        ])
    Waits-turn {s} (spread before after data_text h split published e) patient w =
        let (active, queue) = publish_lem serde fails data_text s.listener h published in
        rw e (
          Waits-kept p s (record s { listener = h; answers = before ++ after }) w
            (omega (arith, taken-times p 0 s.answers before after split, queue p not_zero))
            (ap (lookup p) active))

module _ {Hints : Type 0} {serde : Serde Hints} {fails : ℕ → Bool} where
  Waits-turns :
      (p : ℕ) {s t : Tasks Hints} (turns : Turns serde fails s t)
      → p ≢ 0
      → AllPatient turns
      → Waits p s
      → Waits p t
  Waits-turns p here z patient w = w
  Waits-turns p (next turns turn) z (earlier, patient) w =
      Waits-turn p z turn patient (Waits-turns p turns z earlier w)

  -- If every process names itself in its requests and, unless it is 0, makes one only when none of its
  -- requests is on its way, then after any turns of the tasks, of the manager and of the bus from a
  -- state where nothing is on its way, an answer that waits to be taken for a process other than 0 finds
  -- the stream of this process: the task that takes it does not panic, forgets the process and writes the
  -- answer, or logs that the stream is gone. No other request of the process is on its way then.
  pub turns-answer :
      {s t : Tasks Hints} (turns : Turns serde fails s t) (before after : List ℕ) (pid : ℕ)
      (tr : Transmission)
      → IsQuiet s
      → AllPatient turns
      → t.answers ≡ before ++ pid ∷ after
      → pid ≢ 0
      → ((stream : ℕ) × (lookup pid t.listener.active ≡ some stream)
          × (answer fails pid tr t.listener
              ≡ ok (
                  write_or_log fails stream tr
                    (record t.listener { active = remove pid t.listener.active }))))
        × (in_flight pid t ≡ 1)
  turns-answer {s} {t} turns before after pid out start patient split z =
      let w = Waits-turns pid turns z patient (Waits-quiet pid s start) in
      let one : in_flight pid t ≡ 1 = omega (
        arith,
        w.0,
        taken-times pid pid t.answers before after split,
        times-same pid pid [] refl,
      ) in
      (answer_waiting fails pid out t.listener (waiting pid t one w.1), one)
