-- ===== src/Server/Session/Distinct.antt =====
-- The ids of the logs over whole runs of the daemon.
use mathlib.Core.List.{Mem, Nodup, not-mem-nil, eq-or-mem_of_mem-cons}
use mathlib.Core.Logic.Or
use mathlib.Core.Path.{subst}
use native.Mathlib.Bridge.{le_prop}
use notifs_piper.Common.{
  ℕ, ◌+◌, ◌≤◌, ◌<◌, ◌^◌, ◌≡◌, ◌≢◌, ◌⊎◌, inl, inr, refl, sym, ap, ◌∙◌, Bool, List, [], ◌∷◌, ◌++◌, ok,
  arith, ok-injective, Bool-cases, ◌==◌,
}
use notifs_piper.Event.{NotificationEvent, Serde}
use notifs_piper.Job.{Job, JobDesc, broadcast, close, expired}
use notifs_piper.Manager.Removal.{ids}
use notifs_piper.Execute.Later.{IsBroadcast}
use notifs_piper.Exec.{ExecState, Io, Daemon, exec}
use notifs_piper.Exec.Replies.{exec-nil, exec-queue}
use notifs_piper.Dbus.Ids.{IdsBelow, max_id-IdsBelow, choose_fresh}
use notifs_piper.Dbus.{NotifyCall, choose_id, made, internal, max_id}
use notifs_piper.Server.{State, Step, push, wake, send, receive, run}
use notifs_piper.Server.Session.{
  Session, Move, announce, other, Moves, here, next, begun, IsPlain, IsTame, AllTame,
}
use notifs_piper.Server.Session.Seen.{
  IsNew, noted, AllNew, seen_after, AllNew-Subset, seen_after-Subset, AllNew-append,
  seen_after-append,
}
use notifs_piper.Server.Session.Stored.{exec-ids}

-- No id is above the counter.
abbrev AllBelow : ℕ → List ℕ → Type 0
AllBelow c l = (i : ℕ) → Mem i l → i ≤ c

cons-AllBelow : (i c : ℕ) (l : List ℕ) → i ≤ c → AllBelow c l → AllBelow c (i ∷ l)
cons-AllBelow i c l h k = λ x m. Or.elim le_prop (eq-or-mem_of_mem-cons m) (λ e. omega arith) (k x)

ids-AllBelow :
    {Hints : Type 0} (c : ℕ) (l : List (NotificationEvent Hints))
    → IdsBelow c l
    → AllBelow c (ids l)
ids-AllBelow c [] h = λ x m. absurd (not-mem-nil m)
ids-AllBelow c (e ∷ l) (h, k) = cons-AllBelow e.id c (ids l) h (ids-AllBelow c l k)

choose_cases :
    (checks : Bool) (replaces_id c id c' : ℕ)
    → choose_id checks replaces_id c ≡ ok (id, c')
    → c + 1 < 2 ^ 32
    → ((replaces_id ≡ 0) × (id ≡ c + 1) × (c' ≡ c + 1))
      ⊎ ((replaces_id ≢ 0) × (id ≡ replaces_id) × (c' ≡ c))
unfolding choose_id
choose_cases checks replaces_id c id c' h room = elim (Bool-cases (replaces_id == 0)) [
  | inl e ↦
      let z : replaces_id ≡ 0 = ground arith in
      let p = ok-injective (sym (choose_fresh checks replaces_id c z room) ∙ h) in
      inl (z, sym (ap (λ x. x.0) p), sym (ap (λ x. x.1) p))
  | inr e ↦
      let given : replaces_id ≢ 0 = ground arith in
      let q : ok (replaces_id, c) ≡ ok (id, c') = rw e at h in
      let p = ok-injective q in inr (given, sym (ap (λ x. x.0) p), sym (ap (λ x. x.1) p))
]

-- The ids of the logs are distinct, the jobs of the queue keep them so, and the counter has reached
-- all of their ids.
pub record IsOrderly {Hints : Type 0} (counter : ℕ) (logs : List (NotificationEvent Hints))
    (queue : List (JobDesc Hints)) : Type 0 where
  pub distinct : Nodup (ids logs)
  pub new : AllNew (ids logs) queue
  pub below : AllBelow counter (seen_after (ids logs) queue)

module _ {Hints : Type 0} where
  -- A job behind the queue, whose id the counter `c'` has reached.
  push-IsOrderly :
      (c c' : ℕ) (logs : List (NotificationEvent Hints)) (queue : List (JobDesc Hints))
      (jd : JobDesc Hints)
      → IsOrderly c logs queue
      → IsNew (seen_after (ids logs) queue) jd.cmd
      → AllBelow c' (noted jd.cmd (seen_after (ids logs) queue))
      → IsOrderly c' logs (queue ++ jd ∷ [])
  push-IsOrderly c c' logs queue jd o fresh bound = record {
    distinct = o.distinct;
    new = AllNew-append queue jd (ids logs) o.new fresh;
    below = rw (seen_after-append queue jd (ids logs)) bound;
  }

  plain-IsNew : (job : Job Hints) (seen : List ℕ) → ¬ IsBroadcast job → IsNew seen job
  plain-IsNew (broadcast ne) seen b = absurd (b tt)
  plain-IsNew job seen b = tt

  noted-plain : (job : Job Hints) (seen : List ℕ) → ¬ IsBroadcast job → noted job seen ≡ seen
  noted-plain (broadcast ne) seen b = absurd (b tt)
  noted-plain job seen b = refl

  plain-IsOrderly :
      (c : ℕ) (logs : List (NotificationEvent Hints)) (queue : List (JobDesc Hints))
      (jd : JobDesc Hints)
      → ¬ IsBroadcast jd.cmd
      → IsOrderly c logs queue
      → IsOrderly c logs (queue ++ jd ∷ [])
  plain-IsOrderly c logs queue jd b o =
      push-IsOrderly c c logs queue jd o (plain-IsNew jd.cmd _ b)
        (rw (noted-plain jd.cmd (seen_after (ids logs) queue) b) o.below)

  -- What `notify` queues where it has chosen this id.
  chosen-IsOrderly :
      (checks : Bool) (time : ℕ) (call : NotifyCall Hints) (c id c' : ℕ)
      (logs : List (NotificationEvent Hints)) (queue : List (JobDesc Hints))
      → choose_id checks call.replaces_id c ≡ ok (id, c')
      → call.replaces_id ≤ c
      → c + 1 < 2 ^ 32
      → IsOrderly c logs queue
      → IsOrderly c' logs (queue ++ internal (broadcast (made call time id)) ∷ [])
  chosen-IsOrderly checks time call c id c' logs queue h known room o =
      let seen = seen_after (ids logs) queue in
      let jd = internal (broadcast (made call time id)) in
      elim (choose_cases checks call.replaces_id c id c' h room) [
        | inl (no_id, i, k) ↦
            push-IsOrderly c c' logs queue jd o
              (inr (no_id, λ m. let p = o.below id m in omega arith))
              (cons-AllBelow id c' seen (omega arith) (λ x m. let p = o.below x m in omega arith))
        | inr (given, i, k) ↦
            push-IsOrderly c c' logs queue jd o (inl (given, i))
              (cons-AllBelow id c' seen (omega arith) (λ x m. let p = o.below x m in omega arith))
      ]

  -- A call of `exec` in such a state.
  run-IsOrderly :
      (serde : Serde Hints) (io : Io) (c : ℕ) (d d' : Daemon Hints) (st : ExecState)
      (queue : List (JobDesc Hints))
      → d.queue ≡ queue
      → exec serde io d ≡ ok (d', st)
      → IsOrderly c d.server.man.logs_buffer queue
      → IsOrderly c d'.server.man.logs_buffer d'.queue
  run-IsOrderly serde io c d d' st [] e h o =
      let same = ap (λ x. x.0) (ok-injective (sym (exec-nil serde io d e) ∙ h)) in
      subst (λ x. IsOrderly c x.server.man.logs_buffer x.queue) same (rw e o)
  run-IsOrderly serde io c d d' st (jd ∷ rest) e h o =
      let (distinct, fewer) = exec-ids serde io d d' st jd rest e h o.new.0 o.distinct in
      let left : d'.queue ≡ rest = exec-queue serde io d d' st jd rest e h in
      rw left (record {
        distinct = distinct;
        new = AllNew-Subset rest _ _ fewer o.new.1;
        below = λ i m. o.below i (seen_after-Subset rest _ _ fewer i m);
      })

abbrev InOrder : {Hints : Type 0} → Session Hints → Type 0
InOrder s = IsOrderly s.counter s.state.daemon.server.man.logs_buffer s.state.daemon.queue

module _ {Hints : Type 0} {serde : Serde Hints} where
  Step-InOrder :
      (c : ℕ) (s t : State Hints) (step : Step serde s t)
      → IsPlain step
      → IsOrderly c s.daemon.server.man.logs_buffer s.daemon.queue
      → IsOrderly c t.daemon.server.man.logs_buffer t.daemon.queue
  Step-InOrder c s t (push jd e) plain o = rw e (plain-IsOrderly c _ _ jd plain o)
  Step-InOrder c s t (wake before after timer now e w e') plain o =
      rw e' (plain-IsOrderly c _ _ (internal (close timer.id expired)) (λ x. x) o)
  Step-InOrder c s t (send n e e') plain o = rw e' o
  Step-InOrder c s t (receive n e r e') plain o = rw e' o
  Step-InOrder c s t (run io d st r h e) plain o =
      rw e (run-IsOrderly serde io c s.daemon d st s.daemon.queue refl h o)

  Move-InOrder : (s t : Session Hints) (move : Move serde s t) → IsTame move → InOrder s → InOrder t
  Move-InOrder s t (announce checks time call id counter e e') (known, room) o =
      rw e' (chosen-IsOrderly checks time call s.counter id counter _ _ e known room o)
  Move-InOrder s t (other u step e) plain o = rw e (Step-InOrder s.counter s.state u step plain o)

  Moves-InOrder :
      (s t : Session Hints) (moves : Moves serde s t) → AllTame moves → InOrder s → InOrder t
  Moves-InOrder s t here tame o = o
  Moves-InOrder s t (next {t = u} moves move) (tame, last) o =
      Move-InOrder u t move last (Moves-InOrder s u moves tame o)

begun-InOrder :
    {Hints : Type 0} (d : Daemon Hints) → Nodup (ids d.server.man.logs_buffer) → InOrder (begun d)
begun-InOrder d distinct = record {
  distinct = distinct;
  new = tt;
  below =
      ids-AllBelow (max_id d.server.man.logs_buffer) d.server.man.logs_buffer
        (max_id-IdsBelow d.server.man.logs_buffer);
}

-- If the ids of the logs are distinct when the daemon starts, they are so in every state that a run
-- of the threads and of the calls of `notify` leads to, if each call replaces nothing or an id that
-- the counter has reached, the counter stays below its greatest value, and no producer beside
-- `notify` queues a broadcast.
pub session-Nodup :
    {Hints : Type 0} {serde : Serde Hints} (d : Daemon Hints) (s : Session Hints)
    (moves : Moves serde (begun d) s)
    → AllTame moves
    → Nodup (ids d.server.man.logs_buffer)
    → Nodup (ids s.state.daemon.server.man.logs_buffer)
session-Nodup d s moves tame distinct =
    (Moves-InOrder (begun d) s moves tame (begun-InOrder d distinct)).distinct
