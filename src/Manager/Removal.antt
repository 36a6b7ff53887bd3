-- ===== src/Manager/Removal.antt =====
-- `remove_notification` of server/manager.rs, and the ids of the buffer.
use mathlib.Core.HLevel.{⊥_prop}
use mathlib.Core.Logic.Or
use mathlib.Core.List.{Nodup, Mem, Perm, Nodup-cons, not-mem-nil, eq-or-mem_of_mem-cons}
use mathlib.Core.List.Perm
use mathlib.Core.List.Nodup
use mathlib.Core.List.Sublist
use notifs_piper.Common.{
  ℕ, ◌≡◌, refl, ap, true, none, some, List, [], ◌∷◌, map, length, pop_back, arith, ◌==◌,
  Option-cases, Bool-cases, inl, inr,
}
use notifs_piper.Event.{NotificationEvent}
use notifs_piper.Manager.{LogsManager, find, removed_at, remove_notification, append_notification}
use notifs_piper.Manager.Buffer.{
  position-found, position-none, swap_remove_back-perm, pop_back-sublist, find-id,
}

abbrev pub ids : {Hints : Type 0} → List (NotificationEvent Hints) → List ℕ
ids l = map (λ e. e.id) l

module _ {Hints : Type 0} (man : LogsManager Hints) (nid : ℕ) where
  -- With no such notification nothing changes, and the manager is not marked for writing.
  pub remove_notification-none :
      find nid man.logs_buffer ≡ none → remove_notification man nid ≡ (man, none)
  unfolding remove_notification
  remove_notification-none h = rw (position-none nid man.logs_buffer h)

  -- If a notification has the id, the first one is taken out and returned; the others all stay,
  -- perhaps in another order, and the manager is marked for writing.
  pub remove_notification-some :
      (ne : NotificationEvent Hints)
      → find nid man.logs_buffer ≡ some ne
      → (rest : List (NotificationEvent Hints)) × (remove_notification man nid
          ≡ (record man { logs_buffer = rest; dirty = true }, some ne))
        × Perm man.logs_buffer (ne ∷ rest)
  unfolding remove_notification
  remove_notification-some ne h =
      let (i, p, g, _) = position-found nid man.logs_buffer ne h in
      let (rest, e, q) = swap_remove_back-perm man.logs_buffer i ne g in
      (rest, rw (p, e, removed_at), q)

module _ {Hints : Type 0} where
  pub map-pop_back : (l : List (NotificationEvent Hints)) → ids (pop_back l) ≡ pop_back (ids l)
  map-pop_back [] = refl
  map-pop_back (x ∷ []) = refl
  map-pop_back (x ∷ y ∷ ys) = ap (◌∷◌ x.id) (map-pop_back (y ∷ ys))

  find-none-not-mem :
      (nid : ℕ) (l : List (NotificationEvent Hints)) → find nid l ≡ none → ¬ Mem nid (ids l)
  unfolding find
  find-none-not-mem nid [] h = not-mem-nil
  find-none-not-mem nid (x ∷ l) h = λ m.
      Or.elim ⊥_prop (eq-or-mem_of_mem-cons m) (λ here. ground arith)
        (find-none-not-mem nid l (ground arith))

  removed_ids :
      (nid : ℕ) (l rest : List (NotificationEvent Hints)) (ne : NotificationEvent Hints)
      → Perm l (ne ∷ rest)
      → ne.id ≡ nid
      → Nodup (ids l)
      → Nodup (ids rest) × (¬ Mem nid (ids rest))
  removed_ids nid l rest ne p e d =
      let (absent, distinct) = Nodup-cons.0 (Perm.nodup (Perm.map (λ x. x.id) p) d) in
      (distinct, rw (← e) absent)

  -- If the ids are distinct, they still are after a removal, and the removed id is not among them.
  pub remove_notification-Nodup :
      (man : LogsManager Hints) (nid : ℕ)
      → Nodup (ids man.logs_buffer)
      → Nodup (ids (remove_notification man nid).0.logs_buffer)
        × (¬ Mem nid (ids (remove_notification man nid).0.logs_buffer))
  remove_notification-Nodup man nid d = elim (Option-cases (find nid man.logs_buffer)) [
    | inl e ↦ rw (remove_notification-none man nid e) (d, find-none-not-mem nid man.logs_buffer e)
    | inr (ne, e) ↦
        let (rest, removed, p) = remove_notification-some man nid ne e in
        rw removed (removed_ids nid man.logs_buffer rest ne p (find-id nid man.logs_buffer ne e) d)
  ]

  room-Nodup :
      (ne : NotificationEvent Hints) (l : List (NotificationEvent Hints))
      → Nodup (ids l)
      → ¬ Mem ne.id (ids l)
      → Nodup (ids (ne ∷ l)) × Nodup (ids (ne ∷ pop_back l))
  room-Nodup ne l d fresh =
      let s = pop_back-sublist (ids l) in
      (
        Nodup-cons.1 (fresh, d),
        rw map-pop_back (Nodup-cons.1 ((λ m. fresh (Sublist.subset s ne.id m)), Nodup.sublist s d)),
      )

  -- A notification whose id is not in the buffer leaves the ids distinct.
  pub append_notification-Nodup :
      (man : LogsManager Hints) (ne : NotificationEvent Hints)
      → Nodup (ids man.logs_buffer)
      → ¬ Mem ne.id (ids man.logs_buffer)
      → Nodup (ids (append_notification man ne).logs_buffer)
  unfolding append_notification
  append_notification-Nodup man ne d fresh =
      let (all, popped) = room-Nodup ne man.logs_buffer d fresh in
      elim (Bool-cases (length man.logs_buffer == man.logs_config.max_logs)) [
        | inl e ↦ rw e popped
        | inr e ↦ rw e all
      ]
