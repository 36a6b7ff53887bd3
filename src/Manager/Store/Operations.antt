-- ===== src/Manager/Store/Operations.antt =====
-- The operations of `LogsManager` on what is stored.
use mathlib.Core.List.{Nodup}
use notifs_piper.Common.{
  ℕ, ◌≡◌, ◌≢◌, inl, inr, refl, sym, true, false, none, List, [], ◌∷◌, length, arith, Bool-cases,
  Option-cases, pop_back, last_of, ◌==◌,
}
use notifs_piper.Event.{NotificationEvent}
use notifs_piper.Manager.{
  LogsManager, find, modify_found, removed_at, remove_notification, append_notification,
}
use notifs_piper.Manager.Buffer.{position-none}
use notifs_piper.Manager.Removal.{ids}
use notifs_piper.Manager.Store.{put, erase, alter, view}
use notifs_piper.Manager.Store.Finding.{find-cons, pop_back_found, removed_found}

module _ {Hints : Type 0} where
  pub find-modify_found-alter :
      (f : NotificationEvent Hints → NotificationEvent Hints)
      → ((e : NotificationEvent Hints) → (f e).id ≡ e.id)
      → (nid id : ℕ) (l : List (NotificationEvent Hints))
      → find id (modify_found f nid l) ≡ alter f nid (λ i. find i l) id
  unfolding find modify_found
  find-modify_found-alter f keeps nid id [] = ground arith
  find-modify_found-alter f keeps nid id (x ∷ l) =
      ground (arith, keeps x, find-modify_found-alter f keeps nid id l)

  erase_absent :
      (nid id : ℕ) (l : List (NotificationEvent Hints))
      → find nid l ≡ none
      → find id l ≡ erase nid (λ i. find i l) id
  erase_absent nid id l h = elim (Bool-cases (nid == id)) [
    | inl e ↦
        let same : nid ≡ id = ground arith in
        let gone : find id l ≡ none = rw same at h in rw e gone
    | inr e ↦ rw e
  ]

  full_found :
      (id : ℕ) (ne x : NotificationEvent Hints) (l : List (NotificationEvent Hints))
      → Nodup (ids (x ∷ l))
      → find id (ne ∷ pop_back (x ∷ l)) ≡ put ne (erase (last_of x l).id (λ i. find i (x ∷ l))) id
  full_found id ne x l d = rw (find-cons id ne (pop_back (x ∷ l)), pop_back_found id x l d) refl

  -- `remove_notification`, where the ids are distinct, takes the id out of the store and returns
  -- what was stored under it.
  pub view-remove_notification :
      (man : LogsManager Hints) (nid : ℕ)
      → Nodup (ids man.logs_buffer)
      → (view (remove_notification man nid).0 ≡ erase nid (view man))
        × ((remove_notification man nid).1 ≡ view man nid)
  unfolding remove_notification
  view-remove_notification man nid d = elim (Option-cases (find nid man.logs_buffer)) [
    | inl e ↦
        rw (position-none nid man.logs_buffer e)
          ((λ i id. erase_absent nid id man.logs_buffer e i), sym e)
    | inr (ne, e) ↦
        let (i, rest, p, q, f) = removed_found nid man.logs_buffer ne d e in
        rw (p, q, removed_at) ((λ j id. f id j), sym e)
  ]

  -- `append_notification` on a buffer that does not have the length of its bound.
  pub view-append_notification :
      (man : LogsManager Hints) (ne : NotificationEvent Hints)
      → length man.logs_buffer ≢ man.logs_config.max_logs
      → view (append_notification man ne) ≡ put ne (view man)
  unfolding append_notification
  view-append_notification man ne room =
      let e : (length man.logs_buffer == man.logs_config.max_logs) ≡ false = ground arith in
      rw e (λ i id. find-cons id ne man.logs_buffer i)

  empty_found :
      (id : ℕ) (ne : NotificationEvent Hints)
      → find id (ne ∷ []) ≡ put ne (erase 0 (λ i. find i [])) id
  unfolding find
  empty_found id ne = ground arith

  full_cases :
      (man : LogsManager Hints) (ne : NotificationEvent Hints) (l : List (NotificationEvent Hints))
      → man.logs_buffer ≡ l
      → (length man.logs_buffer == man.logs_config.max_logs) ≡ true
      → Nodup (ids man.logs_buffer)
      → (old : ℕ) × (view (append_notification man ne) ≡ put ne (erase old (view man)))
  unfolding append_notification
  full_cases man ne [] e k d = (0, rw (k, e) (λ i id. empty_found id ne i))
  full_cases man ne (x ∷ l) e k d =
      let d' : Nodup (ids (x ∷ l)) = rw e at d in
      ((last_of x l).id, rw (k, e) (λ i id. full_found id ne x l d' i))

  -- `append_notification` on a full buffer, where the ids are distinct: one notification goes.
  pub append_notification_full :
      (man : LogsManager Hints) (ne : NotificationEvent Hints)
      → length man.logs_buffer ≡ man.logs_config.max_logs
      → Nodup (ids man.logs_buffer)
      → (old : ℕ) × (view (append_notification man ne) ≡ put ne (erase old (view man)))
  append_notification_full man ne full d = full_cases man ne man.logs_buffer refl (ground arith) d
