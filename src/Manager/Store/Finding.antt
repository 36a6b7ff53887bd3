-- ===== src/Manager/Store/Finding.antt =====
-- What `find` finds in a buffer whose last element moves or goes.
use mathlib.Core.List.{Nodup, Mem, not-mem-nil, Nodup-cons, mem-cons_self, mem-cons_of_mem}
use notifs_piper.Common.{
  ℕ, suc, ◌≡◌, ◌≢◌, refl, true, false, none, some, List, [], ◌∷◌, arith, inl, inr, Bool-cases,
  last_of, pop_back, last_to_front, swap_remove_back, ◌==◌, if◌then◌else◌,
}
use notifs_piper.Event.{NotificationEvent}
use notifs_piper.Manager.{find, position}
use notifs_piper.Manager.Removal.{ids}
use notifs_piper.Manager.Store.{erase}

module _ {Hints : Type 0} where
  pub not-mem_find-none :
      (nid : ℕ) (l : List (NotificationEvent Hints)) → ¬ Mem nid (ids l) → find nid l ≡ none
  unfolding find
  not-mem_find-none nid [] h = refl
  not-mem_find-none nid (x ∷ l) h = elim (Bool-cases (x.id == nid)) [
    | inl e ↦
        let same : nid ≡ x.id = ground arith in
        let here : Mem nid (ids (x ∷ l)) = rw same mem-cons_self in absurd (h here)
    | inr e ↦ rw e (not-mem_find-none nid l (λ m. h (mem-cons_of_mem x.id m)))
  ]

  pub find-cons :
      (nid : ℕ) (x : NotificationEvent Hints) (l : List (NotificationEvent Hints))
      → find nid (x ∷ l) ≡ (if x.id == nid then some x else find nid l)
  unfolding find
  find-cons nid x l = refl

  -- A notification that is found in a list has another id than one whose id the list lacks.
  apart :
      (y z : NotificationEvent Hints) (l : List (NotificationEvent Hints))
      → ¬ Mem y.id (ids l)
      → find z.id l ≡ some z
      → y.id ≢ z.id
  apart y z l d h = λ e. let gone : find z.id l ≡ none = rw e at (not-mem_find-none y.id l d) in cc

  last_found :
      (y : NotificationEvent Hints) (ys : List (NotificationEvent Hints))
      → Nodup (ids (y ∷ ys))
      → find (last_of y ys).id (y ∷ ys) ≡ some (last_of y ys)
  last_found y [] d = let e : (y.id == y.id) ≡ true = ground arith in rw (find-cons y.id y [], e)
  last_found y (z ∷ zs) d =
      let rest = last_found z zs (Nodup-cons.0 d).1 in
      let other = apart y (last_of z zs) (z ∷ zs) (Nodup-cons.0 d).0 rest in
      let e : (y.id == (last_of z zs).id) ≡ false = ground arith in
      rw (find-cons (last_of z zs).id y (z ∷ zs), e) rest

  -- A buffer without its last element, behind another element.
  rest_found :
      (nid gone : ℕ) (x : NotificationEvent Hints) (r l : List (NotificationEvent Hints))
      → x.id ≢ gone
      → find nid r ≡ erase gone (λ id. find id l) nid
      → find nid (x ∷ r) ≡ erase gone (λ id. find id (x ∷ l)) nid
  rest_found nid gone x r l other h = rw (find-cons nid x r, find-cons nid x l, h) (ground arith)

  pub pop_back_found :
      (nid : ℕ) (y : NotificationEvent Hints) (ys : List (NotificationEvent Hints))
      → Nodup (ids (y ∷ ys))
      → find nid (pop_back (y ∷ ys)) ≡ erase (last_of y ys).id (λ id. find id (y ∷ ys)) nid
  unfolding find
  pop_back_found nid y [] d = ground arith
  pop_back_found nid y (z ∷ zs) d =
      let last = last_of z zs in
      let other = apart y last (z ∷ zs) (Nodup-cons.0 d).0 (last_found z zs (Nodup-cons.0 d).1) in
      rest_found nid last.id y (pop_back (z ∷ zs)) (z ∷ zs) other
        (pop_back_found nid z zs (Nodup-cons.0 d).1)

  last_to_front_found :
      (nid : ℕ) (l : List (NotificationEvent Hints))
      → Nodup (ids l)
      → find nid (last_to_front l) ≡ find nid l
  last_to_front_found nid [] d = refl
  last_to_front_found nid (y ∷ ys) d =
      let last = last_of y ys in
      let at_last = last_found y ys d in
      elim (Bool-cases (last.id == nid)) [
        | inl e ↦
            let same : last.id ≡ nid = ground arith in
            let here : find nid (y ∷ ys) ≡ some last = rw same at at_last in
            rw (find-cons nid last (pop_back (y ∷ ys)), e, here)
        | inr e ↦ rw (find-cons nid last (pop_back (y ∷ ys)), pop_back_found nid y ys d, e)
      ]

  first_found :
      (nid gone : ℕ) (x : NotificationEvent Hints) (l : List (NotificationEvent Hints))
      → Nodup (ids (x ∷ l))
      → (x.id == gone) ≡ true
      → find nid (last_to_front l) ≡ erase gone (λ id. find id (x ∷ l)) nid
  first_found nid gone x l d e =
      let absent = not-mem_find-none x.id l (Nodup-cons.0 d).0 in
      let moved = last_to_front_found nid l (Nodup-cons.0 d).1 in
      elim (Bool-cases (gone == nid)) [
        | inl k ↦
            let same : x.id ≡ nid = ground arith in
            let none_left : find nid l ≡ none = rw same at absent in rw (k, moved) none_left
        | inr k ↦
            let e' : (x.id == nid) ≡ false = ground arith in
            rw (k, moved, find-cons nid x l, e') refl
      ]

  -- What a buffer with distinct ids finds once the notification with the id `gone` is taken out.
  pub removed_found :
      (gone : ℕ) (l : List (NotificationEvent Hints)) (ne : NotificationEvent Hints)
      → Nodup (ids l)
      → find gone l ≡ some ne
      → (i : ℕ) × (rest : List (NotificationEvent Hints)) × (position gone l ≡ some i)
        × (swap_remove_back l i ≡ some (ne, rest))
        × ((nid : ℕ) → find nid rest ≡ erase gone (λ id. find id l) nid)
  unfolding position
  removed_found gone [] ne d h =
      let p : find gone [] ≡ none = not-mem_find-none gone [] not-mem-nil in cc
  removed_found gone (x ∷ l) ne d h = elim (Bool-cases (x.id == gone)) [
    | inl e ↦
        let first : some x ≡ some ne = rw (find-cons gone x l, e) at h in
        (0, last_to_front l, rw e, cc first, λ nid. first_found nid gone x l d e)
    | inr e ↦
        let (i, rest, p, q, f) =
          removed_found gone l ne (Nodup-cons.0 d).1 (rw (find-cons gone x l, e) at h) in
        let other : x.id ≢ gone = ground arith in
        (suc i, x ∷ rest, rw (e, p), rw q, λ nid. rest_found nid gone x rest l other (f nid))
  ]
