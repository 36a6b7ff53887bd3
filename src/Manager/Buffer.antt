-- ===== src/Manager/Buffer.antt =====
-- The list operations behind the buffer: what they keep, and how they meet the searches by id.
use mathlib.Core.List.{Perm, Permᴰ, Sublist, nil-sublist}
use mathlib.Core.List.Perm
use mathlib.Core.List.Sublist
use mathlib.Core.Logic.{∥∥₁_elim}
use native.Mathlib.Nat.{ℕ_set}
use notifs_piper.Common.{
  ℕ, zero, suc, ◌-◌, ◌≡◌, refl, ap, ◌∙◌, none, some, List, [], ◌∷◌, map, length, get_elem?,
  modify_nth, last_of, pop_back, last_to_front, swap_remove_back, arith, ◌==◌, inl, inr, Bool-cases,
}
use notifs_piper.Event.{NotificationEvent}
use notifs_piper.Manager.{position, find, modify_found}

module _ {ℓ} {A : Type ℓ} where
  pub length-pop_back : (xs : List A) → length (pop_back xs) ≡ length xs - 1
  length-pop_back [] = refl
  length-pop_back (x ∷ []) = refl
  length-pop_back (x ∷ y ∷ ys) = omega (arith, length-pop_back (y ∷ ys))

  last-perm : (y : A) (ys : List A) → Perm (y ∷ ys) (last_of y ys ∷ pop_back (y ∷ ys))
  last-perm y [] = Perm.refl (y ∷ [])
  last-perm y (z ∷ zs) =
      Perm.trans (Perm.cons y (last-perm z zs)) (Perm.swap (last_of z zs) y (pop_back (z ∷ zs)))

  last_to_front-perm : (xs : List A) → Perm xs (last_to_front xs)
  last_to_front-perm [] = Perm.refl []
  last_to_front-perm (y ∷ ys) = last-perm y ys

  -- A removal takes out the element at the index, and may reorder the others.
  pub swap_remove_back-perm :
      (xs : List A) (i : ℕ) (x : A)
      → get_elem? xs i ≡ some x
      → (r : List A) × (swap_remove_back xs i ≡ some (x, r)) × Perm xs (x ∷ r)
  swap_remove_back-perm [] i x h = cc
  swap_remove_back-perm (y ∷ xs) zero x h =
      let e : y ≡ x = cc in (last_to_front xs, rw e, rw e (Perm.cons x (last_to_front-perm xs)))
  swap_remove_back-perm (y ∷ xs) (suc i) x h =
      let (r, e, p) = swap_remove_back-perm xs i x h in
      (y ∷ r, rw e, Perm.trans (Perm.cons y p) (Perm.swap x y r))

  pub pop_back-sublist : (xs : List A) → Sublist (pop_back xs) xs
  pop_back-sublist [] = nil-sublist []
  pop_back-sublist (x ∷ []) = nil-sublist (x ∷ [])
  pop_back-sublist (x ∷ y ∷ ys) = Sublist.cons-cons x (pop_back-sublist (y ∷ ys))

  pub length-modify_nth : (f : A → A) (i : ℕ) (xs : List A) → length (modify_nth f i xs) ≡ length xs
  length-modify_nth f i [] = refl
  length-modify_nth f zero (x ∷ xs) = refl
  length-modify_nth f (suc i) (x ∷ xs) = ap suc (length-modify_nth f i xs)

module _ {Hints : Type 0} (nid : ℕ) where
  -- Where the search by id finds a notification, its position leads to it.
  pub position-found :
      (l : List (NotificationEvent Hints)) (ne : NotificationEvent Hints)
      → find nid l ≡ some ne
      → (i : ℕ) × (position nid l ≡ some i)
        × (get_elem? l i ≡ some ne)
        × ((f : NotificationEvent Hints → NotificationEvent Hints)
            → modify_nth f i l ≡ modify_found f nid l)
  unfolding find position modify_found
  position-found [] ne h = cc
  position-found (x ∷ l) ne h = elim (Bool-cases (x.id == nid)) [
    | inl e ↦ (0, rw e, ground arith, λ f. rw e)
    | inr e ↦
        let (i, p, g, m) = position-found l ne (ground arith) in
        (suc i, rw (e, p), g, λ f. rw e (ap (◌∷◌ x) (m f)))
  ]

  pub position-none :
      (l : List (NotificationEvent Hints)) → find nid l ≡ none → position nid l ≡ none
  unfolding find position
  position-none [] h = refl
  position-none (x ∷ l) h = ground (arith, position-none l)

  -- What a search finds has the id.
  pub find-id :
      (l : List (NotificationEvent Hints)) (ne : NotificationEvent Hints)
      → find nid l ≡ some ne
      → ne.id ≡ nid
  unfolding find
  find-id [] ne h = cc
  find-id (x ∷ l) ne h = ground (arith, find-id l ne)

  -- A change that keeps the id is found where the old value was.
  pub find-modify_found :
      (f : NotificationEvent Hints → NotificationEvent Hints)
      → ((e : NotificationEvent Hints) → (f e).id ≡ e.id)
      → (l : List (NotificationEvent Hints)) (ne : NotificationEvent Hints) → find nid l ≡ some ne
      → find nid (modify_found f nid l) ≡ some (f ne)
  unfolding find modify_found
  find-modify_found f keeps [] ne h = cc
  find-modify_found f keeps (x ∷ l) ne h = ground (arith, keeps x, find-modify_found f keeps l ne)

  pub length-modify_found :
      (f : NotificationEvent Hints → NotificationEvent Hints) (l : List (NotificationEvent Hints))
      → length (modify_found f nid l) ≡ length l
  unfolding modify_found
  length-modify_found f [] = refl
  length-modify_found f (x ∷ l) = ground (arith, length-modify_found f l)

  pub ids-modify_found :
      (f : NotificationEvent Hints → NotificationEvent Hints)
      → ((e : NotificationEvent Hints) → (f e).id ≡ e.id)
      → (l : List (NotificationEvent Hints))
      → map (λ e. e.id) (modify_found f nid l) ≡ map (λ e. e.id) l
  unfolding modify_found
  ids-modify_found f keeps [] = refl
  ids-modify_found f keeps (x ∷ l) = ground (arith, keeps x, ids-modify_found f keeps l)

length-permᴰ : {A : Type 0} {l m : List A} → Permᴰ l m → length l ≡ length m
length-permᴰ Permᴰ.nil = refl
length-permᴰ (Permᴰ.cons x p) = ap suc (length-permᴰ p)
length-permᴰ (Permᴰ.swap x y) = refl
length-permᴰ (Permᴰ.trans p q) = length-permᴰ p ∙ length-permᴰ q

-- A permutation keeps the length.
pub length-perm : {A : Type 0} (l m : List A) → Perm l m → length l ≡ length m
length-perm l m p = ∥∥₁_elim p (ℕ_set _ _) (λ q. length-permᴰ q)
