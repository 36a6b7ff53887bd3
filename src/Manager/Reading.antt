-- ===== src/Manager/Reading.antt =====
-- `read_logs` and `read_notification`: which notifications are returned, which are marked.
use notifs_piper.Common.{
  ℕ, zero, suc, ◌-◌, ◌≤◌, ◌<◌, ◌≡◌, ◌↔◌, ◌⊎◌, refl, sym, ap, Bool, true, false, not, ◌&&◌, ◌||◌,
  List, [], ◌∷◌, ◌++◌, map, take, drop, length, min, ok, panic, arith, inl, inr, Bool-cases, ==_iff,
  ltb, ltb→lt, ◌==◌, if◌then◌else◌,
}
use native.Mathlib.Nat.{min-zero, suc-min-suc, sub-zero, zero-sub, suc-sub-suc}
use notifs_piper.Event.{NotificationEvent, set_read}
use notifs_piper.Manager.{LogsManager, read_logs}

module _ {ℓ} {A : Type ℓ} where
  take-nil : (n : ℕ) → take {A = A} n [] ≡ []
  take-nil zero = refl
  take-nil (suc n) = refl

  drop-nil : (n : ℕ) → drop {A = A} n [] ≡ []
  drop-nil zero = refl
  drop-nil (suc n) = refl

  take-min : (n : ℕ) (l : List A) → take (min (length l) n) l ≡ take n l
  take-min zero l = rw min-zero
  take-min (suc n) [] = take-nil (min 0 (suc n))
  take-min (suc n) (x ∷ l) = rw suc-min-suc (ap (◌∷◌ x) (take-min n l))

  drop-min : (n : ℕ) (l : List A) → drop (min (length l) n) l ≡ drop n l
  drop-min zero l = rw min-zero
  drop-min (suc n) [] = drop-nil (min 0 (suc n))
  drop-min (suc n) (x ∷ l) = rw suc-min-suc (drop-min n l)

  -- The bounds of a window cut to the list select the same elements as the bounds themselves.
  take-window :
      (s e : ℕ) (l : List A)
      → take (min (length l) e - min (length l) s) (drop s l) ≡ take (e - s) (drop s l)
  take-window s e [] = rw (drop-nil s, take-nil, take-nil)
  take-window zero e (x ∷ l) = rw (min-zero, sub-zero, sub-zero) (take-min e (x ∷ l))
  take-window (suc s) zero (x ∷ l) = rw (min-zero, zero-sub, zero-sub)
  take-window (suc s) (suc e) (x ∷ l) =
      rw (suc-min-suc, suc-min-suc, suc-sub-suc, suc-sub-suc) (take-window s e l)

  -- The elements from `s` up to `e` are changed, and no others.
  abbrev pub map_window : (A → A) → ℕ → ℕ → List A → List A
  map_window f s e [] = []
  map_window f s zero (x ∷ l) = x ∷ l
  map_window f zero (suc e) (x ∷ l) = f x ∷ map_window f zero e l
  map_window f (suc s) (suc e) (x ∷ l) = x ∷ map_window f s e l

  map_window-parts :
      (f : A → A) (s e : ℕ) (l : List A)
      → s ≤ e
      → take s l ++ (map f (take (e - s) (drop s l)) ++ drop e l) ≡ map_window f s e l
  map_window-parts f s e [] h = rw (take-nil s, drop-nil s, take-nil (e - s), drop-nil e)
  map_window-parts f zero zero (x ∷ l) h = refl
  map_window-parts f zero (suc e) (x ∷ l) h =
      rw (sub-zero (suc e))
        (ap (◌∷◌ (f x)) (rw (sub-zero e) at (map_window-parts f zero e l (omega arith))))
  map_window-parts f (suc s) zero (x ∷ l) h = absurd (omega arith)
  map_window-parts f (suc s) (suc e) (x ∷ l) h =
      rw suc-sub-suc (ap (◌∷◌ x) (map_window-parts f s e l (omega arith)))

  window-map_window :
      (f : A → A) (s e : ℕ) (l : List A)
      → s ≤ e
      → map f (take (e - s) (drop s l)) ≡ take (e - s) (drop s (map_window f s e l))
  window-map_window f s e [] h = rw (drop-nil s, take-nil)
  window-map_window f zero zero (x ∷ l) h = refl
  window-map_window f zero (suc e) (x ∷ l) h =
      rw (sub-zero (suc e))
        (ap (◌∷◌ (f x)) (rw (sub-zero e) at (window-map_window f zero e l (omega arith))))
  window-map_window f (suc s) zero (x ∷ l) h = absurd (omega arith)
  window-map_window f (suc s) (suc e) (x ∷ l) h =
      rw (suc-sub-suc) (window-map_window f s e l (omega arith))

  map_window_empty :
      (f : A → A) (s e : ℕ) (l : List A)
      → s ≤ e
      → length (take (e - s) (drop s l)) ≡ 0
      → map_window f s e l ≡ l
  map_window_empty f s e [] h k = refl
  map_window_empty f zero zero (x ∷ l) h k = refl
  map_window_empty f zero (suc e) (x ∷ l) h k =
      let k' : length (take (suc e) (x ∷ l)) ≡ 0 = rw (sub-zero (suc e)) at k in
      absurd (omega arith)
  map_window_empty f (suc s) zero (x ∷ l) h k = absurd (omega arith)
  map_window_empty f (suc s) (suc e) (x ∷ l) h k =
      ap (◌∷◌ x) (map_window_empty f s e l (omega arith) (rw suc-sub-suc at k))

-- A reading panics exactly when its end comes before its start and before the end of the buffer.
pub read_logs_panic_iff :
    {Hints : Type 0} (man : LogsManager Hints) (start end : ℕ) (update_read : Bool)
    → (read_logs man start end update_read ≡ panic)
      ↔ ((end < start) × (end < length man.logs_buffer))
unfolding read_logs
read_logs_panic_iff man start end update_read = (λ h. ground arith, λ h. ground arith)

module _ {Hints : Type 0} (man : LogsManager Hints) (start end : ℕ) where
  abbrev window : List (NotificationEvent Hints)
  window = take (end - start) (drop start man.logs_buffer)

  abbrev pub marked : LogsManager Hints
  marked = record man { logs_buffer = map_window set_read start end man.logs_buffer; dirty = true }

  read_logs_cut :
      (update_read : Bool)
      → start ≤ end
      → read_logs man start end update_read ≡ (
          if update_read && not (length window == 0)
          then ok (marked, map set_read window)
          else ok (man, window))
  unfolding read_logs
  read_logs_cut update_read h =
      let in_order : ltb (min (length man.logs_buffer) end) (min (length man.logs_buffer) start)
          ≡ false =
        ground arith in
      rw (
        in_order,
        drop-min start man.logs_buffer,
        take-window start end man.logs_buffer,
        take-min start man.logs_buffer,
        drop-min end man.logs_buffer,
        map_window-parts set_read start end man.logs_buffer h,
      )

  -- With its start not behind its end a reading does not panic. It returns the notifications from
  -- `start` up to `end` as they are afterwards: all of these, and no others, are marked read if
  -- that is asked for. The manager is marked for writing if it was or if the reading has marked
  -- some.
  pub read_logs_lem :
      (update_read : Bool)
      → start ≤ end
      → (man' : LogsManager Hints) × (read_logs man start end update_read
          ≡ ok (man', take (end - start) (drop start man'.logs_buffer)))
        × (man'.logs_buffer ≡ (
            if update_read then map_window set_read start end man.logs_buffer else man.logs_buffer))
        × (man'.dirty ≡ (man.dirty || (update_read && not (length window == 0))))
  read_logs_lem false h = (man, read_logs_cut false h, refl, ground arith)
  read_logs_lem true h = elim (Bool-cases (length window == 0)) [
    | inl e ↦ (
      man,
      rw (read_logs_cut true h, e),
      sym (map_window_empty set_read start end man.logs_buffer h ((==_iff _ 0).0 e)),
      ground arith,
    )
    | inr e ↦ (
      marked,
      rw (read_logs_cut true h, e, window-map_window set_read start end man.logs_buffer h),
      refl,
      ground arith,
    )
  ]

  -- A window that lies beyond the buffer is empty, also where its start is behind its end.
  pub read_logs_beyond :
      (update_read : Bool)
      → end < start
      → length man.logs_buffer ≤ end
      → read_logs man start end update_read ≡ ok (man, [])
  unfolding read_logs
  read_logs_beyond update_read h k =
      let same : min (length man.logs_buffer) start ≡ length man.logs_buffer = omega arith in
      let same' : min (length man.logs_buffer) end ≡ length man.logs_buffer = omega arith in
      let none_left : length man.logs_buffer - length man.logs_buffer ≡ 0 = omega arith in
      rw (same, same', none_left) (ground arith)

  -- A reading leaves the manager as it was, or marks the window.
  pub read_logs_cases :
      (update_read : Bool) (r : LogsManager Hints × List (NotificationEvent Hints))
      → read_logs man start end update_read ≡ ok r
      → (r.0 ≡ man) ⊎ (r.0 ≡ marked)
  read_logs_cases update_read r h = elim (Bool-cases (ltb end start)) [
    | inl back ↦ elim (Bool-cases (ltb end (length man.logs_buffer))) [
      | inl inside ↦
          let p =
            (read_logs_panic_iff man start end update_read).1
              (ltb→lt _ _ back, ltb→lt _ _ inside) in
          cc
      | inr beyond ↦
          inl (let p = read_logs_beyond update_read (ltb→lt _ _ back) (ground arith) in cc)
    ]
    | inr forth ↦
        let p = read_logs_cut update_read (ground arith) in
        elim (Bool-cases (update_read && not (length window == 0))) [
          | inl e ↦ inr (let q = rw e at p in cc)
          | inr e ↦ inl (let q = rw e at p in cc)
        ]
  ]
