-- ===== src/Socket/Writing.antt =====
-- What `Listener::write` puts on the stream, whatever the system takes at each turn.
use notifs_piper.Common.{
  ℕ, suc, ◌≤◌, ◌<◌, ◌≡◌, ◌⊎◌, inl, inr, refl, ap, ◌∙◌, sym, false, some, List, [], ◌∷◌, ◌++◌,
  length, take, drop, take-append-drop, length-drop, append_assoc, ok, arith, ltb, Bool-cases,
}
use notifs_piper.Text.{Text}
use notifs_piper.Socket.{WriteEvent, took, would_block, broken, write_loop}

-- What went through is the beginning of the text.
abbrev pub IsPrefix : Text → Text → Type 0
IsPrefix b t = (rest : Text) × (t ≡ b ++ rest)

-- Each turn that takes bytes takes some, as long as there are any, and never more than there are.
abbrev pub Progress : Text → List WriteEvent → Type 0
Progress buf [] = Unit {0}
Progress buf (would_block ∷ es) = Progress buf es
Progress buf (broken e ∷ es) = ⊥
Progress buf (took n ∷ es) = (n ≤ length buf) × ((buf ≡ []) ⊎ (0 < n)) × Progress (drop n buf) es

-- How many turns found the stream ready.
abbrev pub turns : List WriteEvent → ℕ
turns [] = 0
turns (would_block ∷ es) = turns es
turns (broken e ∷ es) = turns es
turns (took n ∷ es) = suc (turns es)

-- Whatever the system takes, and when, what is sent is a beginning of the text.
pub write_loop-IsPrefix :
    (buf : Text) (es : List WriteEvent) → IsPrefix (write_loop buf es).bytes buf
unfolding write_loop
write_loop-IsPrefix buf [] = (buf, refl)
write_loop-IsPrefix buf (would_block ∷ es) = write_loop-IsPrefix buf es
write_loop-IsPrefix buf (broken e ∷ es) = (buf, refl)
write_loop-IsPrefix [] (took n ∷ es) = ([], refl)
write_loop-IsPrefix (c ∷ buf) (took n ∷ es) = elim (Bool-cases (ltb (length (c ∷ buf)) n)) [
  | inl over ↦ (c ∷ buf, rw over)
  | inr fits ↦
      let (rest, e) = write_loop-IsPrefix (drop n (c ∷ buf)) es in
      (
        rest,
        rw fits (
            sym (take-append-drop n (c ∷ buf))
            ∙ ap (λ t. take n (c ∷ buf) ++ t) e
            ∙ sym (append_assoc (take n (c ∷ buf)) (write_loop (drop n (c ∷ buf)) es).bytes rest)),
      )
]

-- If `write` returns `Ok`, the whole text was sent.
pub write_loop-ok :
    (buf : Text) (es : List WriteEvent)
    → (write_loop buf es).result ≡ some (ok tt)
    → (write_loop buf es).bytes ≡ buf
unfolding write_loop
write_loop-ok buf [] h = cc
write_loop-ok buf (would_block ∷ es) h = write_loop-ok buf es h
write_loop-ok buf (broken e ∷ es) h = cc
write_loop-ok [] (took n ∷ es) h = refl
write_loop-ok (c ∷ buf) (took n ∷ es) h = elim (Bool-cases (ltb (length (c ∷ buf)) n)) [
  | inl over ↦ let q = rw over at h in cc
  | inr fits ↦
      let ih = write_loop-ok (drop n (c ∷ buf)) es (rw fits at h) in
      rw (fits, ih) (take-append-drop n (c ∷ buf))
]

-- With progress at every turn, one turn for each byte and one more are enough for `write` to
-- return.
pub write_loop_ends :
    (buf : Text) (es : List WriteEvent)
    → Progress buf es
    → length buf < turns es
    → (write_loop buf es).result ≡ some (ok tt)
unfolding write_loop
write_loop_ends buf [] p h = absurd (omega arith)
write_loop_ends buf (would_block ∷ es) p h = write_loop_ends buf es p h
write_loop_ends buf (broken e ∷ es) p h = absurd p
write_loop_ends [] (took n ∷ es) p h = refl
write_loop_ends (c ∷ buf) (took n ∷ es) (le, some_bytes, p) h =
    let fits : ltb (length (c ∷ buf)) n ≡ false = ground arith in
    let left : length (drop n (c ∷ buf)) < turns es = elim some_bytes [
      | inl e ↦ cc
      | inr pos ↦ omega (arith, length-drop n (c ∷ buf))
    ] in
    rw fits (write_loop_ends (drop n (c ∷ buf)) es p left)
