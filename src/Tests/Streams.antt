-- ===== src/Tests/Streams.antt =====
-- The theorems of the loops over a stream, with a test of ASCII in the place of `str::from_utf8`.
use notifs_piper.Common.{
  ◌+◌, ◌++◌, ◌∙◌, Bool, true, false, not, ◌&&◌, All, ℕ, zero, suc, ◌≡◌, refl, ap, Option, none,
  some, List, [], ◌∷◌, length, ok, err, arith, ltb, if◌then◌else◌,
}
use notifs_piper.Text.{Text, codes}
use notifs_piper.Text.Decimal.{to_string}
use notifs_piper.Transmission.{Transmission, outgoing, transmission_to_string, type_to_string}
use notifs_piper.Socket.{buf_size, ReadEvent, got, WriteEvent, took, read, write, write_loop}
use notifs_piper.Socket.Reading.{read_waits, read-write}
use notifs_piper.Socket.Characters.{IsAscii, IsLead, IsContinuation, IsUtf8, read_split}
use notifs_piper.Socket.Writing.{write_loop_ends}

abbrev pub ascii_error : Text → Option Text
ascii_error [] = none
ascii_error (c ∷ t) = if ltb c 128 then ascii_error t else some (codes "invalid utf-8")

abbrev letters : ℕ → Text
letters zero = []
letters (suc n) = 97 ∷ letters n

length-letters : (n : ℕ) → length (letters n) ≡ n
length-letters zero = refl
length-letters (suc n) = ap suc (length-letters n)

ascii-letters : (n : ℕ) → ascii_error (letters n) ≡ none
ascii-letters zero = refl
ascii-letters (suc n) = ascii-letters n

-- A chunk that fills the buffer.
abbrev chunk : Text
chunk = letters buf_size

-- The client sent 4096 bytes, and the stream is still open.
read_waits_example : read ascii_error (ReadEvent.would_block ∷ got chunk ∷ []) ≡ none
read_waits_example =
    read_waits ascii_error (chunk ∷ []) (ReadEvent.would_block ∷ got chunk ∷ [])
      (length-letters buf_size, tt) (ascii-letters buf_size, tt) refl

abbrev is_between : ℕ → ℕ → ℕ → Bool
is_between low high c = not (ltb c low) && not (ltb high c)

-- Characters of one byte and of two; `within` tells that the first of two was read.
abbrev utf8_from : Bool → Text → Option Text
utf8_from false [] = none
utf8_from true [] = some (codes "incomplete utf-8")
utf8_from false (c ∷ t) =
    if ltb c 128
    then utf8_from false t
    else if is_between 194 223 c
    then utf8_from true t
    else some (codes "invalid utf-8")
utf8_from true (c ∷ t) =
    if is_between 128 191 c then utf8_from false t else some (codes "invalid utf-8")

utf8_from-ascii : (a t : Text) → All IsAscii a → utf8_from false (a ++ t) ≡ utf8_from false t
utf8_from-ascii [] t h = refl
utf8_from-ascii (c ∷ a) t (h, hs) =
    let e : ltb c 128 ≡ true = ground arith in rw e (utf8_from-ascii a t hs)

utf8_from-end : (a : Text) → All IsAscii a → utf8_from false a ≡ none
utf8_from-end [] h = refl
utf8_from-end (c ∷ a) (h, hs) = let e : ltb c 128 ≡ true = ground arith in rw e (utf8_from-end a hs)

utf8_from-lead : (lead : ℕ) (t : Text) → IsLead lead → utf8_from false (lead ∷ t) ≡ utf8_from true t
utf8_from-lead lead t (low, high) =
    let e : ltb lead 128 ≡ false = ground arith in
    let k : is_between 194 223 lead ≡ true = ground arith in rw (e, k) refl

utf8_from-next :
    (next : ℕ) (t : Text) → IsContinuation next → utf8_from true (next ∷ t) ≡ utf8_from false t
utf8_from-next next t (low, high) =
    let k : is_between 128 191 next ≡ true = ground arith in rw k refl

two_bytes-IsUtf8 : IsUtf8 (utf8_from false)
two_bytes-IsUtf8 = record {
  whole = λ a r lead next ha hr hl hn.
      utf8_from-ascii a (lead ∷ next ∷ r) ha
      ∙ utf8_from-lead lead (next ∷ r) hl
      ∙ utf8_from-next next r hn
      ∙ utf8_from-end r hr;
  cut = λ a lead ha hl.
      (codes "incomplete utf-8", utf8_from-ascii a (lead ∷ []) ha ∙ utf8_from-lead lead [] hl);
}

letters-IsAscii : (n : ℕ) → All IsAscii (letters n)
letters-IsAscii zero = tt
letters-IsAscii (suc n) = (omega arith, letters-IsAscii n)

-- 4095 letters and an accented one: 4097 bytes.
read_split_example :
    (utf8_from false (letters 4095 ++ 195 ∷ 169 ∷ []) ≡ none)
    × ((x : Text) × (read (utf8_from false) (got (letters 4095 ++ 195 ∷ []) ∷ got (169 ∷ []) ∷ [])
          ≡ some (err x)))
read_split_example =
    read_split two_bytes-IsUtf8 (letters 4095) [] 195 169
      (got (letters 4095 ++ 195 ∷ []) ∷ got (169 ∷ []) ∷ []) [] (letters-IsAscii 4095) tt
      (omega arith) (omega arith) (ap (λ n. n + 1) (length-letters 4095)) refl

abbrev told : Transmission
told = record { typ = outgoing 42; data_text = codes "res#true" }

abbrev wire : Text
wire = codes "out#42##res#true"

abbrev turns : List WriteEvent
turns = took 5 ∷ WriteEvent.would_block ∷ took 11 ∷ took 0 ∷ []

told_sent : write told turns ≡ record { bytes = wire; result = some (ok tt) }
unfolding write write_loop transmission_to_string type_to_string to_string
told_sent = refl

read-write_example : read ascii_error (ReadEvent.would_block ∷ got wire ∷ []) ≡ some (ok told)
read-write_example =
    read-write ascii_error told turns [] wire (ReadEvent.would_block ∷ got wire ∷ []) []
      (omega arith) (ap (λ s. s.result) told_sent) (ap (λ s. s.bytes) told_sent) tt (omega arith)
      (refl, tt) refl

write_loop_ends_example :
    (write_loop (codes "ab") (took 1 ∷ WriteEvent.would_block ∷ took 1 ∷ took 0 ∷ [])).result
    ≡ some (ok tt)
write_loop_ends_example =
    write_loop_ends (codes "ab") (took 1 ∷ WriteEvent.would_block ∷ took 1 ∷ took 0 ∷ [])
      (ground arith) (omega arith)
