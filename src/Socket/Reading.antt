-- ===== src/Socket/Reading.antt =====
-- How `Listener::read` finds the end of a message: by the first chunk that is not full.
use notifs_piper.Common.{
  ◌<◌, ◌≡◌, refl, ap, ◌∙◌, sym, true, false, Option, none, some, List, [], ◌∷◌, ◌++◌, map, All,
  length, append_assoc, append-nil, ok, err, arith, ltb,
}
use notifs_piper.Text.{Text}
use notifs_piper.Transmission.{Transmission, transmission_to_string}
use notifs_piper.Transmission.RoundTrip.{PidInRange, transmission_from_str-to_string}
use notifs_piper.Socket.{
  buf_size, ReadEvent, got, would_block, broken, read_loop, read, on_chunk, WriteEvent, write,
}
use notifs_piper.Socket.Writing.{write_loop-ok}

-- What came without the turns that found nothing to read.
abbrev pub arrived : List ReadEvent → List ReadEvent
arrived [] = []
arrived (would_block ∷ es) = arrived es
arrived (got b ∷ es) = got b ∷ arrived es
arrived (broken e ∷ es) = broken e ∷ arrived es

abbrev pub concat : List Text → Text
concat [] = []
concat (b ∷ bs) = b ++ concat bs

abbrev pub AllFull : List Text → Type 0
AllFull = All (λ b. length b ≡ buf_size)

module _ (utf8_error : Text → Option Text) where
  abbrev pub AllValid : List Text → Type 0
  AllValid = All (λ b. utf8_error b ≡ none)

  read_loop-arrived :
      (tdata : Text) (es : List ReadEvent)
      → read_loop utf8_error tdata es ≡ read_loop utf8_error tdata (arrived es)
  unfolding read_loop
  read_loop-arrived tdata [] = refl
  read_loop-arrived tdata (would_block ∷ es) = read_loop-arrived tdata es
  read_loop-arrived tdata (broken e ∷ es) = refl
  read_loop-arrived tdata (got b ∷ es) =
      ap (on_chunk (utf8_error b) (tdata ++ b) (ltb (length b) buf_size))
        (read_loop-arrived (tdata ++ b) es)

  read_loop-nil : (tdata : Text) → read_loop utf8_error tdata [] ≡ none
  unfolding read_loop
  read_loop-nil tdata = refl

  read_loop-got :
      (tdata b : Text) (es : List ReadEvent)
      → read_loop utf8_error tdata (got b ∷ es)
        ≡ on_chunk
            (utf8_error b)
            (tdata ++ b)
            (ltb (length b) buf_size)
            (read_loop utf8_error (tdata ++ b) es)
  unfolding read_loop
  read_loop-got tdata b es = refl

  -- Full chunks are gathered, and the loop goes on.
  read_loop-full :
      (bs : List Text) (tdata : Text) (es : List ReadEvent)
      → AllFull bs
      → AllValid bs
      → read_loop utf8_error tdata (map got bs ++ es) ≡ read_loop utf8_error (tdata ++ concat bs) es
  read_loop-full [] tdata es f v = rw (append-nil tdata)
  read_loop-full (b ∷ bs) tdata es (f, fs) (v, vs) =
      let on : ltb (length b) buf_size ≡ false = ground arith in
      rw (read_loop-got tdata b (map got bs ++ es), v, on)
        (read_loop-full bs (tdata ++ b) es fs vs
          ∙ ap (λ t. read_loop utf8_error t es) (append_assoc tdata b (concat bs)))

  valid_parts :
      (bs : List Text) (rest : Text)
      → AllValid (bs ++ rest ∷ [])
      → AllValid bs × (utf8_error rest ≡ none)
  valid_parts [] rest (v, _) = (tt, v)
  valid_parts (b ∷ bs) rest (v, vs) = let (w, last) = valid_parts bs rest vs in ((v, w), last)

  -- The loop ends at the first chunk that is not full, and returns all that came before it too,
  -- whatever comes behind it.
  pub read_loop-concat :
      (bs : List Text) (rest : Text) (es later : List ReadEvent)
      → AllFull bs
      → length rest < buf_size
      → AllValid (bs ++ rest ∷ [])
      → arrived es ≡ map got bs ++ got rest ∷ later
      → read_loop utf8_error [] es ≡ some (ok (concat bs ++ rest))
  read_loop-concat bs rest es later f short v e =
      let (valid, last) = valid_parts bs rest v in
      let ends : ltb (length rest) buf_size ≡ true = ground arith in
      rw (
        read_loop-arrived [] es,
        e,
        read_loop-full bs [] (got rest ∷ later) f valid,
        read_loop-got (concat bs) rest later,
        last,
        ends,
      )

  -- After chunks that all fill the buffer and are each a text by itself, `read` is not finished,
  -- though the message may be: it waits for more.
  pub read_waits :
      (bs : List Text) (es : List ReadEvent)
      → AllFull bs
      → AllValid bs
      → arrived es ≡ map got bs
      → read utf8_error es ≡ none
  unfolding read
  read_waits bs es f v e = rw (
    read_loop-arrived [] es,
    e,
    ← append-nil (map got bs),
    read_loop-full bs [] [] f v,
    read_loop-nil (concat bs),
  )

  -- Behind chunks that fill the buffer and are texts, a chunk that is no text by itself ends `read`
  -- with the error of that chunk, whatever comes behind it.
  pub read_bad_chunk :
      (bs : List Text) (b x : Text) (es later : List ReadEvent)
      → AllFull bs
      → AllValid bs
      → utf8_error b ≡ some x
      → arrived es ≡ map got bs ++ got b ∷ later
      → read utf8_error es ≡ some (err x)
  unfolding read
  read_bad_chunk bs b x es later f v bad e = rw (
    read_loop-arrived [] es,
    e,
    read_loop-full bs [] (got b ∷ later) f v,
    read_loop-got (concat bs) b later,
    bad,
  )

  -- A transmission whose pid fits, and that was written with the result `Ok`, is what the other end
  -- reads, if the bytes come in chunks of which all but the last fill the buffer and each is a text
  -- by itself. Turns that find nothing to write or to read change nothing.
  pub read-write :
      (tr : Transmission) (ws : List WriteEvent) (bs : List Text) (rest : Text)
      (es later : List ReadEvent)
      → PidInRange tr.typ
      → (write tr ws).result ≡ some (ok tt)
      → (write tr ws).bytes ≡ concat bs ++ rest
      → AllFull bs
      → length rest < buf_size
      → AllValid (bs ++ rest ∷ [])
      → arrived es ≡ map got bs ++ got rest ∷ later
      → read utf8_error es ≡ some (ok tr)
  unfolding read write
  read-write tr ws bs rest es later fits done text f short v e =
      let sent = sym text ∙ write_loop-ok (transmission_to_string tr) ws done in
      rw (
        read_loop-concat bs rest es later f short v e,
        sent,
        transmission_from_str-to_string tr fits,
      )
