-- ===== src/Socket/Characters.antt =====
-- A message whose chunks cut a character in two.
use notifs_piper.Common.{
  ℕ, ◌+◌, ◌≤◌, ◌<◌, ◌≡◌, Option, none, some, List, [], ◌∷◌, ◌++◌, All, length, err,
}
use notifs_piper.Text.{Text}
use notifs_piper.Socket.{buf_size, ReadEvent, got, read}
use notifs_piper.Socket.Reading.{arrived, read_bad_chunk}

abbrev pub IsAscii : ℕ → Type 0
IsAscii c = c < 128

-- The two bytes of a character between U+0080 and U+07FF.
abbrev pub IsLead : ℕ → Type 0
IsLead c = (194 ≤ c) × (c ≤ 223)

abbrev pub IsContinuation : ℕ → Type 0
IsContinuation c = (128 ≤ c) × (c ≤ 191)

-- What `str::from_utf8` says of ASCII with one character of two bytes in it, and of ASCII that ends
-- within such a character.
pub record IsUtf8 (utf8_error : Text → Option Text) : Type 0 where
  pub whole :
      (a r : Text) (lead next : ℕ)
      → All IsAscii a
      → All IsAscii r
      → IsLead lead
      → IsContinuation next
      → utf8_error (a ++ lead ∷ next ∷ r) ≡ none
  pub cut :
      (a : Text) (lead : ℕ)
      → All IsAscii a
      → IsLead lead
      → (x : Text) × (utf8_error (a ++ lead ∷ []) ≡ some x)

module _ {utf8_error : Text → Option Text} (utf8 : IsUtf8 utf8_error) where
  -- Let a message be ASCII but for one character of two bytes, the first of which is the last one that
  -- fills the buffer, and let its bytes arrive as the chunk that fills the buffer and the rest. Where
  -- `str::from_utf8` takes such texts, and refuses one that ends within the character, the message as
  -- a whole is valid, and `read` ends with an error, whatever comes behind it.
  pub read_split :
      (a r : Text) (lead next : ℕ) (es later : List ReadEvent)
      → All IsAscii a
      → All IsAscii r
      → IsLead lead
      → IsContinuation next
      → length a + 1 ≡ buf_size
      → arrived es ≡ got (a ++ lead ∷ []) ∷ got (next ∷ r) ∷ later
      → (utf8_error (a ++ lead ∷ next ∷ r) ≡ none)
        × ((x : Text) × (read utf8_error es ≡ some (err x)))
  read_split a r lead next es later ascii ascii' is_lead is_next full e =
      let (x, bad) = utf8.cut a lead ascii is_lead in
      (
        utf8.whole a r lead next ascii ascii' is_lead is_next,
        (
          x,
          read_bad_chunk utf8_error [] (a ++ lead ∷ []) x es (got (next ∷ r) ∷ later) tt tt bad e,
        ),
      )
