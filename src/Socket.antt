-- ===== src/Socket.antt =====
-- `Listener::read` and `Listener::write` of server/listener.rs: the loops over one stream. What the
-- system answers to each call of `try_read` or `try_write` is a list; where it ends, the loop waits
-- for the stream. The test of `str::from_utf8` is a parameter, as the error that it reports.
pub mod Reading
pub mod Characters
pub mod Writing
use notifs_piper.Common.{
  ℕ, Bool, Option, none, some, List, [], ◌∷◌, ◌++◌, length, take, drop, Outcome, ok, err, panic,
  ltb, if◌then◌else◌,
}
use notifs_piper.Text.{Text, is_empty}
use notifs_piper.Payload.{Parsed}
use notifs_piper.Transmission.{Transmission, transmission_from_str, transmission_to_string}

abbrev pub buf_size : ℕ
buf_size = 4096

-- One turn of the loop of `read`: bytes, `WouldBlock`, or another error of the stream.
pub data ReadEvent : Type 0 where
  got : Text → ReadEvent
  would_block : ReadEvent
  broken : Text → ReadEvent

abbrev parsed_frame : Parsed Transmission → Outcome Text Transmission
parsed_frame (ok tr) = ok tr
parsed_frame (err e) = err e.data_text
parsed_frame panic = panic

abbrev pub parsed_data : Outcome Text Text → Outcome Text Transmission
parsed_data (ok tdata) = parsed_frame (transmission_from_str tdata)
parsed_data (err e) = err e
parsed_data panic = panic

abbrev pub finished : Option (Outcome Text Text) → Option (Outcome Text Transmission)
finished none = none
finished (some r) = some (parsed_data r)

-- A chunk behind which `tdata` was read: the test of its bytes, and whether it fills the buffer.
abbrev pub on_chunk :
    Option Text → Text → Bool → Option (Outcome Text Text) → Option (Outcome Text Text)
on_chunk (some e) tdata short rest = some (err e)
on_chunk none tdata short rest = if short then some (ok tdata) else rest

module _ (utf8_error : Text → Option Text) where
  -- The loop, with what it has read before; `none` while it waits.
  unfoldable pub read_loop : Text → List ReadEvent → Option (Outcome Text Text)
  read_loop tdata [] = none
  read_loop tdata (would_block ∷ es) = read_loop tdata es
  read_loop tdata (broken e ∷ es) = some (err e)
  read_loop tdata (got b ∷ es) =
      on_chunk (utf8_error b) (tdata ++ b) (ltb (length b) buf_size) (read_loop (tdata ++ b) es)

  unfoldable pub read : List ReadEvent → Option (Outcome Text Transmission)
  read es = finished (read_loop [] es)

-- One turn of the loop of `write`: how many bytes were taken, or as above.
pub data WriteEvent : Type 0 where
  took : ℕ → WriteEvent
  would_block : WriteEvent
  broken : Text → WriteEvent

-- The bytes that went through, and the result, if the loop has ended.
pub record Sending : Type 0 where
  pub bytes : Text
  pub result : Option (Outcome Text (Unit {0}))

abbrev pub ended : Outcome Text (Unit {0}) → Sending
ended r = record { bytes = []; result = some r }

abbrev pub after : Text → Sending → Sending
after b s = record s { bytes = b ++ s.bytes }

-- The loop ends when a write of the empty rest succeeds; `&buf[n..]` panics beyond the end.
unfoldable pub write_loop : Text → List WriteEvent → Sending
write_loop buf [] = record { bytes = []; result = none }
write_loop buf (would_block ∷ es) = write_loop buf es
write_loop buf (broken e ∷ es) = ended (err e)
write_loop buf (took n ∷ es) =
    let rest = after (take n buf) (write_loop (drop n buf) es) in
    if is_empty buf then ended (ok tt) else if ltb (length buf) n then ended panic else rest

unfoldable pub write : Transmission → List WriteEvent → Sending
write tr es = write_loop (transmission_to_string tr) es
