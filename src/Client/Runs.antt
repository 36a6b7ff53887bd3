-- ===== src/Client/Runs.antt =====
-- What the commands that wait for an answer print.
use notifs_piper.Common.{◌≡◌, refl, ap, Option, some, List, [], ◌∷◌, ◌++◌, map, Outcome, ok, err}
use notifs_piper.Text.{Text}
use notifs_piper.Transmission.{Transmission}
use notifs_piper.Socket
use notifs_piper.Socket.{ReadEvent}
use notifs_piper.Client.{print_line, interrupted, print_all}

module _ (utf8_error : Text → Option Text) where
  -- What each call of `read` gives.
  abbrev pub given : List (List ReadEvent) → List (Option (Outcome Text Transmission))
  given = map (Socket.read utf8_error)

  -- If the calls of `read` give some transmissions and then an error, `watch` prints the data of
  -- each transmission, in their order, and ends with the error of an interrupted connection; what
  -- comes behind is not read.
  pub print_all-interrupted :
      (sent e : Text) (trs : List Transmission) (reads : List (List ReadEvent))
      (later : List (Option (Outcome Text Transmission)))
      → given reads ≡ map (λ tr. some (ok tr)) trs ++ some (err e) ∷ later
      → print_all utf8_error sent reads ≡ record {
        sent = sent;
        printed = map (λ tr. tr.data_text) trs;
        result = some (err interrupted);
      }
  unfolding print_all
  print_all-interrupted sent e [] [] later h = cc
  print_all-interrupted sent e (tr ∷ trs) [] later h = cc
  print_all-interrupted sent e [] (es ∷ reads) later h =
      let first : Socket.read utf8_error es ≡ some (err e) = cc in rw first refl
  print_all-interrupted sent e (tr ∷ trs) (es ∷ reads) later h =
      let first : Socket.read utf8_error es ≡ some (ok tr) = cc in
      let rest : given reads ≡ map (λ x. some (ok x)) trs ++ some (err e) ∷ later = cc in
      rw first (ap (print_line tr.data_text) (print_all-interrupted sent e trs reads later rest))
