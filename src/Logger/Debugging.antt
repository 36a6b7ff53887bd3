-- ===== src/Logger/Debugging.antt =====
-- Which debugging lines are printed.
use notifs_piper.Common.{
  ◌≡◌, refl, Bool, false, Option, none, some, List, [], ◌∷◌, ◌++◌, if◌then◌else◌,
}
use notifs_piper.Text.{Text}
use notifs_piper.Logger.{Output, debug, stored, cdebug}

-- Calls of `cdebug`, one after the other.
unfoldable pub cdebug_calls : List (Text × Option Bool) → Bool × Output → Bool × Output
cdebug_calls [] state = state
cdebug_calls ((text, set) ∷ calls) state = cdebug_calls calls (cdebug text set state)

-- The last value that was given, if any was.
abbrev last_given : Bool → List (Text × Option Bool) → Bool
last_given before [] = before
last_given before ((text, none) ∷ calls) = last_given before calls
last_given before ((text, some b) ∷ calls) = last_given b calls

cdebug_calls-append :
    (calls later : List (Text × Option Bool)) (state : Bool × Output)
    → cdebug_calls (calls ++ later) state ≡ cdebug_calls later (cdebug_calls calls state)
unfolding cdebug_calls
cdebug_calls-append [] later state = refl
cdebug_calls-append ((text, set) ∷ calls) later state =
    cdebug_calls-append calls later (cdebug text set state)

cdebug_calls-set :
    (calls : List (Text × Option Bool)) (before : Bool) (o : Output)
    → (cdebug_calls calls (before, o)).0 ≡ last_given before calls
unfolding cdebug_calls cdebug
cdebug_calls-set [] before o = refl
cdebug_calls-set ((text, none) ∷ calls) before o = cdebug_calls-set calls before _
cdebug_calls-set ((text, some b) ∷ calls) before o = cdebug_calls-set calls b _

last_given-append :
    (calls : List (Text × Option Bool)) (text : Text) (set : Option Bool) (before : Bool)
    → last_given before (calls ++ (text, set) ∷ []) ≡ stored set (last_given before calls)
last_given-append [] text none before = refl
last_given-append [] text (some b) before = refl
last_given-append ((t, none) ∷ calls) text set before = last_given-append calls text set before
last_given-append ((t, some b) ∷ calls) text set before = last_given-append calls text set b

-- A call of `cdebug` behind others prints its line exactly if the last value that was given, by it
-- or by an earlier call, is `true`; while none was given, nothing is printed.
pub cdebug_last :
    (calls : List (Text × Option Bool)) (text : Text) (set : Option Bool) (o : Output)
    → (cdebug_calls (calls ++ (text, set) ∷ []) (false, o)).1 ≡ (
        if last_given false (calls ++ (text, set) ∷ [])
        then debug text (cdebug_calls calls (false, o)).1
        else (cdebug_calls calls (false, o)).1)
unfolding cdebug_calls cdebug
cdebug_last calls text set o =
    rw
      (
        cdebug_calls-append calls ((text, set) ∷ []) (false, o),
        last_given-append calls text set false,
        cdebug_calls-set calls false o,
      )
      refl
