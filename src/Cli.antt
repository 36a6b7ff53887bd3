-- ===== src/Cli.antt =====
-- cli.rs: the command line, and the test of the daemon's options. `clap` gives the arguments in
-- these types; it calls `opts_checker` on each value of `--option` in turn, and stops at an error.
pub mod Options
use notifs_piper.Common.{
  ℕ, Bool, true, false, ◌&&◌, ◌||◌, not, Option, none, some, List, [], ◌∷◌, ◌++◌, Outcome, ok, err,
  panic, ◌>>=◌, if◌then◌else◌,
}
use notifs_piper.Text.{Text, codes, text_eq}
use notifs_piper.Text.Split.{strip_prefix}

pub data SignalKind : Type 0 where
  closed : Bool → SignalKind
  action_invoked : Text → SignalKind
  activation_token : Text → SignalKind

pub record DaemonArgs : Type 0 where
  pub logs_file : Option Text
  pub max : ℕ
  pub auto_close : Bool
  pub options : List Text
  pub all : Bool
  pub timeout : ℕ

pub data Sub : Type 0 where
  daemon : DaemonArgs → Sub
  read : ℕ → ℕ → Bool → Sub
  watch : Bool → Sub
  signal : ℕ → Bool → SignalKind → Sub

abbrev pub icon_multi : Text
icon_multi = codes "icon-multi"

abbrev pub icon_static : Text
icon_static = codes "icon-static"

abbrev pub capabilities_enumerated : List Text
capabilities_enumerated =
    codes "action-icons"
    ∷ codes "actions"
    ∷ codes "body"
    ∷ codes "body-hyperlinks"
    ∷ codes "body-images"
    ∷ codes "body-markup"
    ∷ icon_multi
    ∷ icon_static
    ∷ codes "persistence"
    ∷ codes "sound"
    ∷ []

-- `contains`
unfoldable pub contains : List Text → Text → Bool
contains [] v = false
contains (x ∷ l) v = text_eq x v || contains l v

-- `join`
abbrev pub join_text : Text → List Text → Text
join_text d [] = []
join_text d (x ∷ []) = x
join_text d (x ∷ y ∷ l) = x ++ d ++ join_text d (y ∷ l)

-- `val.starts_with("icon")`
abbrev is_some : Option Text → Bool
is_some none = false
is_some (some t) = true

unfoldable pub is_icon : Text → Bool
is_icon v = is_some (strip_prefix (codes "icon") v)

-- The static `MUTUALLY_EXCLUDED_ICON` before and behind a call.
unfoldable pub opts_checker : Bool → Text → Bool × Outcome Text Text
opts_checker excluded v =
    if is_icon v && excluded
    then (
      excluded,
      err (
          codes "'icon-static' and 'icon-multi' are mutually exclusive."
          ++ codes
              "Please refer to the docs from freedesktop.org for the Notifications interface."),
    )
    else (
      is_icon v || excluded,
      (if contains capabilities_enumerated v
          then ok v
          else err (
              codes "Invalid capability. Possible values are:\n"
              ++ join_text (codes "\n") capabilities_enumerated)),
    )

unfoldable pub check_options : Bool → List Text → Outcome Text (List Text)
check_options excluded [] = ok []
check_options excluded (v ∷ vs) = do
  x ← (opts_checker excluded v).1
  xs ← check_options (opts_checker excluded v).0 vs
  ok (x ∷ xs)

-- The capabilities that `main` sets: those of `retain`, or the options.
abbrev without : Text → List Text → List Text
without t [] = []
without t (x ∷ l) = let rest = without t l in if text_eq x t then rest else x ∷ rest

unfoldable pub capabilities : DaemonArgs → List Text
capabilities args = if args.all then without icon_static capabilities_enumerated else args.options
