-- ===== src/Logger.antt =====
-- utils/logger.rs: the lines that the program prints about itself, with their colours, and the
-- switch of the debugging lines. What is printed is kept apart by its stream.
pub mod Debugging
use notifs_piper.Common.{Bool, true, false, Option, none, some, List, [], ◌∷◌, ◌++◌, if◌then◌else◌}
use notifs_piper.Text.{Text, codes}

pub data Colors : Type 0 where
  black red green yellow blue magenta cyan white default : Colors

-- `\x1b`
abbrev escaped : Text → Text
escaped t = 27 ∷ t

-- `FG_STRINGS` and `BG_STRINGS` at the color's number
unfoldable pub fg : Colors → Text
fg black = escaped (codes "[30m")
fg red = escaped (codes "[31m")
fg green = escaped (codes "[32m")
fg yellow = escaped (codes "[33m")
fg blue = escaped (codes "[34m")
fg magenta = escaped (codes "[35m")
fg cyan = escaped (codes "[36m")
fg white = escaped (codes "[37m")
fg default = escaped (codes "[39m")

unfoldable pub bg : Colors → Text
bg black = escaped (codes "[40m")
bg red = escaped (codes "[41m")
bg green = escaped (codes "[42m")
bg yellow = escaped (codes "[43m")
bg blue = escaped (codes "[44m")
bg magenta = escaped (codes "[45m")
bg cyan = escaped (codes "[46m")
bg white = escaped (codes "[47m")
bg default = escaped (codes "[49m")

abbrev reset : Text
reset = escaped (codes "[0m")

pub record LogSettings : Type 0 where
  pub bold : Bool
  pub underline : Bool
  pub blinking : Bool
  pub reverse : Bool
  pub bg : Colors
  pub fg : Colors

abbrev if_set : Bool → Text → Text
if_set b t = if b then escaped t else []

unfoldable pub bash_settings : LogSettings → Text
bash_settings s =
    bg s.bg
    ++ fg s.fg
    ++ if_set s.underline (codes "[4m")
    ++ if_set s.bold (codes "[1m")
    ++ if_set s.blinking (codes "[5m")
    ++ if_set s.reverse (codes "[7m")

abbrev pub default_settings : LogSettings
default_settings = record {
  bold = false;
  underline = false;
  blinking = false;
  reverse = false;
  bg = default;
  fg = white;
}

abbrev colored : Colors → LogSettings
colored c = record default_settings { fg = c }

-- What was printed.
pub record Output : Type 0 where
  pub stdout : Text
  pub stderr : Text

-- `print` and `err`, with the line's end of `println` and `errln`
abbrev pub styled : LogSettings → Text → Text
styled s text = (bash_settings s ++ text) ++ reset

abbrev pub line : LogSettings → Text → Text
line s text = styled s text ++ codes "\n"

abbrev println : LogSettings → Text → Output → Output
println s text o = record o { stdout = o.stdout ++ line s text }

abbrev errln : LogSettings → Text → Output → Output
errln s text o = record o { stderr = o.stderr ++ line s text }

unfoldable pub info : Text → Output → Output
info text o = println (colored cyan) (codes "[INFO]: " ++ text) o

unfoldable pub warn : Text → Output → Output
warn text o = println (colored yellow) (codes "[WARNING]: " ++ text) o

unfoldable pub error : Text → Output → Output
error text o = errln (colored red) (codes "[ERROR]: " ++ text) o

abbrev pub debug_line : Text → Text
debug_line text = line (colored blue) (codes "[DEBUG]: " ++ text)

unfoldable pub debug : Text → Output → Output
debug text o = record o { stdout = o.stdout ++ debug_line text }

-- `cdebug` with its `SET`, which a call may store before it is read.
abbrev pub stored : Option Bool → Bool → Bool
stored none before = before
stored (some b) before = b

unfoldable pub cdebug : Text → Option Bool → Bool × Output → Bool × Output
cdebug text set (before, o) = let now = stored set before in (now, if now then debug text o else o)
