-- ===== src/Startup/Recovery.antt =====
-- `LogsManager::new` of server/manager.rs: which buffer and which files a start leaves.
use notifs_piper.Common.{
  ◌≡◌, refl, ◌∙◌, false, ◌||◌, if◌then◌else◌, some, List, [], ok, err, panic, arith,
}
use notifs_piper.Text.{Text, codes}
use notifs_piper.Event.{NotificationEvent, Serde, IsLawful}
use notifs_piper.Manager.{LogsConfig, LogsManager}
use notifs_piper.Exec.Persistence.{load}
use notifs_piper.Startup.{Files, initial, new}

-- The files behind a start that could not parse `t`.
abbrev pub moved_away : Files → Text → Files
moved_away f t = record f { logs = some (codes "[]"); backup = some t }

module _ {Hints : Type 0} (serde : Serde Hints) (lp path : Text) (config : LogsConfig) where
  pub new-initial :
      (f : Files) (l : List (NotificationEvent Hints))
      → f.read_fails ≡ false
      → load serde f.logs ≡ ok l
      → new serde lp path config f ≡ ok (initial lp path config l, f)
  unfolding new
  new-initial f l r h = ground arith

  -- If the file is not refused, a start has the buffer that the file holds, or the empty one if
  -- there is no file; it changes no file and is not marked for writing.
  pub new-load :
      (f : Files) (l : List (NotificationEvent Hints))
      → f.read_fails ≡ false
      → load serde f.logs ≡ ok l
      → (man : LogsManager Hints) × (new serde lp path config f ≡ ok (man, f))
        × (man.logs_buffer ≡ l)
        × (man.dirty ≡ false)
  new-load f l r h = (initial lp path config l, new-initial f l r h, refl, refl)

  -- A file that is read but cannot be parsed is kept as the backup, and the daemon starts with no
  -- notification and with a new file that says so; where the file cannot be moved or the new one
  -- cannot be written, it panics.
  pub new_backup :
      (f : Files) (t e : Text)
      → f.read_fails ≡ false
      → f.logs ≡ some t
      → serde.logs_from_str t ≡ err e
      → new serde lp path config f ≡ (
          if f.rename_fails || f.write_fails
          then panic
          else ok (initial lp path config [], moved_away f t))
  unfolding new
  new_backup f t e r h bad = ground arith

module _ {Hints : Type 0} {serde : Serde Hints} (lawful : IsLawful serde) (lp path : Text)
    (config : LogsConfig) where
  -- If `[]` is read as the empty list, a start that has moved a file away that it could not parse
  -- is not repeated: the next start reads the new file as the empty buffer and changes no file, so
  -- the backup stays.
  pub new_twice :
      (f : Files) (t e : Text)
      → f.read_fails ≡ false
      → f.rename_fails ≡ false
      → f.write_fails ≡ false
      → f.logs ≡ some t
      → serde.logs_from_str t ≡ err e
      → (man man' : LogsManager Hints) × (f' : Files) × (new serde lp path config f ≡ ok (man, f'))
        × (new serde lp path config f' ≡ ok (man', f'))
        × (man'.logs_buffer ≡ [])
        × (f'.backup ≡ some t)
  new_twice f t e r renames writes h bad =
      let f' = moved_away f t in
      let first = new_backup serde lp path config f t e r h bad ∙ ground arith in
      let (man', second, empty, _) = new-load serde lp path config f' [] r lawful.logs_empty in
      (initial lp path config [], man', f', first, second, empty, refl)
