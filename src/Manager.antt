-- ===== src/Manager.antt =====
-- server/manager.rs: the state of `LogsManager` and its operations on the buffer. Its `SyncList` is
-- shared with other threads and stands in the state of the server; here is what the manager owns.
-- Of the `Connection` and the `Sender` only their presence matters.
pub mod Buffer
pub mod Retention
pub mod Removal
pub mod Reading
pub mod Timeout
pub mod Store
use notifs_piper.Common.{
  ℕ, zero, suc, ◌-◌, ◌%◌, ◌^◌, min, Bool, true, false, ◌&&◌, not, Option, none, some, List, [], ◌∷◌,
  ◌++◌, map, length, take, drop, pop_back, swap_remove_back, Outcome, ok, err, panic, ltb, ◌==◌,
  if◌then◌else◌,
}
use notifs_piper.Common.Int.{ℤ, pos, negsuc}
use notifs_piper.Text.{Text, codes}
use notifs_piper.Event.{NotificationEvent, set_read}

pub record LogsConfig : Type 0 where
  pub max_logs : ℕ
  pub auto_close : Bool
  pub default_timeout : ℕ

pub record LogsManager (Hints : Type 0) : Type 0 where
  pub listener_path : Text
  pub logs_path : Text
  pub logs_buffer : List (NotificationEvent Hints)
  pub logs_config : LogsConfig
  pub dirty : Bool
  pub interface : Bool
  pub notifyer : Bool

module _ {Hints : Type 0} where
  -- `iter().position(|val| val.id() == nid)`
  unfoldable pub position : ℕ → List (NotificationEvent Hints) → Option ℕ
  position nid [] = none
  position nid (ne ∷ l) =
      if ne.id == nid then some 0 else elim (position nid l) [ none ↦ none | some i ↦ some (suc i) ]

  -- `iter().find(|ne| ne.id() == nid)`
  unfoldable pub find : ℕ → List (NotificationEvent Hints) → Option (NotificationEvent Hints)
  find nid [] = none
  find nid (ne ∷ l) = if ne.id == nid then some ne else find nid l

  -- `iter_mut().find(|val| val.id() == nid)`, with `f` applied to what it finds
  unfoldable pub modify_found :
      (NotificationEvent Hints → NotificationEvent Hints)
      → ℕ
      → List (NotificationEvent Hints)
      → List (NotificationEvent Hints)
  modify_found f nid [] = []
  modify_found f nid (ne ∷ l) = if ne.id == nid then f ne ∷ l else ne ∷ modify_found f nid l

  abbrev pub set_dirty : LogsManager Hints → LogsManager Hints
  set_dirty man = record man { dirty = true }

  abbrev removed_at :
      LogsManager Hints → Option ℕ → LogsManager Hints × Option (NotificationEvent Hints)
  removed_at man none = (man, none)
  removed_at man (some i) = elim (swap_remove_back man.logs_buffer i) [
    | none ↦ (set_dirty man, none)
    | some (ne, rest) ↦ (record man { logs_buffer = rest; dirty = true }, some ne)
  ]

  unfoldable pub remove_notification :
      LogsManager Hints → ℕ → LogsManager Hints × Option (NotificationEvent Hints)
  remove_notification man nid = removed_at man (position nid man.logs_buffer)

  unfoldable pub append_notification :
      LogsManager Hints → NotificationEvent Hints → LogsManager Hints
  append_notification man notif =
      let room =
        if length man.logs_buffer == man.logs_config.max_logs
        then pop_back man.logs_buffer
        else man.logs_buffer in
      record man { logs_buffer = notif ∷ room; dirty = true }

  unfoldable pub read_notification : LogsManager Hints → ℕ → LogsManager Hints
  read_notification man nid = record man {
    logs_buffer = modify_found set_read nid man.logs_buffer;
    dirty = true;
  }

  -- `[start..end]` of the buffer, which panics unless `start <= end`; the slice is marked in place.
  unfoldable pub read_logs :
      LogsManager Hints
      → ℕ
      → ℕ
      → Bool
      → Outcome Text (LogsManager Hints × List (NotificationEvent Hints))
  read_logs man start end update_read =
      let buffer = man.logs_buffer in
      let from = min (length buffer) start in
      let to = min (length buffer) end in
      let slice = take (to - from) (drop from buffer) in
      let marked = map set_read slice in
      if ltb to from
      then panic
      else if update_read && not (length slice == 0)
      then ok (
        record man { logs_buffer = take from buffer ++ (marked ++ drop to buffer); dirty = true },
        marked,
      )
      else ok (man, slice)

  -- `x as u16` keeps the low sixteen bits.
  unfoldable pub map_timeout : LogsManager Hints → ℤ → Outcome Text (Option ℕ)
  map_timeout man (negsuc zero) = ok (some man.logs_config.default_timeout)
  map_timeout man (negsuc (suc n)) = err (codes "Cannot have a negative timeout")
  map_timeout man (pos zero) = ok none
  map_timeout man (pos (suc n)) = ok (some (suc n % 2 ^ 16))
