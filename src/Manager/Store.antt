-- ===== src/Manager/Store.antt =====
-- The buffer as its clients see it: a store of notifications by their ids. The order of the buffer,
-- which only `Read` shows, is forgotten.
pub mod Finding
pub mod Operations
use notifs_piper.Common.{ℕ, Bool, Option, none, some, ◌==◌, if◌then◌else◌}
use notifs_piper.Event.{NotificationEvent}
use notifs_piper.Manager.{LogsManager, find}

abbrev pub Store : Type 0 → Type 0
Store Hints = ℕ → Option (NotificationEvent Hints)

module _ {Hints : Type 0} where
  abbrev pub put : NotificationEvent Hints → Store Hints → Store Hints
  put ne m = λ id. if ne.id == id then some ne else m id

  abbrev pub erase : ℕ → Store Hints → Store Hints
  erase nid m = λ id. if nid == id then none else m id

  abbrev pub changed :
      (NotificationEvent Hints → NotificationEvent Hints)
      → Option (NotificationEvent Hints)
      → Option (NotificationEvent Hints)
  changed f none = none
  changed f (some ne) = some (f ne)

  abbrev pub alter :
      (NotificationEvent Hints → NotificationEvent Hints) → ℕ → Store Hints → Store Hints
  alter f nid m = λ id. if nid == id then changed f (m id) else m id

  -- What is stored.
  abbrev pub view : LogsManager Hints → Store Hints
  view man = λ id. find id man.logs_buffer
