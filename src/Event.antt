-- ===== src/Event.antt =====
-- `NotificationEvent` of server/dbus.rs, and the JSON of `serde_json` as an interface. The hints
-- are a map to values of `zbus`, which the server stores and never reads: their type is a
-- parameter.
use notifs_piper.Common.{ℕ, ◌≡◌, ◌≢◌, Bool, true, List, [], Outcome, ok}
use notifs_piper.Common.Int.{ℤ}
use notifs_piper.Text.{Text, codes}

pub record NotificationEvent (Hints : Type 0) : Type 0 where
  pub id : ℕ
  pub time : ℕ
  pub read : Bool
  pub closed : Bool
  pub app_name : Text
  pub replaces_id : ℕ
  pub app_icon : Text
  pub summary : Text
  pub body : Text
  pub actions : List Text
  pub hints : Hints
  pub timeout : ℤ

module _ {Hints : Type 0} where
  abbrev pub set_closed : NotificationEvent Hints → NotificationEvent Hints
  set_closed ne = record ne { closed = true }

  -- `not.read = true`
  abbrev pub set_read : NotificationEvent Hints → NotificationEvent Hints
  set_read ne = record ne { read = true }

-- The calls of `serde_json`: printing does not fail on these types; reading fails with an error's
-- text, and does not panic.
pub record Serde (Hints : Type 0) : Type 0 where
  pub event_to_string : NotificationEvent Hints → Text
  pub event_from_str : Text → Outcome Text (NotificationEvent Hints)
  pub logs_to_string : List (NotificationEvent Hints) → Text
  pub logs_from_str : Text → Outcome Text (List (NotificationEvent Hints))

-- What the server relies on: the print of a value is read back and is not empty, and `[]` is the
-- empty list.
pub record IsLawful {Hints : Type 0} (serde : Serde Hints) : Type 0 where
  pub event_round :
      (e : NotificationEvent Hints) → serde.event_from_str (serde.event_to_string e) ≡ ok e
  pub logs_round :
      (l : List (NotificationEvent Hints)) → serde.logs_from_str (serde.logs_to_string l) ≡ ok l
  pub event_ne_nil : (e : NotificationEvent Hints) → serde.event_to_string e ≢ []
  pub logs_ne_nil : (l : List (NotificationEvent Hints)) → serde.logs_to_string l ≢ []
  pub logs_empty : serde.logs_from_str (codes "[]") ≡ ok []
