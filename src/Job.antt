-- ===== src/Job.antt =====
-- server/jobs: the jobs as one data type with a constructor for each struct that implements `Job`,
-- and the description that travels with them.
pub mod Wire
pub mod RoundTrip
use notifs_piper.Common.{ℕ}
use notifs_piper.Text.{Text, codes}
use notifs_piper.Event.{NotificationEvent}

pub data NotificationClosed : Type 0 where
  expired dismissed call_close_notification undefined : NotificationClosed

-- `self.reason as NotificationClosedRepr`
abbrev pub closed_repr : NotificationClosed → ℕ
closed_repr expired = 1
closed_repr dismissed = 2
closed_repr call_close_notification = 3
closed_repr undefined = 4

pub data Job (Hints : Type 0) : Type 0 where
  acknowledge : ℕ → Job Hints
  broadcast : NotificationEvent Hints → Job Hints
  close : ℕ → NotificationClosed → Job Hints
  query : ℕ → Job Hints
  read : ℕ → ℕ → Job Hints
  action_invoked : ℕ → Text → Job Hints
  activation_token : ℕ → Text → Job Hints
  watch : Job Hints

-- `Acknowledge` shares the name of `Close`.
abbrev pub canonical_name : {Hints : Type 0} → Job Hints → Text
canonical_name (acknowledge id) = codes "close"
canonical_name (broadcast event) = codes "broadcast"
canonical_name (close id reason) = codes "close"
canonical_name (query id) = codes "query"
canonical_name (read start end) = codes "read"
canonical_name (action_invoked id key) = codes "action"
canonical_name (activation_token id token) = codes "activation"
canonical_name watch = codes "watch"

pub record Desc : Type 0 where
  pub pid : ℕ
  pub flags : ℕ

pub record JobDesc (Hints : Type 0) : Type 0 where
  pub cmd : Job Hints
  pub desc : Desc
