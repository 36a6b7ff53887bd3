-- ===== src/Dbus.antt =====
-- `Notifications` of server/dbus.rs: the calls of the bus become jobs of the queue.
-- `overflow_checks` is that of the build's profile: on in `dev`, where an overflow panics, off in
-- `release`, where it wraps around.
pub mod Ids
use notifs_piper.Common.{
  ℕ, suc, ◌+◌, ◌%◌, ◌^◌, max, Bool, true, false, not, ◌&&◌, List, Option, none, some, [], ◌∷◌, ◌++◌,
  Outcome, ok, panic, ◌>>=◌, ◌==◌, if◌then◌else◌,
}
use notifs_piper.Common.Int.{ℤ}
use notifs_piper.Text.{Text, codes}
use notifs_piper.Event.{NotificationEvent}
use notifs_piper.Job.{Job, JobDesc, broadcast, close, call_close_notification}

-- The `SyncList` and the channel to the manager: the jobs, the signals sent and not yet received,
-- and whether the manager's thread still runs.
pub record Channel (Hints : Type 0) : Type 0 where
  pub queue : List (JobDesc Hints)
  pub signals : ℕ
  pub manager_up : Bool

pub record Notifications (Hints : Type 0) : Type 0 where
  pub counter : ℕ
  pub channel : Channel Hints

-- The arguments of a call of `notify`.
pub record NotifyCall (Hints : Type 0) : Type 0 where
  pub app_name : Text
  pub replaces_id : ℕ
  pub app_icon : Text
  pub summary : Text
  pub body : Text
  pub actions : List Text
  pub hints : Hints
  pub timeout : ℤ

-- `self.counter += 1` on a `u32`
unfoldable pub increment : Bool → ℕ → Outcome Text ℕ
increment overflow_checks counter =
    if overflow_checks && (counter + 1 == 2 ^ 32) then panic else ok ((counter + 1) % 2 ^ 32)

abbrev counted : Outcome Text ℕ → Outcome Text (ℕ × ℕ)
counted next = do n ← next; ok (n, n)

-- The id of a notification, and the counter behind it.
unfoldable pub choose_id : Bool → ℕ → ℕ → Outcome Text (ℕ × ℕ)
unfolding increment
choose_id overflow_checks replaces_id counter =
    if replaces_id == 0
    then counted (increment overflow_checks counter)
    else ok (replaces_id, counter)

module _ {Hints : Type 0} where
  -- A job without a client: `Desc::new(0, 0)`.
  abbrev pub internal : Job Hints → JobDesc Hints
  internal job = record { cmd = job; desc = record { pid = 0; flags = 0 } }

  -- The lock, the push, and the signal to the manager.
  unfoldable pub push_job : JobDesc Hints → Channel Hints → Outcome Text (Channel Hints)
  push_job desc ch =
      if ch.manager_up
      then ok (record ch { queue = ch.queue ++ desc ∷ []; signals = ch.signals + 1 })
      else panic

  abbrev pub made : NotifyCall Hints → ℕ → ℕ → NotificationEvent Hints
  made call time id = record {
    id = id;
    time = time;
    read = false;
    closed = false;
    app_name = call.app_name;
    replaces_id = call.replaces_id;
    app_icon = call.app_icon;
    summary = call.summary;
    body = call.body;
    actions = call.actions;
    hints = call.hints;
    timeout = call.timeout;
  }

  unfoldable pub notify :
      Bool → ℕ → NotifyCall Hints → Notifications Hints → Outcome Text (Notifications Hints × ℕ)
  notify overflow_checks time call n = do
    (id, counter) ← choose_id overflow_checks call.replaces_id n.counter
    channel ← push_job (internal (broadcast (made call time id))) n.channel
    ok (record { counter = counter; channel = channel }, id)

  unfoldable pub close_notification : ℕ → Notifications Hints → Outcome Text (Notifications Hints)
  close_notification nid n = do
    channel ← push_job (internal (close nid call_close_notification)) n.channel
    ok (record n { channel = channel })

  -- `manager.iter().map(|val| val.id()).max().unwrap_or(0)`, the counter at the start
  unfoldable pub max_id : List (NotificationEvent Hints) → ℕ
  max_id [] = 0
  max_id (ne ∷ l) = max ne.id (max_id l)

-- `get_server_information`
unfoldable pub get_server_information : Text × Text × Text × Text
get_server_information = (codes "notifs-piper", codes "notifs-piper", codes "0.1.2", codes "1.3")

-- `CAPABILITIES.get().unwrap()`
abbrev pub get_capabilities : Option (List Text) → Outcome Text (List Text)
get_capabilities none = panic
get_capabilities (some l) = ok l
