-- ===== src/Job/Wire.antt =====
-- The jobs on the wire: `Payload` of every job, of `Desc` and of `JobDesc`, and
-- `from_str_static_dyn_payload`, which chooses the job by its canonical name.
use notifs_piper.Common.{ℕ, [], ◌++◌, Outcome, ok, err, panic, ◌>>=◌, if◌then◌else◌, ◌==◌}
use notifs_piper.Text.{Text, codes, text_eq}
use notifs_piper.Text.Decimal.{to_string}
use notifs_piper.Payload.{
  Parsed, parse, split_hash, split_hashes, nid, pid, flags_repr, log_count_type,
  notification_closed_repr,
}
use notifs_piper.Event.{NotificationEvent, Serde}
use notifs_piper.Job.{
  Job, NotificationClosed, expired, dismissed, call_close_notification, undefined, closed_repr,
  acknowledge, broadcast, close, query, read, action_invoked, activation_token, watch,
  canonical_name, Desc, JobDesc,
}

-- `From<NotificationClosedRepr>`: any other number is `unreachable!`.
unfoldable pub closed_from : ℕ → Parsed NotificationClosed
closed_from value =
    if value == 1
    then ok expired
    else if value == 2
    then ok dismissed
    else if value == 3
    then ok call_close_notification
    else if value == 4
    then ok undefined
    else panic

module _ {Hints : Type 0} where
  unfoldable pub close_from_str : Text → Parsed (Job Hints)
  close_from_str data_text = do
    (id, reason) ← split_hash data_text
    n ← parse id nid (codes "Close")
    r ← parse reason notification_closed_repr (codes "Close")
    c ← closed_from r
    ok (close n c)

  unfoldable pub read_from_str : Text → Parsed (Job Hints)
  read_from_str data_text = do
    (start, end) ← split_hash data_text
    s ← parse start log_count_type (codes "Read")
    e ← parse end log_count_type (codes "Read")
    ok (read s e)

  unfoldable pub watch_from_str : Text → Parsed (Job Hints)
  watch_from_str data_text =
      if text_eq data_text (codes "watch")
      then ok watch
      else err (record { data_text = data_text; error = codes "Invalid payload"; details = [] })

  unfoldable pub query_from_str : Text → Parsed (Job Hints)
  query_from_str data_text = do n ← parse data_text nid (codes "Query"); ok (query n)

  -- `derive_signal!`: the two signals differ in their constructor.
  unfoldable pub signal_from_str : (ℕ → Text → Job Hints) → Text → Parsed (Job Hints)
  signal_from_str name data_text = do
    (id, argument) ← split_hash data_text
    n ← parse id nid (codes "Signal")
    ok (name n argument)

abbrev close_to_string : ℕ → NotificationClosed → Text
close_to_string id reason = to_string id ++ codes "#" ++ to_string (closed_repr reason)

abbrev query_to_string : ℕ → Text
query_to_string id = to_string id

abbrev read_to_string : ℕ → ℕ → Text
read_to_string start end = to_string start ++ codes "#" ++ to_string end

-- `derive_signal!`
abbrev signal_to_string : ℕ → Text → Text
signal_to_string id argument = to_string id ++ codes "#" ++ argument

abbrev watch_to_string : Text
watch_to_string = codes "watch"

module _ {Hints : Type 0} (serde : Serde Hints) where
  abbrev or_event_error : Text → Outcome Text (NotificationEvent Hints) → Parsed (Job Hints)
  or_event_error data_text (ok event) = ok (broadcast event)
  or_event_error data_text panic = panic
  or_event_error data_text (err details) = err (record {
    data_text = data_text;
    error = codes "Error while parsing 'event' for 'Broadcast'";
    details = details;
  })

  unfoldable pub broadcast_from_str : Text → Parsed (Job Hints)
  broadcast_from_str data_text = or_event_error data_text (serde.event_from_str data_text)

  -- The arms of the `match` on the name; a name that none of them has is `unreachable!`.
  unfoldable pub job_named : Text → Text → Parsed (Job Hints)
  job_named typ rest =
      if text_eq typ (codes "broadcast")
      then broadcast_from_str rest
      else if text_eq typ (codes "close")
      then close_from_str rest
      else if text_eq typ (codes "read")
      then read_from_str rest
      else if text_eq typ (codes "watch")
      then watch_from_str rest
      else if text_eq typ (codes "action")
      then signal_from_str action_invoked rest
      else if text_eq typ (codes "activation")
      then signal_from_str activation_token rest
      else if text_eq typ (codes "query")
      then query_from_str rest
      else panic

  unfoldable pub from_str_static_dyn_payload : Text → Parsed (Job Hints)
  from_str_static_dyn_payload data_text = do
    (typ, rest) ← split_hashes data_text
    job_named typ rest

  abbrev broadcast_to_string : NotificationEvent Hints → Text
  broadcast_to_string event = serde.event_to_string event

  -- `to_string` of the jobs; that of `Acknowledge` is `unimplemented!`.
  unfoldable pub job_to_string : Job Hints → Parsed Text
  job_to_string (acknowledge id) = panic
  job_to_string (broadcast event) = ok (broadcast_to_string event)
  job_to_string (close id reason) = ok (close_to_string id reason)
  job_to_string (query id) = ok (query_to_string id)
  job_to_string (read start end) = ok (read_to_string start end)
  job_to_string (action_invoked id key) = ok (signal_to_string id key)
  job_to_string (activation_token id token) = ok (signal_to_string id token)
  job_to_string watch = ok watch_to_string

unfoldable pub desc_from_str : Text → Parsed Desc
desc_from_str data_text = do
  (first, second) ← split_hash data_text
  p ← parse first pid (codes "Desc")
  f ← parse second flags_repr (codes "Desc")
  ok (record { pid = p; flags = f })

unfoldable pub desc_to_string : Desc → Text
desc_to_string d = to_string d.pid ++ codes "#" ++ to_string d.flags

module _ {Hints : Type 0} (serde : Serde Hints) where
  unfoldable pub job_desc_from_str : Text → Parsed (JobDesc Hints)
  job_desc_from_str data_text = do
    (desc, job) ← split_hashes data_text
    cmd ← from_str_static_dyn_payload serde job
    d ← desc_from_str desc
    ok (record { cmd = cmd; desc = d })

  unfoldable pub job_desc_to_string : JobDesc Hints → Parsed Text
  job_desc_to_string jd = do
    args ← job_to_string serde jd.cmd
    ok (desc_to_string jd.desc ++ codes "##" ++ canonical_name jd.cmd ++ codes "##" ++ args)
