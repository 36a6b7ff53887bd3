-- ===== src/Job/RoundTrip.antt =====
-- Reading the text of the jobs of server/jobs and of their descriptions.
use notifs_piper.Common.{
  ℕ, ◌≤◌, ◌≡◌, refl, some, ◌∷◌, ◌++◌, append_assoc, ok, arith, ok-injective, >>=-eq-ok,
}
use notifs_piper.Text.{Text, codes}
use notifs_piper.Text.Split.{
  hash, Lacks, split_once, split_once-hash, split_once-hashes, split_once-hash-hashes,
}
use notifs_piper.Text.Decimal.{to_string, max_of}
use notifs_piper.Text.Decimal.RoundTrip.{printed, to_string-Lacks, All-IsDigit-Lacks}
use notifs_piper.Payload.{
  parse-to_string, split_hash, split_hashes, nid, pid, flags_repr, log_count_type,
  notification_closed_repr,
}
use notifs_piper.Event.{Serde, IsLawful}
use notifs_piper.Job.{
  Job, NotificationClosed, expired, dismissed, call_close_notification, undefined, closed_repr,
  acknowledge, broadcast, close, query, read, action_invoked, activation_token, watch,
  canonical_name, Desc, JobDesc,
}
use notifs_piper.Job.Wire.{
  closed_from, close_from_str, read_from_str, watch_from_str, query_from_str, signal_from_str,
  broadcast_from_str, job_named, from_str_static_dyn_payload, job_to_string, desc_from_str,
  desc_to_string, job_desc_from_str, job_desc_to_string,
}

-- The numbers of a job are in the ranges of their types, as the source's types say.
abbrev pub IsInRange : {Hints : Type 0} → Job Hints → Type 0
IsInRange (acknowledge id) = ⊥
IsInRange (broadcast event) = Unit
IsInRange (close id reason) = id ≤ max_of 32
IsInRange (query id) = id ≤ max_of 32
IsInRange (read start end) = (start ≤ max_of 16) × (end ≤ max_of 16)
IsInRange (action_invoked id key) = id ≤ max_of 32
IsInRange (activation_token id token) = id ≤ max_of 32
IsInRange watch = Unit

-- Two fields, of which the first is a printed number.
pub split_hash-printed :
    (n : ℕ) (t : Text) → split_hash (to_string n ++ codes "#" ++ t) ≡ ok (to_string n, t)
unfolding split_hash
split_hash-printed n t = rw (append_assoc, split_once-hash (to_string n) t (to_string-Lacks n))

pub split_hashes-Lacks :
    (a b : Text) → Lacks hash a → split_hashes (a ++ codes "##" ++ b) ≡ ok (a, b)
unfolding split_hashes
split_hashes-Lacks a b h = rw (append_assoc, split_once-hashes a b h)

closed_from-repr : (r : NotificationClosed) → closed_from (closed_repr r) ≡ ok r
unfolding closed_from
closed_from-repr expired = refl
closed_from-repr dismissed = refl
closed_from-repr call_close_notification = refl
closed_from-repr undefined = refl

closed_repr-le : (r : NotificationClosed) → closed_repr r ≤ max_of 32
closed_repr-le r = ground arith

module _ {Hints : Type 0} where
  close-round :
      (id : ℕ) (r : NotificationClosed)
      → id ≤ max_of 32
      → close_from_str {Hints = Hints} (to_string id ++ codes "#" ++ to_string (closed_repr r))
        ≡ ok (close id r)
  unfolding close_from_str
  close-round id r h = rw (
    split_hash-printed id (to_string (closed_repr r)),
    parse-to_string id nid (codes "Close") h,
    parse-to_string (closed_repr r) notification_closed_repr (codes "Close") (closed_repr-le r),
    closed_from-repr r,
  )

  read-round :
      (s e : ℕ)
      → s ≤ max_of 16
      → e ≤ max_of 16
      → read_from_str {Hints = Hints} (to_string s ++ codes "#" ++ to_string e) ≡ ok (read s e)
  unfolding read_from_str
  read-round s e hs he = rw (
    split_hash-printed s (to_string e),
    parse-to_string s log_count_type (codes "Read") hs,
    parse-to_string e log_count_type (codes "Read") he,
  )

  signal-round :
      (name : ℕ → Text → Job Hints) (id : ℕ) (t : Text)
      → id ≤ max_of 32
      → signal_from_str name (to_string id ++ codes "#" ++ t) ≡ ok (name id t)
  unfolding signal_from_str
  signal-round name id t h = rw (split_hash-printed id t, parse-to_string id nid (codes "Signal") h)

  query-round :
      (id : ℕ) → id ≤ max_of 32 → query_from_str {Hints = Hints} (to_string id) ≡ ok (query id)
  unfolding query_from_str
  query-round id h = rw (parse-to_string id nid (codes "Query") h)

desc-round :
    (d : Desc) → d.pid ≤ max_of 32 → d.flags ≤ max_of 8 → desc_from_str (desc_to_string d) ≡ ok d
unfolding desc_from_str desc_to_string
desc-round d hp hf = rw (
  split_hash-printed d.pid (to_string d.flags),
  parse-to_string d.pid pid (codes "Desc") hp,
  parse-to_string d.flags flags_repr (codes "Desc") hf,
)

pub split_once-fields :
    (a f : Text) (c : ℕ) (b r : Text)
    → f ≡ c ∷ b
    → Lacks hash a
    → Lacks hash (c ∷ b)
    → split_once (codes "##") (a ++ codes "#" ++ f ++ codes "##" ++ r)
      ≡ some (a ++ codes "#" ++ f, r)
split_once-fields a f c b r e ha hb =
    rw e (simp append_assoc (simp append_assoc at (split_once-hash-hashes a c b r ha hb)))

-- The first `##` behind a description is its end, although it holds a `#` itself.
split_hashes-desc :
    (d : Desc) (r : Text)
    → split_hashes (desc_to_string d ++ codes "##" ++ r) ≡ ok (desc_to_string d, r)
unfolding split_hashes desc_to_string
split_hashes-desc d r =
    let p = printed d.flags in
    rw (
      split_once-fields (to_string d.pid) (to_string d.flags) p.first p.others r p.text
        (to_string-Lacks d.pid) (All-IsDigit-Lacks (p.first ∷ p.others) p.digit))

split_hashes-fields :
    (d : Desc) (a b : Text)
    → split_hashes (desc_to_string d ++ codes "##" ++ a ++ codes "##" ++ b)
      ≡ ok (desc_to_string d, a ++ codes "##" ++ b)
split_hashes-fields d a b =
    simp append_assoc (simp append_assoc at (split_hashes-desc d (a ++ codes "##" ++ b)))

module _ {Hints : Type 0} {serde : Serde Hints} (lawful : IsLawful serde) where
  job_named-to_string :
      (job : Job Hints) (args : Text)
      → IsInRange job
      → job_to_string serde job ≡ ok args
      → job_named serde (canonical_name job) args ≡ ok job
  unfolding job_named job_to_string
  job_named-to_string (acknowledge id) args h e = absurd h
  job_named-to_string (broadcast event) args h e =
      rw (← ok-injective e) (unfold broadcast_from_str in rw (lawful.event_round event))
  job_named-to_string (close id r) args h e = rw (← ok-injective e) (close-round id r h)
  job_named-to_string (query id) args h e = rw (← ok-injective e) (query-round id h)
  job_named-to_string (read s t) args h e = rw (← ok-injective e) (read-round s t h.0 h.1)
  job_named-to_string (action_invoked id key) args h e =
      rw (← ok-injective e) (signal-round action_invoked id key h)
  job_named-to_string (activation_token id token) args h e =
      rw (← ok-injective e) (signal-round activation_token id token h)
  job_named-to_string watch args h e = rw (← ok-injective e) (unfold watch_from_str in refl)

  canonical_name-Lacks : (job : Job Hints) → Lacks hash (canonical_name job)
  canonical_name-Lacks watch = omega arith
  canonical_name-Lacks _ = omega arith

  -- Every job is read back from its name and its arguments.
  pub dyn_payload-to_string :
      (job : Job Hints) (args : Text)
      → IsInRange job
      → job_to_string serde job ≡ ok args
      → from_str_static_dyn_payload serde (canonical_name job ++ codes "##" ++ args) ≡ ok job
  unfolding from_str_static_dyn_payload
  dyn_payload-to_string job args h e =
      rw (split_hashes-Lacks (canonical_name job) args (canonical_name-Lacks job))
        (job_named-to_string job args h e)

  -- If the JSON of an event is read back as printed, a request that was printed is read back,
  -- whatever its job, description and arguments, if its numbers are in the ranges of their types
  -- and it is not the internal `Acknowledge`.
  pub job_desc_from_str-to_string :
      (jd : JobDesc Hints) (t : Text)
      → IsInRange jd.cmd
      → jd.desc.pid ≤ max_of 32
      → jd.desc.flags ≤ max_of 8
      → job_desc_to_string serde jd ≡ ok t
      → job_desc_from_str serde t ≡ ok jd
  unfolding job_desc_from_str job_desc_to_string
  job_desc_from_str-to_string jd t h hp hf e =
      let (args, printed_args, whole) = >>=-eq-ok (job_to_string serde jd.cmd) _ e in
      rw (← ok-injective whole) (
        rw (
          split_hashes-fields jd.desc (canonical_name jd.cmd) args,
          dyn_payload-to_string jd.cmd args h printed_args,
          desc-round jd.desc hp hf,
        ))
