-- ===== src/Tests/Codec.antt =====
-- An instance of `Serde`: a length-prefixed code of the fields.
use notifs_piper.Common.{
  ℕ, zero, suc, ◌≡◌, ◌≢◌, refl, Bool, true, false, List, [], ◌∷◌, ◌++◌, length, Outcome, ok, err,
  panic, ◌>>=◌, ◌==◌, if◌then◌else◌,
}
use notifs_piper.Common.Int.{ℤ, pos, negsuc}
use notifs_piper.Text.{Text, codes}
use notifs_piper.Event.{NotificationEvent, Serde, IsLawful}

abbrev pub NoHints : Type 0
NoHints = Unit {0}

abbrev pub Event : Type 0
Event = NotificationEvent NoHints

abbrev Reader : Type 0 → Type 0
Reader A = Outcome Text (A × Text)

abbrev get_n : ℕ → Text → Reader Text
get_n zero r = ok ([], r)
get_n (suc n) [] = err []
get_n (suc n) (c ∷ r) = do (t, r') ← get_n n r; ok (c ∷ t, r')

abbrev get_text : Text → Reader Text
get_text [] = err []
get_text (n ∷ r) = get_n n r

abbrev put_text : Text → Text → Text
put_text t r = length t ∷ t ++ r

get_n-append : (t r : Text) → get_n (length t) (t ++ r) ≡ ok (t, r)
get_n-append [] r = refl
get_n-append (c ∷ t) r = rw (get_n-append t r)

abbrev get_texts : ℕ → Text → Reader (List Text)
get_texts zero r = ok ([], r)
get_texts (suc n) r = do (t, r1) ← get_text r; (ts, r2) ← get_texts n r1; ok (t ∷ ts, r2)

abbrev put_texts : List Text → Text → Text
put_texts [] r = r
put_texts (t ∷ ts) r = put_text t (put_texts ts r)

get_texts-put_texts :
    (ts : List Text) (r : Text) → get_texts (length ts) (put_texts ts r) ≡ ok (ts, r)
get_texts-put_texts [] r = refl
get_texts-put_texts (t ∷ ts) r = rw (get_n-append t (put_texts ts r), get_texts-put_texts ts r)

abbrev flag : Bool → ℕ
flag true = 1
flag false = 0

abbrev sign : ℤ → ℕ
sign (pos n) = 0
sign (negsuc n) = 1

abbrev size : ℤ → ℕ
size (pos n) = n
size (negsuc n) = n

abbrev signed : ℕ → ℕ → ℤ
signed s n = if s == 0 then pos n else negsuc n

flag-back : (b : Bool) → (flag b == 1) ≡ b
flag-back true = refl
flag-back false = refl

signed-back : (z : ℤ) → signed (sign z) (size z) ≡ z
signed-back (pos n) = refl
signed-back (negsuc n) = refl

abbrev put_event : Event → Text → Text
put_event e r =
    e.id
    ∷ e.time
    ∷ flag e.read
    ∷ flag e.closed
    ∷ e.replaces_id
    ∷ sign e.timeout
    ∷ size e.timeout
    ∷ length e.actions
    ∷ put_text e.app_name
        (put_text e.app_icon (put_text e.summary (put_text e.body (put_texts e.actions r))))

abbrev get_event : Text → Reader Event
get_event (id ∷ time ∷ read ∷ closed ∷ replaces_id ∷ s ∷ n ∷ count ∷ r) = do
  (app_name, r1) ← get_text r
  (app_icon, r2) ← get_text r1
  (summary, r3) ← get_text r2
  (body, r4) ← get_text r3
  (actions, r5) ← get_texts count r4
  ok (
    record {
      id = id;
      time = time;
      read = read == 1;
      closed = closed == 1;
      app_name = app_name;
      replaces_id = replaces_id;
      app_icon = app_icon;
      summary = summary;
      body = body;
      actions = actions;
      hints = tt;
      timeout = signed s n;
    },
    r5,
  )
get_event _ = err []

get_event-put_event : (e : Event) (r : Text) → get_event (put_event e r) ≡ ok (e, r)
get_event-put_event e r =
    let r4 = put_texts e.actions r in
    let r3 = put_text e.body r4 in
    let r2 = put_text e.summary r3 in
    let r1 = put_text e.app_icon r2 in
    rw (
      get_n-append e.app_name r1,
      get_n-append e.app_icon r2,
      get_n-append e.summary r3,
      get_n-append e.body r4,
      get_texts-put_texts e.actions r,
      flag-back e.read,
      flag-back e.closed,
      signed-back e.timeout,
    )

abbrev put_events : List Event → Text → Text
put_events [] r = r
put_events (e ∷ l) r = put_event e (put_events l r)

abbrev get_events : ℕ → Text → Reader (List Event)
get_events zero r = ok ([], r)
get_events (suc n) r = do (e, r1) ← get_event r; (l, r2) ← get_events n r1; ok (e ∷ l, r2)

get_events-put_events :
    (l : List Event) (r : Text) → get_events (length l) (put_events l r) ≡ ok (l, r)
get_events-put_events [] r = refl
get_events-put_events (e ∷ l) r =
    rw (get_event-put_event e (put_events l r), get_events-put_events l r)

abbrev whole : {A : Type 0} → Reader A → Outcome Text A
whole (ok (a, r)) = ok a
whole (err e) = err e
whole panic = panic

-- The empty list is `[]`; any other starts with a zero and its length.
abbrev logs_text : List Event → Text
logs_text [] = codes "[]"
logs_text (e ∷ l) = 0 ∷ length (e ∷ l) ∷ put_events (e ∷ l) []

abbrev logs_read : Text → Outcome Text (List Event)
logs_read (zero ∷ n ∷ r) = whole (get_events n r)
logs_read (suc c ∷ n ∷ r) = if c == 90 then ok [] else err (codes "bad json")
logs_read _ = err (codes "bad json")

logs_read-text : (l : List Event) → logs_read (logs_text l) ≡ ok l
logs_read-text [] = refl
logs_read-text (e ∷ l) = rw (get_events-put_events (e ∷ l) [])

abbrev pub codec : Serde NoHints
codec = record {
  event_to_string = λ e. put_event e [];
  event_from_str = λ t. whole (get_event t);
  logs_to_string = logs_text;
  logs_from_str = logs_read;
}

logs-ne-nil : (l : List Event) → logs_text l ≢ []
logs-ne-nil [] = λ h. cc
logs-ne-nil (e ∷ l) = λ h. cc

pub codec-IsLawful : IsLawful codec
codec-IsLawful = record {
  event_round = λ e. rw (get_event-put_event e []);
  logs_round = logs_read-text;
  event_ne_nil = λ e h. cc;
  logs_ne_nil = logs-ne-nil;
  logs_empty = refl;
}
