-- ===== src/Client/Requests.antt =====
-- What the daemon reads of a client's request.
use notifs_piper.Common.{
  ℕ, ◌+◌, ◌≤◌, ◌<◌, ◌^◌, ◌%◌, ◌≡◌, refl, Bool, true, false, some, List, [], ◌∷◌, ok, err, panic,
  arith, inl, inr, Option-cases, ltb, length, not, if◌then◌else◌, ◌↔◌,
}
use notifs_piper.Text.{Text}
use notifs_piper.Text.Decimal.{max_of}
use notifs_piper.Payload.{Parsed}
use notifs_piper.Event.{Serde, IsLawful}
use notifs_piper.Job.{Desc, read}
use notifs_piper.Job.Wire.{job_desc_from_str, job_desc_to_string}
use notifs_piper.Job.RoundTrip.{IsInRange, job_desc_from_str-to_string}
use notifs_piper.Transmission.{
  Transmission, incoming, transmission_from_str, transmission_to_string,
}
use notifs_piper.Transmission.RoundTrip.{transmission_from_str-to_string}
use notifs_piper.Socket.{WriteEvent, write}
use notifs_piper.Socket.Writing.{write_loop-ok}
use notifs_piper.Flags.{is, silent, none_flag}
use notifs_piper.Manager.{read_logs}
use notifs_piper.Manager.Reading.{read_logs_panic_iff}
use notifs_piper.Execute.Bus.{Env, Server}
use notifs_piper.Execute.{execute, execute_read}
use notifs_piper.Client.{read_request, joined, Request, Peer, described, written, send, add_u16}

-- The numbers of a request are in the ranges of their types.
abbrev pub RequestInRange : {Hints : Type 0} → Request Hints → Type 0
RequestInRange r = IsInRange r.job × (r.pid ≤ max_of 32) × (r.flags ≤ max_of 8)

-- What the listener makes of the bytes: a transmission of this process, with this job.
abbrev pub IsReceived : {Hints : Type 0} → Serde Hints → Request Hints → Text → Type 0
IsReceived serde r bytes =
    (t : Text) × (transmission_from_str bytes ≡ ok (record { typ = incoming r.pid; data_text = t }))
    × (job_desc_from_str serde t ≡ ok (described serde r))

module _ {Hints : Type 0} {serde : Serde Hints} (lawful : IsLawful serde) (r : Request Hints) where
  written-IsReceived :
      (p : Parsed Text) (ws : List WriteEvent)
      → RequestInRange r
      → job_desc_to_string serde (described serde r) ≡ p
      → (written serde r ws p).result ≡ some (ok tt)
      → IsReceived serde r (written serde r ws p).bytes
  unfolding write
  written-IsReceived (ok text) ws (job, pid, flags) e h =
      let tr : Transmission = record { typ = incoming r.pid; data_text = text } in
      (
        text,
        rw (write_loop-ok (transmission_to_string tr) ws h)
            (transmission_from_str-to_string tr pid),
        job_desc_from_str-to_string lawful (described serde r) text job pid flags e,
      )
  written-IsReceived (err x) ws range e h = cc
  written-IsReceived panic ws range e h = cc

  -- If a client's `send!` returns `Ok`, the bytes that it has sent are parsed by the listener as a
  -- transmission of the pid of the request, which carries the job, the pid and the flags of the
  -- request.
  pub send-IsReceived :
      (peer : Peer)
      → RequestInRange r
      → (send serde r peer).result ≡ some (ok tt)
      → IsReceived serde r (send serde r peer).bytes
  unfolding send
  send-IsReceived peer range h = elim (Option-cases peer.connect_error) [
    | inl e ↦ rw e (
        written-IsReceived (job_desc_to_string serde (described serde r)) peer.writes range refl
          (rw e at h))
    | inr (x, e) ↦ let q = rw e at h in cc
  ]

add_u16-mod : (skip count : ℕ) → add_u16 false skip count ≡ ok ((skip + count) % 2 ^ 16)
unfolding add_u16
add_u16-mod skip count = ground arith

-- In a build that checks overflows, or where the sum fits, the window that a client asks for has
-- its start before its end; a build without the checks wraps the end around, before the start.
pub add_u16-wraps :
    (skip count : ℕ)
    → skip < 2 ^ 16
    → count < 2 ^ 16
    → (add_u16 true skip count ≡ (if ltb (skip + count) (2 ^ 16) then ok (skip + count) else panic))
      × ((end : ℕ) × (add_u16 false skip count ≡ ok end) × ((end < skip) ↔ (2 ^ 16 ≤ skip + count)))
unfolding add_u16
add_u16-wraps skip count hs hc = (
  ground arith,
  ((skip + count) % 2 ^ 16, add_u16-mod skip count, (λ h. omega arith, λ h. omega arith)),
)

-- In a build without overflow checks, a client that asks for a window whose end is past the
-- greatest `u16` gets a request that panics the manager, if the end wraps around to a place in the
-- buffer.
pub read_request-panic :
    {Hints : Type 0} (serde : Serde Hints) (env : Env) (desc : Desc) (s : Server Hints)
    (process_id count skip : ℕ) (quiet : Bool)
    → skip < 2 ^ 16
    → count < 2 ^ 16
    → 2 ^ 16 ≤ skip + count
    → (skip + count) % 2 ^ 16 < length s.man.logs_buffer
    → (r : Request Hints) × (read_request false process_id count skip quiet ≡ ok r)
      × (execute serde env r.job desc s ≡ panic)
unfolding read_request execute execute_read
read_request-panic {Hints = Hints} serde env desc s process_id count skip quiet hs hc past inside =
    let end = (skip + count) % 2 ^ 16 in
    let wrapped : read_logs s.man skip end (not (is silent desc.flags)) ≡ panic =
      (read_logs_panic_iff s.man skip end (not (is silent desc.flags))).1 (omega arith, inside) in
    let r : Request Hints = record {
      job = read skip end;
      flags = joined ((if quiet then silent else none_flag) ∷ []);
      pid = process_id;
    } in
    (r, rw (add_u16-mod skip count) refl, rw wrapped refl)
