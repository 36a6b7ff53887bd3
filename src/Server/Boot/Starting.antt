-- ===== src/Server/Boot/Starting.antt =====
-- The daemon behind `start`, and its runs.
use mathlib.Core.List.{Nodup}
use mathlib.Core.Path.{subst}
use notifs_piper.Common.{
  ◌≡◌, ◌≤◌, ◌<◌, refl, sym, true, false, none, List, length, ok, ok-injective, >>=-eq-ok, inr,
}
use notifs_piper.Event.{NotificationEvent, Serde, IsLawful}
use notifs_piper.Manager.Removal.{ids}
use notifs_piper.Exec.Persistence.{load}
use notifs_piper.Startup.{Files, initial}
use notifs_piper.Startup.Recovery.{new-initial}
use notifs_piper.Server.{Reach, State}
use notifs_piper.Server.Safety.{IsSafe, Reach-IsSafe}
use notifs_piper.Server.Session.{Session, begun, Moves, AllTame}
use notifs_piper.Server.Session.Distinct.{session-Nodup}
use notifs_piper.Server.Boot.{
  ServerConfig, Boot, Running, expect, propagated, socket_removed, bound, booted, quiet, start,
}

-- The steps of `start` that concern no logs go through.
abbrev pub NoFailure : Boot → Type 0
NoFailure b =
    (b.listener_rt_fails ≡ false)
    × (b.dbus_rt_fails ≡ false)
    × (b.bus_error ≡ none)
    × (socket_removed b.removal ≡ ok tt)
    × (b.bind_error ≡ none)

-- The buffer of a start: the file is read, and this is what it holds.
module _ {Hints : Type 0} (serde : Serde Hints) (boot : Boot) (config : ServerConfig) (f : Files)
    (l : List (NotificationEvent Hints)) where
  abbrev pub opened : Running Hints
  opened = record {
    session = begun (
        booted
          (record (initial config.listener_path config.logs_path config.logs_config l) {
            notifyer = true;
            interface = true;
          })
          f);
    listener = quiet;
    files = f;
  }

  -- If no other step fails, and the file of the logs is not refused, `start` goes through, with the
  -- buffer that the file holds, or the empty one if there is no file; it changes no file and queues
  -- no job, and the counter of ids starts at the greatest id of the buffer.
  pub start_lem :
      NoFailure boot
      → f.read_fails ≡ false
      → load serde f.logs ≡ ok l
      → start serde boot config f ≡ ok opened
  unfolding start
  start_lem (rt, rt', bus, gone, bind) read h =
      let made =
        new-initial serde config.listener_path config.logs_path config.logs_config f l read h in
      rw (rt, rt', made, bus, gone, bind) refl

  pub started_as :
      (r : Running Hints)
      → f.read_fails ≡ false
      → load serde f.logs ≡ ok l
      → start serde boot config f ≡ ok r
      → r ≡ opened
  unfolding start
  started_as r read h e =
      let made =
        new-initial serde config.listener_path config.logs_path config.logs_config f l read h in
      let (_, _, e1) = >>=-eq-ok (expect boot.listener_rt_fails) _ e in
      let (_, _, e2) = >>=-eq-ok (expect boot.dbus_rt_fails) _ e1 in
      let (_, _, e3) = >>=-eq-ok (propagated boot.bus_error) _ (rw made at e2) in
      let (_, _, e4) = >>=-eq-ok (socket_removed boot.removal) _ e3 in
      let (_, _, e5) = >>=-eq-ok (bound boot.bind_error) _ e4 in ok-injective (sym e5)

  -- If `start` goes through with a file that is not refused and holds logs with distinct ids, or
  -- with no file, the ids of the logs are distinct in every state that a run of the threads and of
  -- the calls of `notify` leads to, if each call replaces nothing or an id that the counter has
  -- reached, the counter stays below its greatest value, and no producer beside `notify` queues a
  -- broadcast.
  pub start-Nodup :
      (r : Running Hints) (s : Session Hints) (moves : Moves serde r.session s)
      → f.read_fails ≡ false
      → load serde f.logs ≡ ok l
      → start serde boot config f ≡ ok r
      → AllTame moves
      → Nodup (ids l)
      → Nodup (ids s.state.daemon.server.man.logs_buffer)
  start-Nodup r s moves read h e tame distinct =
      subst
        (λ q.
          (m : Moves serde q.session s)
          → AllTame m
          → Nodup (ids s.state.daemon.server.man.logs_buffer))
        (sym (started_as r read h e))
        (λ m t. session-Nodup opened.session.state.daemon s m t distinct) moves tame

  -- If the JSON of the logs is read back as printed, and `start` goes through with a file that is
  -- not refused and holds no more notifications than the bound, which is at least one, then in
  -- every state that the threads reach the buffer is within its bound, and either the manager is
  -- marked for writing or a start would read the buffer from the file.
  pub start-IsSafe :
      IsLawful serde
      → (r : Running Hints) (s : State Hints) → f.read_fails ≡ false
      → load serde f.logs ≡ ok l
      → start serde boot config f ≡ ok r
      → 0 < config.logs_config.max_logs
      → length l ≤ config.logs_config.max_logs
      → Reach serde r.session.state s
      → IsSafe serde s.daemon
  start-IsSafe lawful r s read h e room fits reach =
      subst (λ q. Reach serde q.session.state s → IsSafe serde s.daemon)
        (sym (started_as r read h e))
        (λ g. Reach-IsSafe lawful opened.session.state s g (inr h, (room, fits))) reach
