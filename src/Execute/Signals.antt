-- ===== src/Execute/Signals.antt =====
-- The jobs of server/jobs/signals.rs, and the emission of a signal, which they share with `Close`.
use notifs_piper.Common.{ℕ, Bool, true, not, ◌&&◌, Option, none, some, [], ◌∷◌, ◌++◌, if◌then◌else◌}
use notifs_piper.Text.{Text, codes}
use notifs_piper.Flags.{is, force}
use notifs_piper.Event.{NotificationEvent}
use notifs_piper.Job.{Desc}
use notifs_piper.Fulfilled.{EventType, FulfilledJob, event, other, value, failure}
use notifs_piper.Manager.{find}
use notifs_piper.Execute.Bus.{Env, Signal, Server, dropped}

abbrev pub unset_interface : Text
unset_interface = codes "Interface unset in manager. Function 'start_server' has a problem."

module _ {Hints : Type 0} where
  -- The body of `block_on`: the interface is looked up, then the signal is emitted.
  unfoldable pub emit : Env → Text → Signal → EventType → Server Hints → Server Hints × FulfilledJob
  emit env failed signal ev s =
      if not s.man.interface
      then (s, record { result = failure unset_interface; typ = event ev })
      else if not env.interface_found
      then (s, record { result = failure (codes "Cannot connect to interface."); typ = event ev })
      else if not env.emits
      then (s, record { result = failure failed; typ = event ev })
      else (
        record s { emitted = s.emitted ++ signal ∷ [] },
        record { result = value (some []); typ = event ev },
      )

  unfoldable pub run_signal :
      Env → Text → Signal → EventType → Server Hints → Server Hints × FulfilledJob
  run_signal env failed signal ev s = elim env.runtime_error [
    | none ↦ emit env failed signal ev s
    | some e ↦ (s, record { result = failure e; typ = other })
  ]

  -- `ne.is_none_or(|ne| ne.closed())`
  abbrev pub none_or_closed : Option (NotificationEvent Hints) → Bool
  none_or_closed none = true
  none_or_closed (some ne) = ne.closed

  -- `derive_signal!`
  unfoldable pub execute_signal :
      Env → ℕ → Signal → EventType → Desc → Server Hints → Server Hints × FulfilledJob
  execute_signal env id signal ev desc s =
      if none_or_closed (find id s.man.logs_buffer) && not (is force desc.flags)
      then dropped s
      else run_signal env (codes "Cannot emit signal.") signal ev s
