-- ===== src/Listener/Order.antt =====
-- A `HashMap` is walked in no particular order: two listeners whose maps hold the same in another
-- order, and whose streams have each been written the same.
pub mod Maps
pub mod Alike
use mathlib.Core.List.{Permᴰ}
use notifs_piper.Common.{ℕ, ◌≡◌, Outcome, ok, err, panic}
use notifs_piper.Text.{Text}
use notifs_piper.Listener.{Listener}
use Maps.{on}

pub record IsAlike {Hints : Type 0} (h k : Listener Hints) : Type 0 where
  pub active : Permᴰ h.active k.active
  pub listening : Permᴰ h.listening k.listening
  pub written : (s : ℕ) → on s h.written ≡ on s k.written
  pub channel : h.channel ≡ k.channel

-- Two tasks that end alike: with such listeners, with the same error, or both with a panic.
abbrev pub Agrees :
    {Hints : Type 0} → Outcome Text (Listener Hints) → Outcome Text (Listener Hints) → Type 0
Agrees (ok h) (ok k) = IsAlike h k
Agrees (err e) (err f) = e ≡ f
Agrees panic panic = Unit {0}
Agrees _ _ = ¬ Unit {0}
