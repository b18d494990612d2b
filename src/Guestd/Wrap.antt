-- ===== src/Guestd/Wrap.antt =====
-- crates/guestd/src/wrap.rs: turn boundaries inferred from a wrapped process's output. The two
-- atomics of `TurnTracker` are fields; one reader thread writes them.
pub mod Agreement
use sleepwalk.Prelude.{
  ℕ, ◌+◌, ◌%◌, ◌^◌, ◌≡◌, refl, Bool, true, false, ◌&&◌, ◌||◌, Option, none, some, List, [], ◌∷◌,
  arith, leb, ◌==◌, if◌then◌else◌,
}
use sleepwalk.Prelude.Strings.{trim}
use sleepwalk.Prelude.Results.{Result, ok, err, Method, pure, gets, ◌>>=◌, ◌>>◌}
use sleepwalk.Proto.Ids.{Text, TurnId, Timestamp}
use sleepwalk.Proto.Compat.{same_text}
use sleepwalk.Guestd.Channel.{GuestChannel}
use sleepwalk.Guestd.Guest.{Guest, GuestError, begin_observed_turn, end_turn}

pub data TurnSignal : Type 0 where
  start end : TurnSignal

pub record WrapConfig : Type 0 where
  pub start_marker : Text
  pub end_marker : Text

-- `WrapConfig::default`: "@@TURN_START@@" and "@@TURN_END@@".
abbrev pub default_config : WrapConfig
default_config = record {
  start_marker = 64 ∷ 64 ∷ 84 ∷ 85 ∷ 82 ∷ 78 ∷ 95 ∷ 83 ∷ 84 ∷ 65 ∷ 82 ∷ 84 ∷ 64 ∷ 64 ∷ [];
  end_marker = 64 ∷ 64 ∷ 84 ∷ 85 ∷ 82 ∷ 78 ∷ 95 ∷ 69 ∷ 78 ∷ 68 ∷ 64 ∷ 64 ∷ [];
}

-- `WrapConfig::classify`
unfoldable pub classify : WrapConfig → Text → Option TurnSignal
classify cfg line =
    if same_text (trim line) cfg.start_marker
    then some start
    else if same_text (trim line) cfg.end_marker
    then some end
    else none

abbrev is_none {ℓ} : {A : Type ℓ} → Option A → Bool
is_none none = true
is_none (some a) = false

-- `apply_signal`
unfoldable pub apply_signal :
    (ch : GuestChannel) → TurnSignal → Timestamp → Method (Guest ch.Conn) GuestError (Unit {0})
apply_signal ch start now = do
  idle ← gets λ g. is_none g.in_flight
  if idle then (begin_observed_turn ch now >>= λ _. pure tt) else pure tt
apply_signal ch end now = do
  idle ← gets λ g. is_none g.in_flight
  if idle then pure tt else end_turn ch now

pub record TurnTracker : Type 0 where
  pub in_turn : Bool
  pub last_id : ℕ

-- `TurnTracker::new`
abbrev pub new_tracker : TurnTracker
new_tracker = record { in_turn = false; last_id = 0 }

-- `TurnTracker::apply`; `fetch_add` wraps.
unfoldable pub apply : TurnSignal → TurnTracker → TurnTracker
apply start t =
    if t.in_turn then t else record { in_turn = true; last_id = (t.last_id + 1) % 2 ^ 64 }
apply end t = record t { in_turn = false }

-- `TurnTracker::in_flight`
unfoldable pub in_flight : TurnTracker → Option TurnId
in_flight t = if t.in_turn then some (record { counter = t.last_id }) else none
