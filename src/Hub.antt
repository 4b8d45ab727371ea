-- ===== src/Hub.antt =====
-- expansionhub/main.cpp: `ExpansionHubState`, the state of one USB bus, and handlers on it.
pub mod Adds
pub mod Told
pub mod Declared
pub mod Named
pub mod Silenced
pub mod Commands
pub mod Keeps
pub mod Devices
pub mod Daemon
pub mod Transaction
pub mod Invariant
pub mod Reachable
pub mod Written
pub mod Answered
pub mod Plug
pub mod Plugged
pub mod Life
pub mod Initial
pub mod Exact
pub mod Recovery
pub mod Served
pub mod Recovered
pub mod Disabled
pub mod Powers
pub mod Start
use scservices.Prelude.{ℕ, zero, suc, Bool, Option, none, some, List, ◌>>=◌}
use scservices.Platform.{Platform, Moment}
use scservices.Topics.{Declaration}
use scservices.NtState.{ExpansionHubNtState}
use scservices.Serial.{ExpansionHubSerial, Effect, Session, Action, skip, ◌>=>◌}

-- The fields of `ExpansionHubState` (`socketHandle` is never set), and beside them what a `Session` has:
-- the readings of the outside and the effects so far; and the topics that `Initialize` of the store has made.
pub record ExpansionHubState (p : Platform) : Type 0 where
  pub last_loop : ℕ
  pub nt_store : ExpansionHubNtState p
  pub bus_id : ℕ
  pub current_hub : Option ExpansionHubSerial
  pub moments : ℕ → Moment p
  pub readings : ℕ
  pub effects : List (Effect p)
  pub topics : List Declaration

module _ {p : Platform} where
  -- A handler on the hub `serial` of a bus, and what it leaves.
  abbrev pub session : ExpansionHubState p → ExpansionHubSerial → Session p
  session h serial = record {
    serial = serial;
    store = h.nt_store;
    moments = h.moments;
    readings = h.readings;
    effects = h.effects;
  }

  abbrev pub leave :
      ExpansionHubState p → Option ExpansionHubSerial → Session p → ExpansionHubState p
  leave h serial s = record h {
    current_hub = serial;
    nt_store = s.store;
    moments = s.moments;
    readings = s.readings;
    effects = s.effects;
  }

  abbrev pub run_on :
      ExpansionHubState p → ExpansionHubSerial → Action p → Option (ExpansionHubState p)
  run_on h serial f = f (session h serial) >>= λ s. some (leave h (some s.serial) s)

  -- `for (int i = 0; i < n; i++)`: the rounds left, and the channel of the next.
  abbrev pub for_from : ℕ → ℕ → (ℕ → Action p) → Action p
  for_from zero i f = skip
  for_from (suc n) i f = f i >=> for_from n (suc i) f

  abbrev pub for_each : ℕ → (ℕ → Action p) → Action p
  for_each n = for_from n 0
