-- ===== src/Hub/Written.antt =====
-- expansionhub/main.cpp: what the daemon writes to its ports, in all the states that it reaches.
use scservices.Prelude.{Bool, ℕ, ◌≡◌, none, [], All}
use scservices.Platform.{Platform}
use scservices.Serial.Whole.Received.{IsHeard, AreSafe-IsHeard}
use scservices.Hub.Daemon.{States}
use scservices.Hub.Transaction.{OnHub-AreSafe}
use scservices.Hub.Reachable.{Reachable, Reachable-AreBuses}

module _ {p : Platform} where
  -- In every state that the daemon reaches from buses without a hub and without effects, each write that a bus
  -- has made to a port is heard: a receive machine that stands between packets takes all of it as whole
  -- packets, one after the other and each with a right checksum, and stands between packets again.
  pub Reachable-IsHeard :
      (can_enable : Bool) (start states : States p)
      → ((i : ℕ) → ((start i).current_hub ≡ none) × ((start i).effects ≡ []))
      → Reachable can_enable start states
      → (i : ℕ) → All IsHeard (states i).effects
  Reachable-IsHeard can_enable start states empty reached i =
      AreSafe-IsHeard can_enable (states i).effects (
        OnHub-AreSafe p can_enable (states i).current_hub (states i).effects
          (Reachable-AreBuses can_enable start states empty reached i))
