-- ===== src/Hub/Life.antt =====
-- expansionhub/main.cpp: a hub from the opening of its port to the end of its first transaction.
use scservices.Prelude.{ℕ, Bool}
use scservices.Receiver.Frames.{Framed}
use scservices.Platform.{Platform}
use scservices.Serial.{ExpansionHubSerial}
use scservices.Serial.Sending.{IsKnown}
use scservices.Serial.Flow.Port.{port_bytes}
use scservices.Hub.{ExpansionHubState}
use scservices.Hub.Devices.{on_update}
use scservices.Hub.Plugged.{IsConnected, Connects}
use scservices.Hub.Served.{IsServed, requests_at}

-- The hub of a link that is connected is known.
abbrev pub connected-IsKnown :
    {source id : ℕ} {r : ExpansionHubSerial} → IsConnected source id r → IsKnown r
connected-IsKnown {source} {id} c = record {
  address = source;
  interface = id;
  address_is = c.address_is;
  interface_is = c.interface_is;
}

module _ {p : Platform} where
  -- The update behind the handshake of `h1` and `h2`, and the transaction that it begins.
  pub record Lives (b : Bool) (source id : ℕ) (packets replies : ℕ → Framed)
      (h h1 h2 : ExpansionHubState p) : Type 0 where
    pub connects : Connects source id packets h h1 h2
    pub is_served :
        IsServed b
          (requests_at (connected-IsKnown connects.connected_is) h2)
          0
          replies
          (port_bytes h2.effects)
          (on_update b h2)
