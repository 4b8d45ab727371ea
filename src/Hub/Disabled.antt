-- ===== src/Hub/Disabled.antt =====
-- expansionhub/main.cpp: what is sent while the robot is disabled.
use scservices.Prelude.{
  ℕ, ◌<◌, ◌≡◌, refl, Bool, false, Option, none, some, List, [], ◌∷◌, ◌++◌, Bytes, All,
}
use scservices.Platform.{Platform}
use scservices.Serial.{
  ExpansionHubSerial, Effect, Session, written, poll_started, poll_stopped, fd_closed,
  input_flushed, published_int, published_double, published_bool,
}
use scservices.Serial.Queue.{concat, IsQueued}
use scservices.Serial.Keeps.{Ends}
use scservices.Serial.Sending.{IsKnown}
use scservices.Serial.Flow.Port.{port_bytes}
use scservices.Serial.Whole.{IsBuilt, AreSafe}
use scservices.Hub.Daemon.{States}
use scservices.Hub.Transaction.{OnHub-AreSafe}
use scservices.Hub.Reachable.{Reachable, Reachable-AreBuses}
use scservices.Hub.Adds.{IsUnenabling, Has, Has-IsSendable, start-Adds}
use scservices.Hub.Commands.{send_commands}
use scservices.Hub.Keeps.{send_commands-Keeps}

built-IsUnenabling : (qs : List Bytes) → All (IsBuilt false) qs → All IsUnenabling qs
built-IsUnenabling [] h = tt
built-IsUnenabling (q ∷ qs) (b, bs) = (
  record {
    dest = b.dest;
    message = b.message;
    id = b.id;
    pay = b.pay;
    built_is = b.built_is;
    enables_none = b.allowed refl;
  },
  built-IsUnenabling qs bs,
)

module _ {p : Platform} where
  -- `SendCommands` while the hub is not to be enabled, on a known link with a queue in order, whatever the topics
  -- say and whatever the hub has acknowledged: it ends, and all that it adds to what was written and what waits
  -- is packets none of which has the payload, a channel and a 1, that asks to enable a motor or a servo.
  pub send_commands-disabled :
      (device_reset : Bool) (s : Session p) (sent : Bytes) (queue : List Bytes)
      → (known : IsKnown s.serial) → s.serial.outstanding_messages < 256
      → IsQueued s.serial sent queue
      → (t : Session p) × (send_commands false device_reset s ≡ some t)
        × Has p known.address known.interface
            (port_bytes s.effects ++ concat queue)
            (λ added. Unit)
            t.serial
            t.effects
  send_commands-disabled device_reset s sent queue known small q =
      let before = port_bytes s.effects ++ concat queue in
      let a = known.address in
      let i = known.interface in
      ended (Has p a i before (λ added. Unit)) (send_commands false device_reset s) (
        send_commands-Keeps p ⊥ (Has p a i before (λ added. Unit)) false
          (Has-IsSendable p a i before (λ added. Unit) (λ added packet h. h)) false device_reset
          (λ on. on) s
          (
            [],
            start-Adds p a i before s sent queue known.address_is known.interface_is small q refl,
            tt,
          ))
    where
      ended :
          (P : ExpansionHubSerial → List (Effect p) → Type 0) (m : Option (Session p))
          → Ends p ⊥ P m
          → (t : Session p) × (m ≡ some t) × P t.serial t.effects
      ended P none e = absurd e
      ended P (some t) e = (t, refl, e)

  -- What is written to a port is such packets, whole and one after the other.
  abbrev pub EnablesNone : Effect p → Type 0
  EnablesNone (written bytes) =
      (packets : List Bytes) × (bytes ≡ concat packets) × All IsUnenabling packets
  EnablesNone _ = Unit

  AreSafe-EnablesNone : (es : List (Effect p)) → AreSafe false es → All EnablesNone es
  AreSafe-EnablesNone [] h = tt
  AreSafe-EnablesNone (written bytes ∷ es) (w, h) =
      ((w.packets, w.bytes_are, built-IsUnenabling w.packets w.are_built), AreSafe-EnablesNone es h)
  AreSafe-EnablesNone (poll_started n ∷ es) (w, h) = (tt, AreSafe-EnablesNone es h)
  AreSafe-EnablesNone (poll_stopped ∷ es) (w, h) = (tt, AreSafe-EnablesNone es h)
  AreSafe-EnablesNone (fd_closed n ∷ es) (w, h) = (tt, AreSafe-EnablesNone es h)
  AreSafe-EnablesNone (input_flushed n ∷ es) (w, h) = (tt, AreSafe-EnablesNone es h)
  AreSafe-EnablesNone (published_int t v ∷ es) (w, h) = (tt, AreSafe-EnablesNone es h)
  AreSafe-EnablesNone (published_double t v ∷ es) (w, h) = (tt, AreSafe-EnablesNone es h)
  AreSafe-EnablesNone (published_bool t v ∷ es) (w, h) = (tt, AreSafe-EnablesNone es h)

  -- In every state that the daemon reaches from buses without a hub and without effects while the robot is disabled
  -- at each event of the timer, whatever the topics ask for, hubs come and go and bytes arrive: all that any bus
  -- has written to a port is whole packets none of which has the payload, a channel and a 1, that asks to enable a
  -- motor or a servo.
  pub Reachable-EnablesNone :
      (start states : States p)
      → ((i : ℕ) → ((start i).current_hub ≡ none) × ((start i).effects ≡ []))
      → Reachable false start states
      → (i : ℕ) → All EnablesNone (states i).effects
  Reachable-EnablesNone start states empty reached i = AreSafe-EnablesNone (states i).effects (
      OnHub-AreSafe p false (states i).current_hub (states i).effects
        (Reachable-AreBuses false start states empty reached i))
