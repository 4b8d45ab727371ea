-- ===== src/Hub/Answered/Queued.antt =====
-- expansionhub/main.cpp: what `SendCommands` puts into the queue of a transaction.
use scservices.Prelude.{ℕ, suc, arith, Bool, List, Bytes}
use scservices.Platform.{Platform}
use scservices.Serial.{Action, with_address, with_interface}
use scservices.Serial.Requests.{send_motor_constant_power}
use scservices.Serial.Keeps.{Runs, allow_length}
use scservices.Serial.Flow.Commands.{
  Sends, Sent, IsCommands, send_packet-Sends, flush-Sends, Sends-IsSendable,
}
use scservices.Hub.Commands.{send_commands}
use scservices.Hub.Keeps.{send_commands-Runs}

module _ (p : Platform) (can_enable : Bool) (base : Bytes) (sofar : List Bytes) (l : ℕ) where
  address-Sends :
      (n : ℕ) (f : ℕ → Action p)
      → ((a : ℕ)
          → Runs p ⊥
              (Sends can_enable base sofar l n)
              (Sends can_enable base sofar l (suc n))
              (f a))
      → Runs p ⊥
          (Sends can_enable base sofar l n)
          (Sends can_enable base sofar l (suc n))
          (with_address f)
  address-Sends n f k s h = let e = h.known.address_is in simp e (k h.known.address s h)

  interface-Sends :
      (n : ℕ) (f : ℕ → Action p)
      → ((a : ℕ)
          → Runs p ⊥
              (Sends can_enable base sofar l n)
              (Sends can_enable base sofar l (suc n))
              (f a))
      → Runs p ⊥
          (Sends can_enable base sofar l n)
          (Sends can_enable base sofar l (suc n))
          (with_interface f)
  interface-Sends n f k s h = let e = h.known.interface_is in simp e (k h.known.interface s h)

  send_motor_constant_power-Sends :
      (i : ℕ) (power : p.Double)
      → Runs p ⊥
          (Sends can_enable base sofar l 0)
          (Sends can_enable base sofar l 1)
          (send_motor_constant_power i power)
  unfolding send_motor_constant_power
  send_motor_constant_power-Sends i power = interface-Sends 0 _ (λ j. address-Sends 0 _ (λ a.
      send_packet-Sends p can_enable base sofar l 0 a _ _ _ (omega arith)
        (allow_length can_enable _ (ground arith))))

-- `SendCommands` is what a transaction expects of its callback.
pub send_commands-IsCommands : (p : Platform) → IsCommands p send_commands
send_commands-IsCommands p base sofar l b d =
    send_commands-Runs p ⊥ (Sends b base sofar l 0) (Sends b base sofar l 1) (Sent b base sofar l 1)
      b (Sends-IsSendable p b base sofar l 1) (flush-Sends p b base sofar l 1)
      (send_motor_constant_power-Sends p b base sofar l) b d (λ e. e)
