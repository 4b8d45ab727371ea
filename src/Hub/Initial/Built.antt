-- ===== src/Hub/Initial/Built.antt =====
-- expansionhub/main.cpp: the requests of `SendInitial` are packets that `SendPacket` builds, and none enables.
use scservices.Prelude.{
  ℕ, zero, suc, ◌<◌, ◌≢◌, arith, Bool, true, false, List, [], ◌∷◌, Bytes, length, All, All-append,
  Bool-cases, inl, inr, ◌==◌, to_u16,
}
use scservices.Packet.{build_packet}
use scservices.Packet.RoundTrip.{length-build_packet}
use scservices.Platform.{Platform, Moment}
use scservices.NtState.{ExpansionHubNtState}
use scservices.Serial.Keeps.{allow_length, allow_flag}
use scservices.Serial.Whole.{IsBuilt, build_packet-IsBuilt}
use scservices.Hub.Initial.{
  one_if, asks_reset, encoder_reset, encoder_resets, pulse_widths, initial_requests,
}

one_if-AreBuilt :
    (b : Bool) (asks : Bool) (packet : Bytes)
    → IsBuilt b packet
    → All (IsBuilt b) (one_if asks packet)
one_if-AreBuilt b true packet h = (h, tt)
one_if-AreBuilt b false packet h = tt

-- A packet whose payload is not of two bytes.
no_flag :
    {b : Bool} (a message id : ℕ) (pay : Bytes)
    → length pay < 1013
    → length pay ≢ 2
    → IsBuilt b (build_packet a message id pay)
no_flag {b} a message id pay h n = build_packet-IsBuilt a message id pay h (allow_length b pay n)

module _ {p : Platform} (b : Bool) (a i : ℕ) where
  encoder_resets-AreBuilt :
      (store : ExpansionHubNtState p) (moments : ℕ → Moment p) (reading n c : ℕ)
      → All (IsBuilt b) (encoder_resets a i store moments reading n c)
  encoder_resets-AreBuilt store moments reading zero c = tt
  encoder_resets-AreBuilt store moments reading (suc n) c =
      All-append (IsBuilt b) (one_if (asks_reset store (moments reading) c) (encoder_reset a i c)) _
        (one_if-AreBuilt b (asks_reset store (moments reading) c) (encoder_reset a i c)
          (no_flag a _ _ _ (omega arith) (ground arith)))
        (encoder_resets-AreBuilt store moments (suc reading) n (suc c))

  pulse_widths-AreBuilt :
      (moments : ℕ → Moment p) (reading n c : ℕ)
      → All (IsBuilt b) (pulse_widths a i moments reading n c)
  pulse_widths-AreBuilt moments reading zero c = tt
  pulse_widths-AreBuilt moments reading (suc n) c =
      let rest = pulse_widths-AreBuilt moments (suc reading) n (suc c) in
      elim (Bool-cases (to_u16 (((moments reading).servo c).pulse_width) == 0)) [
        | inl unset ↦ simp unset rest
        | inr width ↦ simp width (no_flag a _ _ _ (omega arith) (ground arith), rest)
      ]

  pub initial_requests-AreBuilt :
      (store : ExpansionHubNtState p) (moments : ℕ → Moment p) (reading : ℕ)
      → All (IsBuilt b) (initial_requests a i store moments reading)
  initial_requests-AreBuilt store moments reading = (
    no_flag a _ _ [] (omega arith) (ground arith),
    (
      no_flag a _ _ (1 ∷ []) (omega arith) (ground arith),
      All-append (IsBuilt b) (encoder_resets a i store moments reading 4 0) _
          (encoder_resets-AreBuilt store moments reading 4 0)
          (
            build_packet-IsBuilt a _ _ _ (omega arith) (allow_flag b false _ (ground arith)),
            (no_flag a _ _ [] (omega arith) (ground arith), pulse_widths-AreBuilt moments _ 6 0),
          ),
    ),
  )

-- A packet that is built has bytes.
pub AreBuilt-nonempty :
    (b : Bool) (qs : List Bytes) → All (IsBuilt b) qs → All (λ q. 0 < length q) qs
AreBuilt-nonempty b [] h = tt
AreBuilt-nonempty b (q ∷ qs) (h, hs) = (
  rw h.built_is (omega (arith, length-build_packet h.dest h.message h.id h.pay)),
  AreBuilt-nonempty b qs hs,
)
