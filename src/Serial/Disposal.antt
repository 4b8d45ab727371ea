-- ===== src/Serial/Disposal.antt =====
-- expansionhub/ExpansionHubSerial.cpp: what is left of a link that was initialised when it is destroyed.
use scservices.Prelude.{ℕ, ◌≡◌, refl, true, false, [], ◌∷◌, ◌++◌, Bytes, append_assoc}
use scservices.Platform.{Platform}
use scservices.Serial.{Session, input_flushed, poll_started, fd_closed}
use scservices.Serial.Lifetime.{initialize, destroy}

module _ {p : Platform} where
  -- The destructor of a link that `Initialize` has put on the event loop, and that had no poll before, closes
  -- the descriptor, but the poll that was started on it is not stopped.
  pub destroy-initialize :
      (s : Session p) (fd : ℕ) (path : Bytes)
      → s.serial.serial_poll ≡ false
      → (destroy (initialize true fd path s).0).effects
        ≡ s.effects ++ input_flushed fd ∷ poll_started fd ∷ fd_closed fd ∷ []
  unfolding destroy initialize
  destroy-initialize s fd path unset = simp (unset, append_assoc) refl
