-- ===== src/Serial/Lifetime.antt =====
-- expansionhub/ExpansionHubSerial.cpp: `Initialize`, `SetCallbacks`, `SerialPath` and the destructor.
use scservices.Prelude.{ℕ, Bool, true, Option, none, some, Bytes, if◌then◌else◌}
use scservices.Platform.{Platform}
use scservices.Serial.{
  ExpansionHubSerial, poll_started, poll_stopped, fd_closed, input_flushed, Session, emit,
  on_serial,
}

module _ {p : Platform} where
  -- `Initialize`; the first argument is whether the event loop makes a poll. The result is beside the
  -- state. `serialPoll` is not assigned.
  unfoldable pub initialize : Bool → ℕ → Bytes → Session p → Session p × Bool
  initialize has_poll fd path s =
      let opened =
        emit (input_flushed fd)
          (on_serial (λ r. record r { serial_fd = some fd; serial_path = path }) s) in
      if has_poll then (emit (poll_started fd) opened, true) else (opened, has_poll)

  abbrev pub close_fd : Option ℕ → Session p → Session p
  close_fd none s = s
  close_fd (some fd) s = emit (fd_closed fd) s

  -- The destructor.
  unfoldable pub destroy : Session p → Session p
  destroy s =
      let stopped = if s.serial.serial_poll then emit poll_stopped s else s in
      close_fd s.serial.serial_fd stopped

unfoldable pub set_callbacks : ExpansionHubSerial → ExpansionHubSerial
set_callbacks serial = record serial { has_callbacks = true }
