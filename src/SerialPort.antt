-- ===== src/SerialPort.antt =====
-- expansionhub/SerialPort.cpp: `OpenRhspSerialPort`. What the system answers is an argument.
use scservices.Prelude.{
  ℕ, Bool, true, false, Option, none, some, List, [], ◌∷◌, ◌≡◌, refl, if◌then◌else◌,
}

-- `termios`, up to the control characters, which are zero.
pub record Termios : Type 0 where
  pub ignore_break : Bool
  pub enable_receiver : Bool
  pub ignore_modem_lines : Bool
  pub data_bits : ℕ
  pub baud_rate : ℕ

pub data Call : Type 0 where
  opened : ℕ → Call
  attributes_set : ℕ → Termios → Call
  low_latency_set : ℕ → Call
  closed : ℕ → Call

abbrev pub rhsp_settings : Termios
rhsp_settings = record {
  ignore_break = true;
  enable_receiver = true;
  ignore_modem_lines = true;
  data_bits = 8;
  baud_rate = 460800;
}

-- The descriptor, or `none` for -1, and the calls. The result of the last `ioctl` is only printed.
unfoldable pub open_rhsp_serial_port : Option ℕ → Bool → Option ℕ × List Call
open_rhsp_serial_port none attributes_ok = (none, [])
open_rhsp_serial_port (some fd) attributes_ok =
    if attributes_ok
    then (some fd, opened fd ∷ attributes_set fd rhsp_settings ∷ low_latency_set fd ∷ [])
    else (none, opened fd ∷ closed fd ∷ [])

-- Is a descriptor open after these calls?
abbrev pub still_open : Bool → List Call → Bool
still_open before [] = before
still_open before (opened fd ∷ cs) = still_open true cs
still_open before (closed fd ∷ cs) = still_open false cs
still_open before (_ ∷ cs) = still_open before cs

abbrev pub has_fd : Option ℕ → Bool
has_fd none = false
has_fd (some fd) = true

-- A descriptor stays open exactly if it is the result, whatever the system answers.
pub open_rhsp_serial_port_lem :
    (answer : Option ℕ) (attributes_ok : Bool)
    → let (fd, calls) = open_rhsp_serial_port answer attributes_ok in
      still_open false calls ≡ has_fd fd
unfolding open_rhsp_serial_port
open_rhsp_serial_port_lem none ok = refl
open_rhsp_serial_port_lem (some fd) true = refl
open_rhsp_serial_port_lem (some fd) false = refl
