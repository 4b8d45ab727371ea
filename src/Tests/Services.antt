-- ===== src/Tests/Services.antt =====
-- The smaller parts at concrete values: CAN frames, devices, control data and topics.
use scservices.Prelude.{
  ℕ, ◌+◌, ◌*◌, ◌^◌, ◌<◌, ◌≤◌, ◌≡◌, ◌≢◌, ◌↔◌, ◌⊎◌, refl, arith, true, false, ◌&&◌, Option, none,
  some, [], ◌∷◌, ◌++◌, Bytes, All, ltb, if◌then◌else◌, codes,
}
use scservices.PowerDistribution.{
  CanFrame, device_id, frame, frame_num, device_id_of, handle_power_frame, handle_can_frame,
  on_readable, num_can_buses,
}
use scservices.PowerDistribution.Frames.{
  Address, id_of, Numbered, rev, frame_num-Numbered_iff, handle_can_frame-Numbered,
  handle_can_frame-cases, on_readable-passes_filter,
}
use scservices.PowerDistribution.Start
use scservices.PowerDistribution.Start.{grants, start_uv_loop_lem, main-grants}
use scservices.UsbMonitor.{Device, on_added, on_removed, device_added, device_removed}
use scservices.UsbMonitor.Devices.{device_added-device_removed}
use scservices.EnabledState
use scservices.EnabledState.Laws.{initialize_lem, is_enabled_line}
use scservices.Topics
use scservices.Topics.{name_of, initialize_disjoint}

-- The third frame of a REV device with the number 1, and a frame of eight bytes.
abbrev rev_2 : Address
rev_2 = record { device_type = 8; manufacturer = 5; api = 0x62; number = 1 }

abbrev rev_frame : CanFrame
rev_frame = record { can_id = id_of rev_2; len = 2; flags = 0; bytes = 10 ∷ 11 ∷ 12 ∷ [] }

-- As the socket delivers it, with the flag for the extended format.
abbrev delivered_frame : CanFrame
delivered_frame = record rev_frame { can_id = id_of rev_2 + 2 ^ 31 }

frame_num-Numbered_iff_example : (frame_num (id_of rev_2) ≡ some 2) ↔ Numbered rev_2 2
frame_num-Numbered_iff_example = frame_num-Numbered_iff rev_2 2 (omega arith)

handle_can_frame-Numbered_example :
    handle_can_frame delivered_frame
    ≡ device_id (8 * 2 ^ 24 + 5 * 2 ^ 16 + 1) ∷ frame 2 (10 ∷ 11 ∷ []) ∷ []
handle_can_frame-Numbered_example =
    handle_can_frame-Numbered delivered_frame rev_2 2 refl refl (omega arith) refl
      (rev refl (omega arith) refl)

handle_can_frame-cases_example :
    (handle_can_frame rev_frame ≡ [])
    ⊎ ((n : ℕ) × (n < 4)
        × (handle_can_frame rev_frame
            ≡ device_id (device_id_of (id_of rev_2)) ∷ frame n (10 ∷ 11 ∷ []) ∷ []))
handle_can_frame-cases_example = handle_can_frame-cases rev_frame

on_readable-passes_filter_example :
    on_readable (some 16) delivered_frame ≡ handle_power_frame delivered_frame
on_readable-passes_filter_example = on_readable-passes_filter delivered_frame refl refl refl

abbrev granted : Start.System
granted = record { socket = some 7; setsockopt = true; ioctl = true; bind = true; poll = true }

abbrev no_bind : Start.System
no_bind = record granted { bind = false }

start_uv_loop_lem_example :
    ((Start.start_uv_loop no_bind 1 Start.new_state).1 ≡ (ltb 1 num_can_buses && grants no_bind))
    × ((Start.start_uv_loop no_bind 1 Start.new_state).0.socket_handle
        ≡ (if ltb 1 num_can_buses then some 7 else none))
start_uv_loop_lem_example = start_uv_loop_lem no_bind 1

abbrev hub_device : Device
hub_device = record {
  has_bridge = true;
  ftdi = some (record {
    id_model = some (codes "FT230X_First_2.0");
    syspath = some (codes "/sys/devices/3-1.2");
  });
  syspath = some (codes "/sys/devices/3-1.2/ttyUSB0");
  subsystem = some (codes "usb-serial");
}

device_added-device_removed_example :
    (bus : ℕ) × (path : Bytes) × (bus < 4)
    × (on_added 1 (codes "/dev/ttyUSB0") ≡ on_added bus path)
    × (device_removed hub_device ≡ some (on_removed path))
unfolding device_added
device_added-device_removed_example =
    device_added-device_removed hub_device (on_added 1 (codes "/dev/ttyUSB0")) refl

-- `open` succeeds at the third try.
abbrev third : ℕ → Option ℕ
third i = if ltb i 2 then none else some 9

initialize_lem_example :
    ((2 ≤ 1) ⊎ (third 1 ≡ none))
    × (((fd : ℕ) × (2 < 50) × (third 2 ≡ some fd) × ((EnabledState.initialize third).0 ≡ some fd))
        ⊎ (((EnabledState.initialize third).1 ≡ 50) × ((EnabledState.initialize third).0 ≡ none)))
unfolding EnabledState.initialize
initialize_lem_example = initialize_lem third 1

is_enabled_line_example :
    EnabledState.is_enabled (some 9) (some (codes "3a" ++ b'9' ∷ 10 ∷ [])) ≡ some true
is_enabled_line_example =
    is_enabled_line 9 b'9' 9 (codes "3a") (refl, (refl, tt)) refl (omega arith) (omega arith)

initialize_disjoint_example :
    All
      (λ d. All (λ e. name_of d ≢ name_of e) (Topics.initialize false 3))
      (Topics.initialize false 0)
initialize_disjoint_example = initialize_disjoint 0 3 (omega arith) (omega arith) (omega arith)
