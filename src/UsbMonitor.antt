-- ===== src/UsbMonitor.antt =====
-- expansionhub/SystemDUsbMonitor.{h,cpp}: which serial devices come and go, by what systemd's device library
-- answers of each.
pub mod Devices
use scservices.Prelude.{
  ℕ, ◌+◌, ◌-◌, Bool, true, false, not, ◌&&◌, ◌||◌, Option, none, some, List, [], ◌∷◌, ◌++◌, Bytes,
  length, get_elem?, ltb, leb, ◌==◌, if◌then◌else◌, ◌>>=◌, codes,
}
use scservices.Hub.Devices.{num_usb_buses, same_path}

-- What `sd_device_get_parent`, `_get_property_value`, `_get_syspath` and `_get_subsystem` answer: `none` for
-- an error or a null pointer.
pub record UsbParent : Type 0 where
  pub id_model : Option Bytes
  pub syspath : Option Bytes

pub record Device : Type 0 where
  -- the bridge, and its parent, the FTDI chip
  pub has_bridge : Bool
  pub ftdi : Option UsbParent
  pub syspath : Option Bytes
  pub subsystem : Option Bytes

pub data DeviceAction : Type 0 where
  bind remove other : DeviceAction

-- The two callbacks, with the bus number and the path of the port.
pub data Event : Type 0 where
  on_added : ℕ → Bytes → Event
  on_removed : Bytes → Event

-- `std::filesystem::path::filename`: what follows the last `/`.
abbrev filename_from : Bytes → Bytes → Bytes
filename_from acc [] = acc
filename_from acc (c ∷ cs) =
    let rest = filename_from (acc ++ c ∷ []) cs in
    let anew = filename_from [] cs in if c == b'/' then anew else rest

abbrev pub filename : Bytes → Bytes
filename path = filename_from [] path

-- `"/dev"` with the filename appended.
abbrev pub dev_path : Bytes → Bytes
dev_path syspath = codes "/dev/" ++ filename syspath

abbrev pub starts_with : Bytes → Bytes → Bool
starts_with [] s = true
starts_with (p ∷ ps) [] = false
starts_with (p ∷ ps) (c ∷ cs) = p == c && starts_with ps cs

abbrev pub last : Bytes → Option ℕ
last [] = none
last (c ∷ []) = some c
last (c ∷ d ∷ cs) = last (d ∷ cs)

abbrev pub value_or : Option Bytes → Bytes → Bytes
value_or none d = d
value_or (some v) d = v

-- The bus number of a bus path: `none` for a path or a number that is not valid. A last character below
-- `1` makes the number negative.
unfoldable pub bus_num : Bytes → Option ℕ
bus_num bus_path =
    if not (starts_with (codes "3-1.") bus_path)
    then none
    else (last bus_path >>= λ c.
        if ltb c b'1' || leb num_usb_buses (c - b'1') then none else some (c - b'1'))

-- `SystemDUsbMonitor::OnDeviceAdded`. A model that is not known is printed and not refused.
unfoldable pub device_added : Device → Option Event
unfolding bus_num
device_added device =
    if not device.has_bridge
    then none
    else (device.ftdi >>= λ ftdi. ftdi.id_model >>= λ model.
        bus_num (filename (value_or ftdi.syspath (codes "unknown"))) >>= λ bus.
        device.syspath >>= λ path. some (on_added bus (dev_path path)))

-- `SystemDUsbMonitor::OnDeviceRemoved`.
unfoldable pub device_removed : Device → Option Event
device_removed device = device.syspath >>= λ path. some (on_removed (dev_path path))

-- `SystemDUsbMonitor::DeviceHandler`, of an event of the monitor.
unfoldable pub device_handler : DeviceAction → Device → Option Event
unfolding device_added device_removed
device_handler bind device = device_added device
device_handler remove device = device_removed device
device_handler other device = none

abbrev event_list : Option Event → List Event
event_list none = []
event_list (some e) = e ∷ []

-- `SystemDUsbMonitor::DoInitialCheck`, over the devices of the enumerator.
unfoldable pub do_initial_check : List Device → List Event
unfolding device_added
do_initial_check [] = []
do_initial_check (d ∷ ds) =
    let rest = do_initial_check ds in
    if same_path (value_or d.subsystem (codes "UNKNOWN")) (codes "usb-serial")
    then event_list (device_added d) ++ rest
    else rest

-- The answers of systemd to `Initialize`, and the state that it leaves: whether `sdEvent` is set, and `fd`.
pub record Monitor : Type 0 where
  pub new_ok : Bool
  pub filter_ok : Bool
  pub start_ok : Bool
  pub event_ok : Bool
  pub event_fd : Option ℕ

pub record SystemDUsbMonitor : Type 0 where
  pub has_event : Bool
  pub fd : Option ℕ

abbrev take_fd : Option ℕ → SystemDUsbMonitor × Bool
take_fd none = (record { has_event = true; fd = none }, false)
take_fd (some fd) = (record { has_event = true; fd = some fd }, true)

-- `SystemDUsbMonitor::Initialize`.
unfoldable pub initialize : Monitor → SystemDUsbMonitor × Bool
initialize m =
    if not (m.new_ok && (m.filter_ok && (m.start_ok && m.event_ok)))
    then (record { has_event = false; fd = none }, false)
    else take_fd m.event_fd

-- `HandleEvent`: does it run the event loop of systemd?
abbrev pub handle_event : SystemDUsbMonitor → Bool
handle_event s = s.has_event
