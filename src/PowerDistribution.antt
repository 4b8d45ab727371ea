-- ===== src/PowerDistribution.antt =====
-- powerdistribution/main.cpp: the daemon that publishes the frames of a power distribution device. A field
-- of `can_id` that the code masks out is a quotient and a remainder by powers of two.
pub mod Frames
pub mod Start
use scservices.Prelude.{
  ℕ, ◌+◌, ◌-◌, ◌*◌, ◌/◌, ◌%◌, ◌^◌, Bool, true, false, not, ◌&&◌, ◌||◌, Option, none, some, List, [],
  ◌∷◌, Bytes, take, ltb, leb, ◌==◌, if◌then◌else◌,
}

-- `canfd_frame`, up to its padding; `bytes` is `data`.
pub record CanFrame : Type 0 where
  pub can_id : ℕ
  pub len : ℕ
  pub flags : ℕ
  pub bytes : Bytes

-- What the daemon publishes on one bus.
pub data Published : Type 0 where
  device_id : ℕ → Published
  frame : ℕ → Bytes → Published
  reported_logic_error : Published

abbrev pub num_can_buses : ℕ
num_can_buses = 2

abbrev pub num_frames : ℕ
num_frames = 4

-- The filter of the socket, with `CAN_EFF_FLAG`.
abbrev pub filter_id : ℕ
filter_id = 0x88040000

abbrev pub filter_mask : ℕ
filter_mask = 0x9FFE0000

-- `flags & CANFD_FDF` and `can_id & CAN_ERR_FLAG`.
abbrev pub is_fd : CanFrame → Bool
is_fd f = f.flags / 2 ^ 2 % 2 == 1

abbrev pub is_error : CanFrame → Bool
is_error f = f.can_id / 2 ^ 29 % 2 == 1

-- `can_id & deviceTypeMask`, bits 24 to 29.
abbrev pub masked_device_type : ℕ → ℕ
masked_device_type id = id / 2 ^ 24 % 2 ^ 6 * 2 ^ 24

abbrev pub power_distribution_filter : ℕ
power_distribution_filter = 0x08000000

-- `(can_id >> 6) & 0x3FF`
abbrev pub api_id : ℕ → ℕ
api_id id = id / 2 ^ 6 % 2 ^ 10

-- `can_id & 0x1FFF003F`, bits 0 to 5 and 16 to 28.
abbrev pub device_id_of : ℕ → ℕ
device_id_of id = id % 2 ^ 6 + id / 2 ^ 16 % 2 ^ 13 * 2 ^ 16

-- `can_id & 0x10000`
abbrev pub is_rev : ℕ → Bool
is_rev id = id / 2 ^ 16 % 2 == 1

-- `frameNum`, or `none` where the frame is not valid.
unfoldable pub frame_num : ℕ → Option ℕ
frame_num id =
    if is_rev id
    then (if ltb (api_id id) 0x60 || not (leb (api_id id) 0x63)
        then none
        else some (api_id id - 0x60))
    else if api_id id == 0x5D
    then some 3
    else if ltb (api_id id) 0x50 || not (leb (api_id id) 0x52)
    then none
    else some (api_id id - 0x50)

-- `frameSpan`: the first `len` bytes of the data.
abbrev pub publish_frame : ℕ → CanFrame → List Published
publish_frame n f =
    device_id (device_id_of f.can_id)
    ∷ (if leb num_frames n then reported_logic_error else frame n (take f.len f.bytes))
    ∷ []

abbrev publish_valid : Option ℕ → CanFrame → List Published
publish_valid none f = []
publish_valid (some n) f = publish_frame n f

-- `CanState::handlePowerFrame`: what it publishes, in order.
unfoldable pub handle_power_frame : CanFrame → List Published
unfolding frame_num
handle_power_frame f = publish_valid (frame_num f.can_id) f

-- `CanState::handleCanFrame`.
unfoldable pub handle_can_frame : CanFrame → List Published
unfolding handle_power_frame
handle_can_frame f =
    if is_fd f
    then []
    else if masked_device_type f.can_id == power_distribution_filter
    then handle_power_frame f
    else []

abbrev pub can_mtu : ℕ
can_mtu = 16

abbrev pub canfd_mtu : ℕ
canfd_mtu = 72

-- The callback of the poll, for a frame read and what `read` returned, or `none` for an error.
unfoldable pub on_readable : Option ℕ → CanFrame → List Published
unfolding handle_can_frame
on_readable none f = []
on_readable (some r_val) f =
    if not (r_val == can_mtu) && not (r_val == canfd_mtu)
    then []
    else if is_error f
    then []
    else handle_can_frame (if r_val == canfd_mtu then record f { flags = 4 } else f)
