-- ===== src/PowerDistribution/Frames.antt =====
-- powerdistribution/main.cpp: which frames are published, and as what.
use scservices.Prelude.{
  Bool-cases, Option-cases, ap, ◌∙◌, zero, suc, if◌then◌else◌, inl, inr, ◌↔◌, sym, ℕ, ◌+◌, ◌*◌, ◌/◌,
  ◌%◌, ◌^◌, ◌<◌, ◌≡◌, ◌⊎◌, refl, arith, Bool, true, false, some, [], ◌∷◌, take, ◌==◌,
}
use mathlib.Core.Path.{subst}
use scservices.PowerDistribution.{
  CanFrame, device_id, frame, is_fd, is_error, frame_num, device_id_of, handle_power_frame,
  handle_can_frame, on_readable, api_id, is_rev, masked_device_type, filter_id, filter_mask,
  power_distribution_filter, can_mtu,
}

-- The fields of an extended CAN id, as FRC lays them out.
pub record Address : Type 0 where
  pub device_type : ℕ
  pub manufacturer : ℕ
  pub api : ℕ
  pub number : ℕ

abbrev pub IsAddress : Address → Type 0
IsAddress a = (a.device_type < 32) × (a.manufacturer < 256) × (a.api < 1024) × (a.number < 64)

abbrev pub id_of : Address → ℕ
id_of a = a.device_type * 2 ^ 24 + a.manufacturer * 2 ^ 16 + a.api * 2 ^ 6 + a.number

-- The number of a frame by the manufacturer's numbering: REV's four frames count from 0x60, CTRE's
-- first three from 0x50 and its fourth is 0x5D.
pub data Numbered (a : Address) : ℕ → Type 0 where
  rev : {n : ℕ} → a.manufacturer % 2 ≡ 1 → n < 4 → a.api ≡ 0x60 + n → Numbered a n
  ctre : {n : ℕ} → a.manufacturer % 2 ≡ 0 → n < 3 → a.api ≡ 0x50 + n → Numbered a n
  ctre_last : a.manufacturer % 2 ≡ 0 → a.api ≡ 0x5D → Numbered a 3

rev_lem : (a : Address) → IsAddress a → id_of a / 2 ^ 16 % 2 ≡ a.manufacturer % 2
rev_lem a h = omega arith

api_id_lem : (a : Address) → IsAddress a → api_id (id_of a) ≡ a.api
api_id_lem a h = omega arith

device_id_lem :
    (a : Address)
    → IsAddress a
    → device_id_of (id_of a + 2 ^ 31) ≡ a.device_type * 2 ^ 24 + a.manufacturer * 2 ^ 16 + a.number
device_id_lem a h = omega arith

frame_num-Numbered :
    (a : Address) (n : ℕ) → IsAddress a → Numbered a n → frame_num (id_of a) ≡ some n
unfolding frame_num
frame_num-Numbered a n h (rev m lt e) = ground (arith, rev_lem a h, api_id_lem a h)
frame_num-Numbered a n h (ctre m lt e) = ground (arith, rev_lem a h, api_id_lem a h)
frame_num-Numbered a n h (ctre_last m e) = ground (arith, rev_lem a h, api_id_lem a h)

frame_num-lt : (id n : ℕ) → frame_num id ≡ some n → n < 4
unfolding frame_num
frame_num-lt id n e = ground arith

Numbered-frame_num :
    (a : Address) (n : ℕ) → IsAddress a → frame_num (id_of a) ≡ some n → Numbered a n
unfolding frame_num
Numbered-frame_num a n h e = elim (Bool-cases (is_rev (id_of a))) [
  | inl is ↦
      rev (ground (arith, rev_lem a h)) (ground (arith, rev_lem a h, api_id_lem a h))
        (ground (arith, rev_lem a h, api_id_lem a h))
  | inr not_rev ↦ elim (Bool-cases (api_id (id_of a) == 0x5D)) [
    | inl last ↦
        (let three : n ≡ 3 = ground arith in
          subst (Numbered a) (sym three)
            (ctre_last (ground (arith, rev_lem a h)) (ground (arith, api_id_lem a h))))
    | inr other ↦
        ctre (ground (arith, rev_lem a h)) (ground (arith, rev_lem a h, api_id_lem a h))
          (ground (arith, rev_lem a h, api_id_lem a h))
  ]
]

-- A frame has a number by the code exactly if it has it by the manufacturer's numbering, whatever the
-- fields of its address.
pub frame_num-Numbered_iff :
    (a : Address) (n : ℕ) → IsAddress a → (frame_num (id_of a) ≡ some n) ↔ Numbered a n
frame_num-Numbered_iff a n h = (Numbered-frame_num a n h, frame_num-Numbered a n h)

-- An id as the socket delivers it, with the flag for an extended id, is numbered as its address is.
frame_num_flagged : (id : ℕ) → frame_num (id + 2 ^ 31) ≡ frame_num id
unfolding frame_num
frame_num_flagged id =
    let api : api_id (id + 2 ^ 31) ≡ api_id id = omega arith in
    let rev : is_rev (id + 2 ^ 31) ≡ is_rev id = ap (λ b. b == 1) (rev_flagged id) in
    rw (api, rev) refl
  where
    rev_flagged : (x : ℕ) → (x + 2 ^ 31) / 2 ^ 16 % 2 ≡ x / 2 ^ 16 % 2
    rev_flagged x = omega arith

-- Of a frame as the socket delivers it, with the flag for an extended id, and without the flag for FD, whose
-- address is that of a power distribution device and which is numbered `n`, the code publishes first the
-- device's id, which is the address without the number of the frame and without the flag, and then the first `len` bytes of its data as frame `n`.
pub handle_can_frame-Numbered :
    (f : CanFrame) (a : Address) (n : ℕ)
    → f.can_id ≡ id_of a + 2 ^ 31
    → is_fd f ≡ false
    → IsAddress a
    → a.device_type ≡ 8
    → Numbered a n
    → handle_can_frame f
      ≡ device_id (8 * 2 ^ 24 + a.manufacturer * 2 ^ 16 + a.number)
        ∷ frame n (take f.len f.bytes)
        ∷ []
unfolding handle_can_frame handle_power_frame
handle_can_frame-Numbered f a n id classic h pd k =
    let num = frame_num_flagged (id_of a) ∙ frame_num-Numbered a n h k in
    let small = frame_num-lt (id_of a + 2 ^ 31) n num in
    let typed : masked_device_type (id_of a + 2 ^ 31) ≡ power_distribution_filter = omega arith in
    let dev = device_id_lem a h in rw (id, classic, typed, num) (ground (arith, dev))

-- Whatever the frame, either nothing is published, or its device's id and its data as one of the four
-- frames: the report of a logic error is never reached.
pub handle_can_frame-cases :
    (f : CanFrame)
    → (handle_can_frame f ≡ [])
      ⊎ ((n : ℕ) × (n < 4)
          × (handle_can_frame f
              ≡ device_id (device_id_of f.can_id) ∷ frame n (take f.len f.bytes) ∷ []))
unfolding handle_can_frame handle_power_frame
handle_can_frame-cases f = elim (Option-cases (frame_num f.can_id)) [
  | inl e ↦ inl (ground arith)
  | inr (n, e) ↦
      let small = frame_num-lt f.can_id n e in
      elim (Bool-cases (is_fd f)) [
        | inl fd ↦ inl (rw fd refl)
        | inr classic ↦
            elim (Bool-cases (masked_device_type f.can_id == power_distribution_filter)) [
              | inl pd ↦ inr (n, small, rw (classic, pd, e) (ground arith))
              | inr other ↦ inl (rw (classic, other) refl)
            ]
      ]
]

-- Bitwise and, on the lowest `n` bits.
abbrev pub masked : ℕ → ℕ → ℕ → ℕ
masked zero mask id = 0
masked (suc n) mask id = (if mask % 2 == 1 then id % 2 else 0) + 2 * masked n (mask / 2) (id / 2)

-- The system's test of a received id against a filter of a socket.
abbrev pub passes_filter : ℕ → Bool
passes_filter id = masked 32 filter_mask id == masked 32 filter_mask filter_id

abbrev bit : ℕ → ℕ → ℕ
bit zero id = id % 2
bit (suc i) id = bit i (id / 2)

-- Ids that agree under a mask agree on each bit of it.
masked-bit :
    (i n mask x y : ℕ)
    → masked n mask x ≡ masked n mask y
    → i < n
    → bit i mask ≡ 1
    → bit i x ≡ bit i y
masked-bit i zero mask x y e lt set = absurd (omega arith)
masked-bit zero (suc n) mask x y e lt set = ground arith
masked-bit (suc i) (suc n) mask x y e lt set =
    masked-bit i n (mask / 2) (x / 2) (y / 2) (ground arith) (omega arith) set

-- A bit of a received id that the filter asks for.
passes_filter-bit :
    (id i : ℕ)
    → passes_filter id ≡ true
    → i < 32
    → bit i filter_mask ≡ 1
    → bit i id ≡ bit i filter_id
passes_filter-bit id i passes lt set =
    masked-bit i 32 filter_mask id filter_id (ground (arith, passes)) lt set

-- The type of a device, from its bits and from the flag for an error.
typed_lem :
    (id : ℕ)
    → bit 24 id ≡ 0
    → bit 25 id ≡ 0
    → bit 26 id ≡ 0
    → bit 27 id ≡ 1
    → bit 28 id ≡ 0
    → id / 2 ^ 29 % 2 ≡ 0
    → masked_device_type id ≡ power_distribution_filter
typed_lem id b0 b1 b2 b3 b4 b5 = omega arith

-- A classic frame that the filter of the socket, as the code sets it, lets through and that is no error frame is
-- handled as a frame of a power distribution device: the test of the device type refuses none of them.
pub on_readable-passes_filter :
    (f : CanFrame)
    → passes_filter f.can_id ≡ true
    → is_error f ≡ false
    → is_fd f ≡ false
    → on_readable (some can_mtu) f ≡ handle_power_frame f
unfolding on_readable handle_can_frame
on_readable-passes_filter f passes ok classic =
    let at = passes_filter-bit f.can_id in
    let typed : masked_device_type f.can_id ≡ power_distribution_filter =
      typed_lem f.can_id (at 24 passes (omega arith) refl) (at 25 passes (omega arith) refl)
        (at 26 passes (omega arith) refl) (at 27 passes (omega arith) refl)
        (at 28 passes (omega arith) refl) (ground arith) in
    rw (ok, classic, typed) refl
