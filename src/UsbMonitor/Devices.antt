-- ===== src/UsbMonitor/Devices.antt =====
-- expansionhub/SystemDUsbMonitor.cpp: what the callbacks may rely on.
use scservices.Prelude.{
  ℕ, ◌+◌, ◌<◌, ◌≡◌, refl, ap, sym, arith, Bool, true, false, not, Option, none, some, Bytes,
  if◌then◌else◌, ◌>>=◌, codes, Bool-cases, Option-cases, inl, inr,
}
use scservices.Hub.Devices.{num_usb_buses}
use scservices.UsbMonitor.{
  Device, Event, on_added, on_removed, bus_num, filename, dev_path, value_or, starts_with, last,
  device_added, device_removed,
}

-- A bus number that is found is in range, and its digit, from `1` on, is the last character of a path that starts with `3-1.`.
pub bus_num-last :
    (path : Bytes) (n : ℕ)
    → bus_num path ≡ some n
    → (n < num_usb_buses) × (starts_with (codes "3-1.") path ≡ true) × (last path ≡ some (b'1' + n))
unfolding bus_num
bus_num-last path n e = elim (Option-cases (last path)) [
  | inl empty ↦ absurd (ground arith)
  | inr (c, is) ↦ elim (Bool-cases (starts_with (codes "3-1.") path)) [
    | inl start ↦ ground arith
    | inr differs ↦ absurd (ground arith)
  ]
]

bind-some {ℓ ℓ'} :
    {A : Type ℓ} {B : Type ℓ'} (o : Option A) (f : A → Option B) {b : B}
    → (o >>= f) ≡ some b
    → (a : A) × (o ≡ some a) × (f a ≡ some b)
bind-some none f e = absurd (cc e)
bind-some (some a) f e = (a, refl, e)

-- A device that is reported as added is on a bus of the range, and is reported, when it is removed, under the
-- same path.
pub device_added-device_removed :
    (d : Device) (e : Event)
    → device_added d ≡ some e
    → (bus : ℕ) × (path : Bytes) × (bus < num_usb_buses)
      × (e ≡ on_added bus path)
      × (device_removed d ≡ some (on_removed path))
unfolding device_added device_removed
device_added-device_removed d e h = go d.has_bridge h
  where
    go :
        (b : Bool)
        → (if not b
            then none
            else (d.ftdi >>= λ ftdi. ftdi.id_model >>= λ model.
                bus_num (filename (value_or ftdi.syspath (codes "unknown"))) >>= λ bus.
                d.syspath >>= λ path. some (on_added bus (dev_path path))))
          ≡ some e
        → (bus : ℕ) × (path : Bytes) × (bus < num_usb_buses)
          × (e ≡ on_added bus path)
          × (device_removed d ≡ some (on_removed path))
    go false same = absurd (cc same)
    go true same =
        let (ftdi, _, k) = bind-some d.ftdi _ same in
        let (model, _, l) = bind-some ftdi.id_model _ k in
        let bus_path = filename (value_or ftdi.syspath (codes "unknown")) in
        let (bus, number, m) = bind-some (bus_num bus_path) _ l in
        let (path, sys, n) = bind-some d.syspath _ m in
        (
          bus,
          dev_path path,
          (bus_num-last bus_path bus number).0,
          sym (cc n),
          ap (λ o. o >>= λ q. some (on_removed (dev_path q))) sys,
        )
