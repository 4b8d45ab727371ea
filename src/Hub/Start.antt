-- ===== src/Hub/Start.antt =====
-- expansionhub/main.cpp: `main`, up to the wait for a signal. What the system answers is an argument.
use scservices.Prelude.{
  ℕ, ◌<◌, ◌≤◌, ◌≡◌, ◌⊎◌, inl, inr, refl, arith, Bool, true, false, not, Option, none, some, List,
  [], ◌∷◌, if◌then◌else◌, ℤ, pos, negsuc, Bool-cases,
}
use scservices.Platform.{Platform}
use scservices.EnabledState
use scservices.EnabledState.Laws.{initialize_lem}
use scservices.UsbMonitor.{Device, Event, Monitor, SystemDUsbMonitor, do_initial_check}
use scservices.UsbMonitor
use scservices.Hub.Devices.{num_usb_buses, start_uv_loop}
use scservices.Hub.Daemon.{States, start_buses}

-- The answers of `open` for the control data, of systemd, of `Poll::Create`, and the devices of the enumerator.
pub record System : Type 0 where
  pub control : ℕ → Option ℕ
  pub monitor : Monitor
  pub poll : Bool
  pub devices : List Device

-- What the event loop is set to do, in order.
pub data Setup : Type 0 where
  poll_started : Option ℕ → Setup
  timer_started : ℕ → Setup
  found : List Event → Setup

-- `PidConstants::Period`, in milliseconds.
abbrev pub period : ℕ
period = 12

abbrev setup : System → List Setup × Bool
setup sys =
    let (monitor, ok) = UsbMonitor.initialize sys.monitor in
    if not ok then ([], false) else if not sys.poll then ([], false) else (
      poll_started monitor.fd ∷ timer_started period ∷ found (do_initial_check sys.devices) ∷ [],
      true,
    )

module _ {p : Platform} where
  abbrev run_loop : System → States p × Bool → States p × List Setup × ℤ
  run_loop sys (states, false) = (states, [], negsuc 0)
  run_loop sys (states, true) =
      let (done, success) = setup sys in (states, done, if success then pos 0 else negsuc 0)

  abbrev after_control : Option ℕ → System → States p → States p × List Setup × ℤ
  after_control none sys states = (states, [], negsuc 0)
  after_control (some fd) sys states = run_loop sys (start_buses num_usb_buses 0 states)

  -- `main`: the buses, the setup of the event loop, and what it returns.
  unfoldable pub main : System → States p → States p × List Setup × ℤ
  unfolding start_buses
  main sys states = after_control (EnabledState.initialize sys.control).0 sys states

  start_buses-ok :
      (states : States p)
      → ((start_buses num_usb_buses 0 states).1 ≡ true)
        × ((i : ℕ) → i < num_usb_buses → ((start_buses num_usb_buses 0 states).0 i).bus_id ≡ i)
  unfolding start_buses start_uv_loop
  start_buses-ok states = (refl, λ i h. ground arith)

  -- `main` returns 0 exactly if a try of less than 50 opens the control data, the monitor is ready and the poll is
  -- made; then bus `i` of the four has the number `i`, and the event loop polls the monitor, runs the timer at the
  -- period of the controllers, and has checked the devices that were there, in this order. Otherwise no try of
  -- less than 50 opens the control data and the buses are left alone, or the monitor is not ready, or the poll is
  -- not made, and `main` returns -1 with nothing set up in the event loop.
  pub main-setup :
      (sys : System) (states : States p) (i j : ℕ)
      → i < num_usb_buses
      → j < EnabledState.max_retries
      → ((fd k : ℕ) × (k < EnabledState.max_retries)
          × (sys.control k ≡ some fd)
          × ((UsbMonitor.initialize sys.monitor).1 ≡ true)
          × (sys.poll ≡ true)
          × ((main sys states).2 ≡ pos 0)
          × (((main sys states).0 i).bus_id ≡ i)
          × ((main sys states).1
              ≡ poll_started (UsbMonitor.initialize sys.monitor).0.fd
                ∷ timer_started period
                ∷ found (do_initial_check sys.devices)
                ∷ []))
        ⊎ ((((sys.control j ≡ none) × ((main sys states).0 ≡ states))
              ⊎ ((UsbMonitor.initialize sys.monitor).1 ≡ false)
              ⊎ (sys.poll ≡ false))
            × ((main sys states).2 ≡ negsuc 0)
            × ((main sys states).1 ≡ []))
  unfolding main
  main-setup sys states i j h lt =
      let opened = initialize_lem sys.control j in
      elim opened.1 [
        | inl (fd, few, answer, kept) ↦
            (let started = start_buses-ok states in
              elim (Bool-cases (UsbMonitor.initialize sys.monitor).1) [
                | inl ok ↦ elim (Bool-cases sys.poll) [
                  | inl polls ↦ inl (
                    fd,
                    (EnabledState.initialize sys.control).1,
                    few,
                    answer,
                    ok,
                    polls,
                    rw (kept, ok, polls) refl,
                    rw kept (started.1 i h),
                    rw (kept, ok, polls) refl,
                  )
                  | inr fails ↦
                      inr (inr (inr fails), rw (kept, ok, fails) refl, rw (kept, ok, fails) refl)
                ]
                | inr fails ↦ inr (inr (inl fails), rw (kept, fails) refl, rw (kept, fails) refl)
              ])
        | inr (all, kept) ↦
            inr (inl (failed opened.0 all, rw kept refl), rw kept refl, rw kept refl)
      ]
    where
      failed :
          ((EnabledState.initialize sys.control).1 ≤ j) ⊎ (sys.control j ≡ none)
          → (EnabledState.initialize sys.control).1 ≡ EnabledState.max_retries
          → sys.control j ≡ none
      failed (inl later) all = absurd (omega (arith, all))
      failed (inr e) all = e
