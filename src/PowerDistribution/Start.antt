-- ===== src/PowerDistribution/Start.antt =====
-- powerdistribution/main.cpp: `startUvLoop`, the destructor of `CanState` and the start of `main`. What the
-- system answers is an argument.
use scservices.Prelude.{
  ℕ, zero, suc, ◌≡◌, ◌⊎◌, inl, inr, refl, sym, ltb, arith, Bool, true, false, not, ◌&&◌, ℤ, pos,
  negsuc, Option, none, some, List, [], ◌∷◌, ◌++◌, Bytes, leb, if◌then◌else◌, codes, to_string,
  Bool-cases,
}
use scservices.NtState.{update}
use scservices.PowerDistribution.{num_can_buses, num_frames, filter_id, filter_mask}

-- The answers to `socket`, `setsockopt`, `ioctl`, `bind` and `Poll::Create`.
pub record System : Type 0 where
  pub socket : Option ℕ
  pub setsockopt : Bool
  pub ioctl : Bool
  pub bind : Bool
  pub poll : Bool

pub data Setup : Type 0 where
  topic_made : Bytes → Setup
  socket_opened : ℕ → Setup
  filter_set : ℕ → ℕ → Setup
  bound : Bytes → Setup
  poll_started : ℕ → Setup
  socket_closed : ℕ → Setup

-- `CanState`, and what has been done for it.
pub record CanState : Type 0 where
  pub socket_handle : Option ℕ
  pub bus_id : ℕ
  pub done : List Setup

abbrev pub new_state : CanState
new_state = record { socket_handle = none; bus_id = 0; done = [] }

abbrev pub perform : Setup → CanState → CanState
perform e s = record s { done = s.done ++ e ∷ [] }

abbrev pub frame_topic : ℕ → ℕ → Bytes
frame_topic bus i = codes "/pd/" ++ to_string bus ++ codes "/frame" ++ to_string i

abbrev pub device_id_topic : ℕ → Bytes
device_id_topic bus = codes "/pd/" ++ to_string bus ++ codes "/deviceid"

abbrev make_topics : ℕ → ℕ → ℕ → List Setup
make_topics bus zero i = []
make_topics bus (suc n) i = topic_made (frame_topic bus i) ∷ make_topics bus n (suc i)

-- From the socket on.
abbrev open_socket : System → ℕ → Option ℕ → CanState → CanState × Bool
open_socket sys bus none s = (s, false)
open_socket sys bus (some fd) s =
    let opened = perform (socket_opened fd) (record s { socket_handle = some fd }) in
    let filtered = perform (filter_set filter_id filter_mask) opened in
    let on_bus = perform (bound (codes "can_s" ++ to_string bus)) filtered in
    if not sys.setsockopt
    then (opened, false)
    else if not sys.ioctl
    then (filtered, false)
    else if not sys.bind
    then (filtered, false)
    else if not sys.poll
    then (on_bus, false)
    else (perform (poll_started fd) on_bus, true)

unfoldable pub start_uv_loop : System → ℕ → CanState → CanState × Bool
start_uv_loop sys bus s =
    if leb num_can_buses bus
    then (s, false)
    else open_socket sys bus sys.socket (record s {
      bus_id = bus;
      done = s.done ++ make_topics bus num_frames 0 ++ topic_made (device_id_topic bus) ∷ [];
    })

-- The destructor.
abbrev close_socket : Option ℕ → CanState → CanState
close_socket none s = s
close_socket (some fd) s = perform (socket_closed fd) s

unfoldable pub destroy : CanState → CanState
destroy s = close_socket s.socket_handle s

-- The loop of `main` over the buses, which stops at the first that fails; `n` buses are left.
unfoldable pub start_buses : (ℕ → System) → ℕ → ℕ → (ℕ → CanState) → (ℕ → CanState) × Bool
unfolding start_uv_loop
start_buses sys zero bus states = (states, true)
start_buses sys (suc n) bus states =
    let (s, ok) = start_uv_loop (sys bus) bus (states bus) in
    let rest = start_buses sys n (suc bus) (update states bus s) in
    if ok then rest else (update states bus s, false)

-- `main`: what it returns.
unfoldable pub main : (ℕ → System) → (ℕ → CanState) × ℤ
unfolding start_buses
main sys =
    let (states, success) = start_buses sys num_can_buses 0 (λ bus. new_state) in
    (states, if success then pos 0 else negsuc 0)

-- Does the system grant all that a bus asks for?
abbrev pub grants : System → Bool
grants sys = elim (sys.socket) [
  | none ↦ false
  | some fd ↦ sys.setsockopt && (sys.ioctl && (sys.bind && sys.poll))
]

open_socket-grants :
    (sys : System) (bus : ℕ) (o : Option ℕ) (s : CanState)
    → o ≡ sys.socket
    → (open_socket sys bus o s).1 ≡ grants sys
open_socket-grants sys bus none s e = rw (sym e) refl
open_socket-grants sys bus (some fd) s e = rw (sym e) (ground arith)

-- `startUvLoop` succeeds exactly for a bus number in range for which the system grants everything, and
-- whether it does or not, the handle that it keeps, for the destructor to close, is the socket that it
-- has opened.
pub start_uv_loop_lem :
    (sys : System) (bus : ℕ)
    → let (s, ok) = start_uv_loop sys bus new_state in
      (ok ≡ (ltb bus num_can_buses && grants sys))
      × (s.socket_handle ≡ (if ltb bus num_can_buses then sys.socket else none))
unfolding start_uv_loop
start_uv_loop_lem sys bus = elim (Bool-cases (leb num_can_buses bus)) [
  | inl out ↦
      (let not_in : ltb bus num_can_buses ≡ false = ground arith in rw (out, not_in) (refl, refl))
  | inr within ↦
      let inside : ltb bus num_can_buses ≡ true = ground arith in
      rw (within, inside) (open_socket-grants sys bus sys.socket _ refl, kept sys.socket _ refl)
]
  where
    kept :
        (o : Option ℕ) (s : CanState)
        → s.socket_handle ≡ none
        → (open_socket sys bus o s).0.socket_handle ≡ o
    kept none s e = e
    kept (some fd) s e = ground arith

-- `main` returns 0 exactly if the system grants everything for both buses, and -1 otherwise; if it does not
-- for bus 0, bus 1 is left alone.
pub main-grants :
    (sys : ℕ → System)
    → ((main sys).1 ≡ (if grants (sys 0) && grants (sys 1) then pos 0 else negsuc 0))
      × (((main sys).0 1 ≡ new_state) ⊎ (grants (sys 0) ≡ true))
unfolding main start_buses
main-grants sys =
    let first = (start_uv_loop_lem (sys 0) 0).0 in
    let second = (start_uv_loop_lem (sys 1) 1).0 in ground (arith, first, second)
