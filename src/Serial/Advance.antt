-- ===== src/Serial/Advance.antt =====
-- expansionhub/ExpansionHubSerial.cpp: when `CheckForStateAdvance` sends the commands, and when it ends a
-- transaction.
use scservices.Prelude.{
  if◌then◌else◌, ℕ, suc, ◌-◌, ◌^◌, ◌<◌, ◌≤◌, ◌≡◌, ◌≢◌, ◌⊎◌, inl, inr, refl, arith, Bool, true,
  false, ◌&&◌, Option, some, List, [], ◌∷◌, ◌++◌, Bytes, length, ◌==◌, sub_u8, add_u64, sub_u64,
  ◌>>=◌, Bool-cases,
}
use scservices.Messages.{message_ftdi_reset_control}
use scservices.Platform.{Platform}
use scservices.Serial.{
  ready_to_send, waiting_for_finish, waiting_for_packets, ExpansionHubSerial, Session, Action,
  Topic, published_int, on_serial, emit,
}
use scservices.Serial.Reply.{count_nack, on_store}
use scservices.Serial.Payload.{
  is_reported, is_answered, no_writes, advance_to_commands, advance_to_ready,
  check_for_state_advance, handle_nack,
}
use scservices.Serial.Queue.Flush.{budget}

is_answered-true :
    (r : ExpansionHubSerial)
    → is_answered r ≡ true
    → (r.pending_writes ≡ []) × (r.outstanding_messages ≡ 0)
is_answered-true r h = go r.pending_writes h
  where
    go :
        (sizes : List ℕ)
        → (no_writes sizes && (r.outstanding_messages == 0)) ≡ true
        → (sizes ≡ []) × (r.outstanding_messages ≡ 0)
    go [] e = (refl, ground arith)
    go (x ∷ xs) e = absurd (cc e)

is_answered-false :
    (r : ExpansionHubSerial)
    → is_answered r ≡ false
    → (r.pending_writes ≢ []) ⊎ (r.outstanding_messages ≢ 0)
is_answered-false r h = go r.pending_writes h
  where
    go :
        (sizes : List ℕ)
        → (no_writes sizes && (r.outstanding_messages == 0)) ≡ false
        → (sizes ≢ []) ⊎ (r.outstanding_messages ≢ 0)
    go [] e = inr (ground arith)
    go (x ∷ xs) e = inl (λ k. absurd (cc k))

is_reported-true :
    (r : ExpansionHubSerial)
    → is_reported r ≡ true
    → (r.send_state ≡ waiting_for_packets)
      × (r.have_battery ≡ true)
      × (r.have_bulk ≡ true)
      × (r.have_module_status ≡ true)
is_reported-true r h = ground arith

is_reported-false :
    (r : ExpansionHubSerial)
    → is_reported r ≡ false
    → (r.send_state ≢ waiting_for_packets)
      ⊎ (r.have_battery ≡ false)
      ⊎ (r.have_bulk ≡ false)
      ⊎ (r.have_module_status ≡ false)
is_reported-false r h = ground arith

module _ {p : Platform} where
  -- A reply has been counted.
  abbrev pub counted : Session p → Session p
  counted s = on_serial (λ r. record r { outstanding_messages = sub_u8 r.outstanding_messages 1 }) s

  -- How a transaction goes on behind its commands: it is over at once where none waits and no reply is
  -- outstanding, and waits for its end otherwise.
  abbrev pub GoesOn : Session p → Session p → Type 0
  GoesOn t s' =
      ((t.serial.pending_writes ≡ [])
        × (t.serial.outstanding_messages ≡ 0)
        × (s'.serial ≡ record (t.serial) { send_state = ready_to_send })
        × (s'.effects
            ≡ t.effects
              ++ published_int Topic.transaction_time
                  (sub_u64 (t.moments t.readings).now t.serial.last_loop)
                ∷ []))
      ⊎ (((t.serial.pending_writes ≢ []) ⊎ (t.serial.outstanding_messages ≢ 0))
          × (s' ≡ on_serial (λ r. record r { send_state = waiting_for_finish }) t))

  -- A reply that is counted while the callback, called with the settings of the transaction, would end in `t`. If a
  -- transaction waits for its reports and the battery's, the bulk input and the status of the module are in, the
  -- callback is called once: with none of its packets waiting and no reply outstanding the transaction is over and
  -- its time is published, and otherwise the state is that of the callback, which waits for the end. If one of the
  -- four conditions fails, no callback is called: another one makes no difference.
  pub check_for_state_advance-reported :
      (f g : Bool → Bool → Action p) (s t : Session p)
      → s.serial.has_callbacks ≡ true
      → t.serial.has_callbacks ≡ true
      → f s.serial.can_enable s.serial.device_reset (counted s) ≡ some t
      → ((s.serial.send_state ≡ waiting_for_packets)
          × (s.serial.have_battery ≡ true)
          × (s.serial.have_bulk ≡ true)
          × (s.serial.have_module_status ≡ true)
          × ((s' : Session p) × (check_for_state_advance f s ≡ some s') × GoesOn t s'))
        ⊎ (((s.serial.send_state ≢ waiting_for_packets)
              ⊎ (s.serial.have_battery ≡ false)
              ⊎ (s.serial.have_bulk ≡ false)
              ⊎ (s.serial.have_module_status ≡ false))
            × (check_for_state_advance f s ≡ check_for_state_advance g s))
  unfolding check_for_state_advance advance_to_commands advance_to_ready
  check_for_state_advance-reported f g s t c c' e = elim (Bool-cases (is_reported s.serial)) [
    | inl h ↦
        let k = is_reported-true s.serial h in
        let (s', runs, on) =
          sent s.serial.has_callbacks c (f s.serial.can_enable s.serial.device_reset (counted s))
            e in
        inl (k.0, k.1, k.2, k.3, (s', simp h runs, on))
    | inr h ↦ inr (is_reported-false s.serial h, simp h refl)
  ]
    where
      to_finish : Session p → Session p
      to_finish u = on_serial (λ r. record r { send_state = waiting_for_finish }) u

      sent :
          (b : Bool)
          → b ≡ true
          → (m : Option (Session p)) → m ≡ some t
          → (s' : Session p) × (((if b
                  then (m >>= λ u. some (to_finish u))
                  else some (to_finish (counted s)))
                >>= advance_to_ready f)
              ≡ some s')
            × GoesOn t s'
      sent false is m k = absurd (cc is)
      sent true is m k = elim (Bool-cases (is_answered t.serial)) [
        | inl done ↦
            (let (empty, last) = is_answered-true t.serial done in
              (
                on_serial (λ r. record r { send_state = ready_to_send })
                    (record t {
                      readings = suc t.readings;
                      effects =
                          t.effects
                          ++ published_int Topic.transaction_time
                              (sub_u64 (t.moments t.readings).now t.serial.last_loop)
                            ∷ [];
                    }),
                rw k (simp (done, c') refl),
                inl (empty, last, refl, refl),
              ))
        | inr busy ↦
            (to_finish t, rw k (simp busy refl), inr (is_answered-false t.serial busy, refl))
      ]

  -- A reply that comes while the transaction waits for its end: it is ended by the reply to the last message
  -- when nothing waits to be written, and only by that; the time since its start is then published.
  pub check_for_state_advance-finish :
      (f : Bool → Bool → Action p) (s : Session p)
      → s.serial.send_state ≡ waiting_for_finish
      → s.serial.has_callbacks ≡ true
      → 1 ≤ s.serial.outstanding_messages
      → s.serial.outstanding_messages < 256
      → (s' : Session p) × (check_for_state_advance f s ≡ some s')
        × (s'.serial.outstanding_messages ≡ s.serial.outstanding_messages - 1)
        × (((s.serial.pending_writes ≡ [])
              × (s.serial.outstanding_messages ≡ 1)
              × (s'.serial.send_state ≡ ready_to_send)
              × (s'.effects
                  ≡ s.effects
                    ++ published_int Topic.transaction_time
                        (sub_u64 (s.moments s.readings).now s.serial.last_loop)
                      ∷ []))
            ⊎ (((s.serial.pending_writes ≢ []) ⊎ (s.serial.outstanding_messages ≢ 1))
                × (s'.serial.send_state ≡ waiting_for_finish)
                × (s'.effects ≡ s.effects)))
  unfolding check_for_state_advance advance_to_commands advance_to_ready
  check_for_state_advance-finish f s st c lo hi =
      let unreported : is_reported s.serial ≡ false = ground arith in
      let less : sub_u8 s.serial.outstanding_messages 1 ≡ s.serial.outstanding_messages - 1 =
        omega arith in
      elim (Bool-cases (is_answered (counted s).serial)) [
        | inl done ↦
            (let (empty, last) = is_answered-true (counted s).serial done in
              (
                on_serial (λ r. record r { send_state = ready_to_send })
                    (record (counted s) {
                      readings = suc s.readings;
                      effects =
                          s.effects
                          ++ published_int Topic.transaction_time
                              (sub_u64 (s.moments s.readings).now s.serial.last_loop)
                            ∷ [];
                    }),
                simp (unreported, done, c) refl,
                less,
                inl (empty, omega (arith, last, less, lo), refl, refl),
              ))
        | inr busy ↦ (
          counted s,
          simp (unreported, busy) refl,
          less,
          inr (still less (is_answered-false (counted s).serial busy), st, refl),
        )
      ]
    where
      still :
          sub_u8 s.serial.outstanding_messages 1 ≡ s.serial.outstanding_messages - 1
          → (s.serial.pending_writes ≢ []) ⊎ (sub_u8 s.serial.outstanding_messages 1 ≢ 0)
          → (s.serial.pending_writes ≢ []) ⊎ (s.serial.outstanding_messages ≢ 1)
      still less (inl waits) = inl waits
      still less (inr more) = inr (λ e. more (omega (arith, e, less)))

  -- The answer that refuses the last step of the handshake, which is sent directly and is not counted as
  -- outstanding, is counted as answered: the count goes from 0 to 255. With that count the number of
  -- packets that `Flush` writes is the number that waits, if that is below 2 ^ 32, and not at most 8.
  pub handle_nack-ftdi :
      (f : Bool → Bool → Action p) (s : Session p) (reason : ℕ) (rest : Bytes)
      → s.serial.send_state ≡ ready_to_send
      → s.serial.outstanding_messages ≡ 0
      → length s.serial.pending_writes < 2 ^ 32
      → (s' : Session p) × (handle_nack f message_ftdi_reset_control (reason ∷ rest) s ≡ some s')
        × (s'.serial.outstanding_messages ≡ 255)
        × (budget s'.serial ≡ length s.serial.pending_writes)
  unfolding handle_nack check_for_state_advance advance_to_commands advance_to_ready count_nack
  handle_nack-ftdi f s reason rest st none_out few =
      let unreported : is_reported s.serial ≡ false = ground arith in
      let wrapped : sub_u8 s.serial.outstanding_messages 1 ≡ 255 = omega arith in
      let busy : is_answered (counted s).serial ≡ false = ground (arith, wrapped) in
      elim (Bool-cases s.serial.has_callbacks) [
        | inl c ↦ (
          let n = add_u64 s.store.num_nacks 1 in
              emit (published_int Topic.num_nacks n)
                (on_store (λ store. record store { num_nacks = n }) (counted s)),
          simp (unreported, busy, c) refl,
          wrapped,
          omega (arith, wrapped),
        )
        | inr c ↦ (counted s, simp (unreported, busy, c) refl, wrapped, omega (arith, wrapped))
      ]
