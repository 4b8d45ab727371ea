-- ===== src/Serial/Queue/Flush.antt =====
-- expansionhub/ExpansionHubSerial.cpp: what `Flush` does to a queue of whole packets.
use scservices.Prelude.{
  Bool, ℕ, zero, suc, ◌+◌, ◌%◌, ◌≤◌, ◌<◌, min, ◌≡◌, ◌≢◌, ◌⊎◌, inl, inr, refl, ap, sym, ◌∙◌, arith,
  some, List, [], ◌∷◌, ◌++◌, map, Bytes, length, take, drop, All, append_assoc, append-nil,
  length-append, take-append, drop-append, ◌==◌, leb, add_u8, sub_u64, Bool-cases,
}
use scservices.Platform.{Platform}
use scservices.Serial.{ExpansionHubSerial, Session, Effect, written}
use scservices.Serial.Output.{max_num_outstanding_messages, sum_of_first, flush}
use scservices.Serial.Queue.{concat, IsQueued}

pub length-sizes : (xs : List Bytes) → length (map length xs) ≡ length xs
length-sizes [] = refl
length-sizes (x ∷ xs) = ap suc (length-sizes xs)

sum_of_first-sizes :
    (n : ℕ) (xs : List Bytes) → sum_of_first n (map length xs) ≡ length (concat (take n xs))
sum_of_first-sizes zero xs = refl
sum_of_first-sizes (suc n) [] = refl
sum_of_first-sizes (suc n) (x ∷ xs) =
    omega (arith, sum_of_first-sizes n xs, length-append x (concat (take n xs)))

drop-sizes : (n : ℕ) (xs : List Bytes) → drop n (map length xs) ≡ map length (drop n xs)
drop-sizes zero xs = refl
drop-sizes (suc n) [] = refl
drop-sizes (suc n) (x ∷ xs) = drop-sizes n xs

concat_split : (n : ℕ) (xs : List Bytes) → concat (take n xs) ++ concat (drop n xs) ≡ concat xs
concat_split zero xs = refl
concat_split (suc n) [] = refl
concat_split (suc n) (x ∷ xs) =
    append_assoc x (concat (take n xs)) (concat (drop n xs)) ∙ ap (λ t. x ++ t) (concat_split n xs)

pub All-drop {ℓ} :
    {A : Type ℓ} (P : A → Type 0) (n : ℕ) (xs : List A) → All P xs → All P (drop n xs)
All-drop P zero xs h = h
All-drop P (suc n) [] h = tt
All-drop P (suc n) (x ∷ xs) h = All-drop P n xs h.1

drop_all : (n : ℕ) (xs : List ℕ) → length xs ≤ n → drop n xs ≡ []
drop_all zero [] h = refl
drop_all zero (x ∷ xs) h = absurd (omega arith)
drop_all (suc n) [] h = refl
drop_all (suc n) (x ∷ xs) h = drop_all n xs (omega arith)

-- A count of 0 means that no packet is taken.
taken_of_zero :
    (n : ℕ) (xs : List Bytes)
    → All (λ q. 0 < length q) xs
    → n ≤ length xs
    → length (concat (take n xs)) ≡ 0
    → n ≡ 0
taken_of_zero zero xs h le e = refl
taken_of_zero (suc n) [] h le e = absurd (omega arith)
taken_of_zero (suc n) (x ∷ xs) h le e =
    absurd (omega (arith, h.0, length-append x (concat (take n xs))))

-- The number of packets that `Flush` takes.
abbrev pub budget : ExpansionHubSerial → ℕ
budget r =
    min (sub_u64 max_num_outstanding_messages r.outstanding_messages) (length r.pending_writes)

-- What one `write` call of these bytes adds to the effects; no call is made for no bytes.
abbrev pub writes : {p : Platform} → Bytes → List (Effect p)
writes [] = []
writes (b ∷ bs) = written (b ∷ bs) ∷ []

-- The whole of `Flush` on a queue that is in order.
pub record Flushes {p : Platform} (s : Session p) (sent : Bytes) (queue : List Bytes) : Type 0 where
  pub after : Session p
  pub ends : flush s ≡ some after
  pub queued :
      IsQueued after.serial
        (sent ++ concat (take (budget s.serial) queue))
        (drop (budget s.serial) queue)
  pub wrote : after.effects ≡ s.effects ++ writes (concat (take (budget s.serial) queue))
  pub outstanding :
      after.serial.outstanding_messages ≡ add_u8 s.serial.outstanding_messages (budget s.serial)
  pub rest : after.serial.pending_writes ≡ drop (budget s.serial) s.serial.pending_writes
  pub same_state : after.serial.send_state ≡ s.serial.send_state
  pub same_address : after.serial.address ≡ s.serial.address
  pub same_interface : after.serial.packet_interface_id ≡ s.serial.packet_interface_id
  pub same_callbacks : after.serial.has_callbacks ≡ s.serial.has_callbacks
  pub same_can_enable : after.serial.can_enable ≡ s.serial.can_enable
  pub same_machine : after.serial.state_machine ≡ s.serial.state_machine
  pub same_reports :
      ◌≡◌ {A = Bool × Bool × Bool}
        (after.serial.have_battery, after.serial.have_bulk, after.serial.have_module_status)
        (s.serial.have_battery, s.serial.have_bulk, s.serial.have_module_status)

module _ {p : Platform} where
  writes_nonempty : (bs : Bytes) → length bs ≢ 0 → writes {p = p} bs ≡ written bs ∷ []
  writes_nonempty [] h = absurd (h refl)
  writes_nonempty (b ∷ bs) h = refl

  writes_empty : (bs : Bytes) → length bs ≡ 0 → writes {p = p} bs ≡ []
  writes_empty [] h = refl
  writes_empty (b ∷ bs) h = absurd (omega arith)

  module _ (s : Session p) (sent : Bytes) (queue : List Bytes)
      (q : IsQueued s.serial sent queue) where
    abbrev taken : Bytes
    taken = concat (take (budget s.serial) queue)

    count_lem : sum_of_first (budget s.serial) s.serial.pending_writes ≡ length taken
    count_lem = rw q.sizes_are (sum_of_first-sizes _ queue)

    split_lem : s.serial.write_buffer ≡ sent ++ (taken ++ concat (drop (budget s.serial) queue))
    split_lem = q.buffer_is ∙ ap (λ t. sent ++ t) (sym (concat_split (budget s.serial) queue))

    room_lem : s.serial.current_count + length taken ≤ length s.serial.write_buffer
    room_lem = omega (
      arith,
      q.count_is,
      ap length split_lem,
      length-append sent (taken ++ concat (drop (budget s.serial) queue)),
      length-append taken (concat (drop (budget s.serial) queue)),
    )

    slice_lem : take (length taken) (drop s.serial.current_count s.serial.write_buffer) ≡ taken
    slice_lem =
        rw (split_lem, q.count_is, drop-append)
          (take-append taken (concat (drop (budget s.serial) queue)))

    enough_lem : budget s.serial ≤ length queue
    enough_lem = omega (arith, ap length q.sizes_are, length-sizes queue)

    rest_lem :
        drop (budget s.serial) s.serial.pending_writes ≡ map length (drop (budget s.serial) queue)
    rest_lem = ap (drop (budget s.serial)) q.sizes_are ∙ drop-sizes (budget s.serial) queue

    abbrev flushed : ℕ → ℕ → List (Effect p) → Session p
    flushed count outstanding effects = record s {
      serial = record (s.serial) {
        pending_writes = drop (budget s.serial) s.serial.pending_writes;
        current_count = count;
        outstanding_messages = outstanding;
      };
      effects = effects;
    }

    flushes_lem :
        (count outstanding : ℕ) (effects : List (Effect p))
        → flush s ≡ some (flushed count outstanding effects)
        → count ≡ s.serial.current_count + length taken
        → outstanding ≡ add_u8 s.serial.outstanding_messages (budget s.serial)
        → effects ≡ s.effects ++ writes taken
        → Flushes s sent queue
    flushes_lem count outstanding effects ends counted grown wrote = record {
      after = flushed count outstanding effects;
      ends = ends;
      queued = record {
        buffer_is = split_lem ∙ sym (append_assoc sent taken _);
        sizes_are = rest_lem;
        count_is = omega (arith, counted, q.count_is, length-append sent taken);
        nonempty = All-drop _ (budget s.serial) queue q.nonempty;
      };
      wrote = wrote;
      outstanding = grown;
      rest = refl;
      same_state = refl;
      same_address = refl;
      same_interface = refl;
      same_callbacks = refl;
      same_can_enable = refl;
      same_machine = refl;
      same_reports = refl;
    }

    -- From a queue that is in order `Flush` ends, and writes the oldest packets, as many as the
    -- limit allows, whole and in order, in one call; the others stay in the queue, and the
    -- outstanding messages grow by the number written.
    pub flush-Flushes : s.serial.outstanding_messages < 256 → Flushes s sent queue
    unfolding flush
    flush-Flushes small =
        elim (Bool-cases (sum_of_first (budget s.serial) s.serial.pending_writes == 0)) [
          | inl none_taken ↦
              (let no_bytes : length taken ≡ 0 = ground (arith, count_lem) in
                let no_packets =
                  taken_of_zero (budget s.serial) queue q.nonempty enough_lem no_bytes in
                flushes_lem s.serial.current_count s.serial.outstanding_messages s.effects
                  (ground arith) (omega (arith, no_bytes)) (omega (arith, no_packets, small))
                  (sym (
                    ap (λ t. s.effects ++ t) (writes_empty taken no_bytes) ∙ append-nil s.effects)))
          | inr some_taken ↦
              flushes_lem
                (s.serial.current_count + sum_of_first (budget s.serial) s.serial.pending_writes)
                (add_u8 s.serial.outstanding_messages (budget s.serial % 256))
                (s.effects ++ written taken ∷ []) (ground (arith, count_lem, room_lem, slice_lem))
                (omega (arith, count_lem)) (omega arith)
                (ap (λ t. s.effects ++ t) (sym (writes_nonempty taken (ground (arith, count_lem)))))
        ]

    -- From a queue that is in order, and with no more messages outstanding than the limit, `Flush` ends
    -- with no more than the limit; and it stops short of the limit only with nothing left to write.
    pub flush_within_limit :
        s.serial.outstanding_messages ≤ max_num_outstanding_messages
        → (s' : Session p) × (flush s ≡ some s')
          × (s'.serial.outstanding_messages ≤ max_num_outstanding_messages)
          × ((s'.serial.outstanding_messages ≡ max_num_outstanding_messages)
              ⊎ (s'.serial.pending_writes ≡ []))
    flush_within_limit h =
        let f = flush-Flushes (omega arith) in
        let grown = f.outstanding in
        (
          f.after,
          f.ends,
          omega (arith, grown),
          elim (Bool-cases (leb (length s.serial.pending_writes) (budget s.serial))) [
            | inl all ↦
                inr (f.rest ∙ drop_all (budget s.serial) s.serial.pending_writes (ground arith))
            | inr short ↦ inl (ground (arith, grown))
          ],
        )
