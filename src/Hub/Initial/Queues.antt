-- ===== src/Hub/Initial/Queues.antt =====
-- expansionhub/ExpansionHubSerial.cpp and main.cpp: handlers that put given packets into the queue, and leave
-- the rest of the link alone.
use scservices.Prelude.{
  ℕ, suc, ◌+◌, ◌<◌, ◌≡◌, refl, ap, sym, ◌∙◌, arith, false, Option, some, List, [], ◌∷◌, ◌++◌, Bytes,
  map, length, All, All-append, append_assoc, append-nil, ◌>>=◌, to_u16,
}
use scservices.Packet.{build_packet}
use scservices.NtState.{ExpansionHubNtState}
use scservices.Platform.{Platform}
use scservices.Serial.{ExpansionHubSerial, Session, Action, with_address, ◌>=>◌}
use scservices.Serial.Output.{send_packet}
use scservices.Serial.Requests.{request}
use scservices.Serial.Queue.{concat, concat-append, sizes-append, IsQueued, send_packet-enqueue}

-- The link with more packets in its queue.
abbrev pub queue_all : List Bytes → ExpansionHubSerial → ExpansionHubSerial
queue_all qs r = record r {
  write_buffer = r.write_buffer ++ concat qs;
  pending_writes = r.pending_writes ++ map length qs;
}

pub queue_all-nil : (r : ExpansionHubSerial) → r ≡ queue_all [] r
queue_all-nil r = simp append-nil refl

pub queue_all-append :
    (xs ys : List Bytes) (r : ExpansionHubSerial)
    → queue_all ys (queue_all xs r) ≡ queue_all (xs ++ ys) r
queue_all-append xs ys r = simp (concat-append, sizes-append, append_assoc) refl

pub queue_all-IsQueued :
    (qs : List Bytes) (r : ExpansionHubSerial) (sent : Bytes) (queue : List Bytes)
    → All (λ q. 0 < length q) qs
    → IsQueued r sent queue
    → IsQueued (queue_all qs r) sent (queue ++ qs)
queue_all-IsQueued qs r sent queue h q = record {
  buffer_is = rw q.buffer_is (simp (concat-append, append_assoc));
  sizes_are = rw (q.sizes_are, sizes-append);
  count_is = q.count_is;
  nonempty = All-append _ queue qs q.nonempty h;
}

module _ {p : Platform} where
  -- The handler puts these packets into the queue, makes `n` readings, and goes on with `g`; `store` is what
  -- it leaves of the topics.
  pub record Leads (g : Action p) (n : ℕ) (qs : List Bytes) (store : ExpansionHubNtState p)
      (s : Session p) (m : Option (Session p)) : Type 0 where
    pub after : Session p
    pub ends : m ≡ g after
    pub serial_is : after.serial ≡ queue_all qs s.serial
    pub store_is : after.store ≡ store
    pub effects_are : after.effects ≡ s.effects
    pub moments_are : after.moments ≡ s.moments
    pub readings_are : after.readings ≡ n + s.readings

  -- The handler puts them into the queue, and ends.
  abbrev pub Queues :
      ℕ → List Bytes → ExpansionHubNtState p → Session p → Option (Session p) → Type 0
  Queues = Leads some

  abbrev pub then-Leads :
      (g : Action p) (n n' total : ℕ) (qs qs' : List Bytes) (store store' : ExpansionHubNtState p)
      (s : Session p) (f k : Action p) (q : Queues n qs store s (f s))
      → Leads g n' qs' store' q.after (k q.after)
      → n + n' ≡ total
      → Leads g total (qs ++ qs') store' s ((f >=> k) s)
  then-Leads g n n' total qs qs' store store' s f k q q' sum = record {
    after = q'.after;
    ends = ap (λ m. m >>= k) q.ends ∙ q'.ends;
    serial_is = q'.serial_is ∙ ap (queue_all qs') q.serial_is ∙ queue_all-append qs qs' s.serial;
    store_is = q'.store_is;
    effects_are = q'.effects_are ∙ q.effects_are;
    moments_are = q'.moments_are ∙ q.moments_are;
    readings_are = omega (arith, q.readings_are, q'.readings_are, sum);
  }

  pub end-Leads :
      (g : Action p) (n : ℕ) (qs : List Bytes) (store : ExpansionHubNtState p) (s : Session p)
      (f : Action p)
      → Queues n qs store s (f s)
      → Leads g n qs store s ((f >=> g) s)
  end-Leads g n qs store s f q = record {
    after = q.after;
    ends = ap (λ m. m >>= g) q.ends;
    serial_is = q.serial_is;
    store_is = q.store_is;
    effects_are = q.effects_are;
    moments_are = q.moments_are;
    readings_are = q.readings_are;
  }

  send_packet-Queues :
      (dest message id : ℕ) (pay : Bytes) (s : Session p)
      → length pay < 1013
      → Queues 0
          (build_packet dest message id pay ∷ [])
          s.store
          s
          (send_packet dest message id pay false s)
  send_packet-Queues dest message id pay s h = record {
    after = record s { serial = queue_all (build_packet dest message id pay ∷ []) s.serial };
    ends =
        send_packet-enqueue s dest message id pay h
        ∙ ap
            (λ w. some (record s {
              serial = record (s.serial) {
                write_buffer = s.serial.write_buffer ++ w;
                pending_writes =
                    s.serial.pending_writes ++ length (build_packet dest message id pay) ∷ [];
              };
            }))
            (sym (append-nil (build_packet dest message id pay)));
    serial_is = refl;
    store_is = refl;
    effects_are = refl;
    moments_are = refl;
    readings_are = omega arith;
  }

  pub to_address-Queues :
      (a message id : ℕ) (pay : Bytes) (s : Session p)
      → s.serial.address ≡ some a
      → length pay < 1013
      → Queues 0
          (build_packet a message id pay ∷ [])
          s.store
          s
          (with_address (λ address. send_packet address message id pay false) s)
  to_address-Queues a message id pay s known h =
      simp known (send_packet-Queues a message id pay s h)

  pub request-Queues :
      (a i message offset : ℕ) (pay : Bytes) (s : Session p)
      → s.serial.address ≡ some a
      → s.serial.packet_interface_id ≡ some i
      → length pay < 1013
      → Queues 0
          (build_packet a message (to_u16 (i + offset)) pay ∷ [])
          s.store
          s
          (request message offset pay s)
  request-Queues a i message offset pay s known interface h =
      simp (interface, known) (send_packet-Queues a message (to_u16 (i + offset)) pay s h)

  abbrev pub skip-Queues : (s : Session p) → Queues 0 [] s.store s (some s)
  skip-Queues s = record {
    after = s;
    ends = refl;
    serial_is = queue_all-nil s.serial;
    store_is = refl;
    effects_are = refl;
    moments_are = refl;
    readings_are = omega arith;
  }

  -- One reading more, before it.
  pub reading_before :
      (qs : List Bytes) (s : Session p) (m : Option (Session p))
      → Queues 0 qs s.store (record s { readings = suc s.readings }) m
      → Queues 1 qs s.store s m
  reading_before qs s m q = record {
    after = q.after;
    ends = q.ends;
    serial_is = q.serial_is;
    store_is = q.store_is;
    effects_are = q.effects_are;
    moments_are = q.moments_are;
    readings_are = omega (arith, q.readings_are);
  }
