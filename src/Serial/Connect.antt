-- ===== src/Serial/Connect.antt =====
-- expansionhub/ExpansionHubSerial.cpp: the whole handshake, from the bytes that are read.
use scservices.Prelude.{
  ℕ, zero, suc, ◌+◌, ◌≡◌, refl, ap, sym, ◌∙◌, arith, Bool, true, false, none, some, [], ◌∷◌, ◌++◌,
  Bytes, append_assoc, ◌>>=◌, to_u16, min, sub_u64,
}
use scservices.Receiver.Frames.{Framed, bytes_of, idle}
use scservices.Messages.{message_ftdi_reset_control, message_query_interface}
use scservices.Packet.{query_interface_id, packet_source_address, build_packet, read_uint16}
use scservices.Platform.{Platform}
use scservices.Serial.{ExpansionHubSerial, written, Session, Action}
use scservices.Serial.Output.{flush, max_num_outstanding_messages}
use scservices.Serial.Handshake.{
  interface_string, handle_discover, handle_query_interface, handle_ftdi_ack,
}
use scservices.Serial.Payload.{handle_checked, do_read}
use scservices.Serial.Frames.{id_of, IsFrame, at_rest, frame_taken, do_read-frame}
use scservices.Serial.Flow.Stream.{read_from}
use scservices.Serial.Steps.{
  IsLate, with_question, with_reset, with_end, handle_discover-question,
  handle_query_interface-reset, handle_ftdi_ack-end,
}

-- The three answers of a hub of a given address and interface, whole on the line.
pub record AreAnswers (source id : ℕ) (found told done : Framed) : Type 0 where
  pub found_frame : IsFrame found
  pub found_id : id_of found ≡ 0xFF0F
  pub found_source : found.fields.source ≡ source
  pub found_rest : Bytes
  pub found_pay : found.pay ≡ 1 ∷ found_rest
  pub told_frame : IsFrame told
  pub told_id : id_of told ≡ 0xFF07
  pub told_pay : read_uint16 told.pay ≡ some id
  pub done_frame : IsFrame done
  pub done_id : id_of done ≡ 0x7F01
  pub done_reference : done.fields.reference ≡ message_ftdi_reset_control

-- The three, and then the last again.
abbrev pub answers : Framed → Framed → Framed → ℕ → Framed
answers found told done zero = found
answers found told done (suc zero) = told
answers found told done _ = done

-- The link after the handshake, between packets.
abbrev pub connected : ℕ → ℕ → ℕ → ExpansionHubSerial → ExpansionHubSerial
connected source id m r = record r {
  address = some source;
  packet_interface_id = some id;
  configured_ftdi_reset = true;
  discover_start_time = 0;
  state_machine = idle m 0;
}

-- With nothing queued `Flush` does nothing.
flush-empty : {p : Platform} (s : Session p) → s.serial.pending_writes ≡ [] → flush s ≡ some s
unfolding flush
flush-empty s e =
    let nothing : min (sub_u64 max_num_outstanding_messages s.serial.outstanding_messages) 0 ≡ 0 =
      omega arith in
    simp (e, nothing)
      (ap (λ sizes. some (record s { serial = record (s.serial) { pending_writes = sizes } }))
        (sym e))

module _ {p : Platform} (f : Bool → Bool → Action p) where
  -- A packet that is read between packets, on a link with nothing queued.
  read_lem :
      (r : Framed) (s t : Session p) (n : ℕ)
      → IsFrame r
      → s.serial.state_machine ≡ idle n 0
      → ((m : ℕ)
          → handle_checked f (id_of r) r.fields.reference r.pay (bytes_of r) (at_rest m s)
            ≡ some (at_rest m t))
      → t.serial.pending_writes ≡ []
      → (m : ℕ) × (do_read f (some (bytes_of r)) s ≡ some (at_rest m t))
  read_lem r s t n i between handled empty =
      let (m, read) = frame_taken r n i.fits in
      (
        m,
        do_read-frame f r s n m i between read
            ∙ ap (λ k. k >>= flush) (handled m)
            ∙ flush-empty (at_rest m t) empty,
      )

  checked-discover :
      (r : Framed) (s : Session p) (rest : Bytes)
      → id_of r ≡ 0xFF0F
      → r.pay ≡ 1 ∷ rest
      → handle_checked f (id_of r) r.fields.reference r.pay (bytes_of r) s
        ≡ handle_discover (bytes_of r) (1 ∷ rest) s
  unfolding handle_checked
  checked-discover r s rest e pay = rw (e, pay) refl

  checked-interface :
      (r : Framed) (s : Session p)
      → id_of r ≡ 0xFF07
      → handle_checked f (id_of r) r.fields.reference r.pay (bytes_of r) s
        ≡ handle_query_interface r.pay s
  unfolding handle_checked
  checked-interface r s e = rw e refl

  checked-ack :
      (r : Framed) (s : Session p)
      → id_of r ≡ 0x7F01
      → r.fields.reference ≡ message_ftdi_reset_control
      → handle_checked f (id_of r) r.fields.reference r.pay (bytes_of r) s ≡ handle_ftdi_ack s
  unfolding handle_checked
  checked-ack r s e ref = rw (e, ref) refl

  -- From a link that knows nothing of its hub, between packets and with nothing queued, at times past the
  -- timeout: when the hub's answer to the discovery, its answer with its interface and its acknowledgement
  -- are read, one after the other, the handshake ends, without undefined behaviour. The link knows the
  -- hub's address and interface, and is otherwise as it was, between packets again; what it has written are the question for the interface and the
  -- request to reset the FTDI chip control, each to that address.
  pub do_read-connected :
      (s : Session p) (source id n : ℕ) (found told done : Framed)
      → s.serial.address ≡ none
      → s.serial.packet_interface_id ≡ none
      → s.serial.configured_ftdi_reset ≡ false
      → s.serial.pending_writes ≡ []
      → s.serial.state_machine ≡ idle n 0
      → IsLate s
      → IsLate (record s { readings = suc s.readings })
      → AreAnswers source id found told done
      → (s' : Session p) × (read_from f (answers found told done) 3 0 s ≡ some s')
        × ((m : ℕ) × (s'.serial ≡ connected source id m s.serial))
        × (s'.effects
            ≡ s.effects
              ++ written
                  (build_packet source message_query_interface query_interface_id interface_string)
                ∷ written
                    (build_packet source message_ftdi_reset_control (to_u16 (id + 49)) (1 ∷ []))
                ∷ [])
  unfolding packet_source_address
  do_read-connected s source id n found told done a i c empty between late later h =
      let s1 = with_question source s in
      let (m1, e1) =
        read_lem found s s1 n h.found_frame between (λ m. question (at_rest m s) a i late) empty in
      let s2 = with_reset source id (at_rest m1 s1) in
      let (m2, e2) =
        read_lem told (at_rest m1 s1) s2 m1 h.told_frame refl
          (λ m. reset (at_rest m s1) refl i c later) empty in
      let s3 = with_end (at_rest m2 s2) in
      let (m3, e3) =
        read_lem done (at_rest m2 s2) s3 m2 h.done_frame refl (λ m. ending (at_rest m s2) refl refl)
          empty in
      (at_rest m3 s3, joined e1 e2 e3, (m3, refl), append_assoc s.effects _ _)
    where
      question :
          (t : Session p)
          → t.serial.address ≡ none
          → t.serial.packet_interface_id ≡ none
          → IsLate t
          → handle_checked f (id_of found) found.fields.reference found.pay (bytes_of found) t
            ≡ some (with_question source t)
      question t a i late =
          checked-discover found t h.found_rest h.found_id h.found_pay
          ∙ handle_discover-question t (bytes_of found) h.found_rest source a i
              (ap some h.found_source) late

      reset :
          (t : Session p)
          → t.serial.address ≡ some source
          → t.serial.packet_interface_id ≡ none
          → t.serial.configured_ftdi_reset ≡ false
          → IsLate t
          → handle_checked f (id_of told) told.fields.reference told.pay (bytes_of told) t
            ≡ some (with_reset source id t)
      reset t a i c late =
          checked-interface told t h.told_id
          ∙ handle_query_interface-reset t told.pay source id a i c h.told_pay late

      ending :
          (t : Session p)
          → t.serial.address ≡ some source
          → t.serial.packet_interface_id ≡ some id
          → handle_checked f (id_of done) done.fields.reference done.pay (bytes_of done) t
            ≡ some (with_end t)
      ending t a i =
          checked-ack done t h.done_id h.done_reference ∙ handle_ftdi_ack-end t source id a i

      joined :
          {t u v : Session p}
          → do_read f (some (bytes_of found)) s ≡ some t
          → do_read f (some (bytes_of told)) t ≡ some u
          → do_read f (some (bytes_of done)) u ≡ some v
          → read_from f (answers found told done) 3 0 s ≡ some v
      joined e1 e2 e3 = rw (e1, e2, e3) refl
