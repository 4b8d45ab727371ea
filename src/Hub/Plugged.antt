-- ===== src/Hub/Plugged.antt =====
-- expansionhub/main.cpp: a hub that is plugged in, from `OnDeviceAdded` to the end of its handshake.
pub mod Opened
use scservices.Prelude.{
  arith, ◌<◌, ℕ, suc, ◌+◌, ◌^◌, ◌<◌, ◌≡◌, refl, ap, ◌∙◌, Bool, true, false, Option, none, some,
  List, [], ◌∷◌, ◌++◌, Bytes, ◌>>=◌, to_u16, append-nil, append_assoc, leb, sub_u64,
}
use scservices.Receiver.Frames.{Framed, idle}
use scservices.Messages.{message_discover, message_ftdi_reset_control, message_query_interface}
use scservices.Packet.{discover_id, query_interface_id, build_packet}
use scservices.Platform.{Platform, Moment}
use scservices.Serial.{ExpansionHubSerial, Effect, Session, new_serial, written}
use scservices.Hub.Served.{reads, reads-read_from}
use scservices.Serial.Output.{allow_send, send_packet}
use scservices.Serial.Handshake.{
  message_timeout, discover_address, interface_string, retry, run_discover_internal,
  run_synchronous_steps, has_finished_synchronous,
}
use scservices.Serial.Lifetime.{initialize, set_callbacks}
use scservices.Serial.Steps.{late_lem}
use scservices.Serial.Connect.{answers, AreAnswers, do_read-connected}
use scservices.Serial.Queue.{concat}
use scservices.Serial.Flow.Port.{port_bytes, port_bytes-append}
use scservices.Hub.{ExpansionHubState, session, leave}
use scservices.Hub.Commands.{send_commands, forget_settings, forget_motor, forget_servo}
use scservices.CachedCommand.{force_reset}
use scservices.Hub.Devices.{on_device_added}
use scservices.NtState.{update}
use scservices.Hub.Daemon.{States, added_to, on_added}
use scservices.Hub.Plugged.Opened.{IsPast, opened, discovery, bind_to, added_to-opened}

-- The link of a hub whose handshake has ended, ready for the first transaction.
pub record IsConnected (source id : ℕ) (r : ExpansionHubSerial) : Type 0 where
  pub address_is : r.address ≡ some source
  pub interface_is : r.packet_interface_id ≡ some id
  pub finished : has_finished_synchronous r ≡ true
  pub callbacks_are : r.has_callbacks ≡ true
  pub is_ready : allow_send r ≡ true
  pub last_length : ℕ
  pub between_packets : r.state_machine ≡ idle last_length 0
  pub none_wait : r.pending_writes ≡ []
  pub none_outstanding : r.outstanding_messages ≡ 0

-- Three packets that are read by the bus `h1`, which was `h` before its port was opened, make it `h2`, with a
-- hub that is connected; what has been written to the port is the discovery, the question for the interface
-- and the request to reset the FTDI chip control.
pub record Connects {p : Platform} (source id : ℕ) (packets : ℕ → Framed)
    (h h1 h2 : ExpansionHubState p) : Type 0 where
  pub all_read : reads packets 3 0 h1 ≡ some h2
  pub link : ExpansionHubSerial
  pub has_link : h2.current_hub ≡ some link
  pub connected_is : IsConnected source id link
  pub written_is :
      port_bytes h2.effects
      ≡ port_bytes h.effects
        ++ concat (
            discovery
            ∷ build_packet source message_query_interface query_interface_id interface_string
            ∷ build_packet source message_ftdi_reset_control (to_u16 (id + 49)) (1 ∷ [])
            ∷ [])

module _ {p : Platform} where
  -- The bus of a port that has been opened, when the hub's three answers have been read.
  added_to-connected :
      (h : ExpansionHubState p) (fd source id : ℕ) (has_poll : Bool) (path : Bytes)
      (found told done : Framed)
      → IsPast (h.moments h.readings)
      → IsPast (h.moments (suc h.readings))
      → IsPast (h.moments (suc (suc h.readings)))
      → AreAnswers source id found told done
      → (h1 h2 : ExpansionHubState p) × (added_to (some fd) has_poll path h ≡ some h1)
        × Connects source id (answers found told done) h h1 h2
  unfolding has_finished_synchronous allow_send
  added_to-connected h fd source id has_poll path found told done past past' past'' a =
      let (h1, added, hub, moments, readings, wrote) = added_to-opened h fd has_poll path past in
      let r = opened fd path (h.moments h.readings).now in
      let (s', ends, (m, same), effects) =
        do_read-connected send_commands (session h1 r) source id 0 found told done refl refl refl
          refl refl (rw (moments, readings) past') (rw (moments, readings) past'') a in
      let later = concat (
        build_packet source message_query_interface query_interface_id interface_string
        ∷ build_packet source message_ftdi_reset_control (to_u16 (id + 49)) (1 ∷ [])
        ∷ []) in
      let at_link : h1 ≡ leave h1 (some r) (session h1 r) =
        ap (λ o. record h1 { current_hub = o }) hub in
      let all_read = reads-read_from (answers found told done) 3 0 h1 (session h1 r) s' ends in
      (
        h1,
        leave h1 (some s'.serial) s',
        added,
        record {
          all_read = ap (reads (answers found told done) 3 0) at_link ∙ all_read;
          link = s'.serial;
          has_link = refl;
          connected_is = record {
            address_is = ap (λ x. x.address) same;
            interface_is = ap (λ x. x.packet_interface_id) same;
            finished = ap (λ x. x.configured_ftdi_reset) same;
            callbacks_are = ap (λ x. x.has_callbacks) same;
            is_ready = ap allow_send same;
            last_length = m;
            between_packets = ap (λ x. x.state_machine) same;
            none_wait = ap (λ x. x.pending_writes) same;
            none_outstanding = ap (λ x. x.outstanding_messages) same;
          };
          written_is =
              ap port_bytes effects
              ∙ port_bytes-append h1.effects _
              ∙ ap (λ bs. bs ++ later) wrote
              ∙ append_assoc (port_bytes h.effects) discovery later;
        },
      )

  -- A port that opens on a bus without a hub, with the next three readings of the clock past the timeout: when
  -- the hub's answer to the discovery, its answer with its interface and its acknowledgement are read, one
  -- after the other, all of it is without undefined behaviour. The bus then has a hub whose address and
  -- interface are known, that is past the handshake, between packets and ready for the first transaction, with
  -- nothing waiting or outstanding. What has been written to the port is the discovery, the question for the
  -- interface and the request to reset the FTDI chip control, whole and in that order. The other buses are as
  -- they were.
  pub on_added-connected :
      (states : States p) (bus fd source id : ℕ) (has_poll : Bool) (path : Bytes)
      (found told done : Framed)
      → (states bus).current_hub ≡ none
      → IsPast ((states bus).moments (states bus).readings)
      → IsPast ((states bus).moments (suc (states bus).readings))
      → IsPast ((states bus).moments (suc (suc (states bus).readings)))
      → AreAnswers source id found told done
      → (h1 h2 : ExpansionHubState p) × (on_added (some fd) has_poll bus path states
          ≡ some (update states bus h1))
        × Connects source id (answers found told done) (states bus) h1 h2
  unfolding on_added
  on_added-connected states bus fd source id has_poll path found told done free past past' past''
        a =
      let (h1, h2, added, c) =
        added_to-connected (states bus) fd source id has_poll path found told done past past' past''
          a in
      (h1, h2, simp free (bind_to _ _ added refl), c)
