-- ===== src/Lib.antt =====
-- SC Services: the daemons that connect the devices of a robot to NetworkTables.
--
-- The expansion hub daemon (expansionhub/) drives up to four hubs, each on one USB bus. `UsbMonitor` reports
-- serial devices; `Hub.Daemon` gives each to the `ExpansionHubState` of its bus; that opens the port
-- (`SerialPort`) and makes an `ExpansionHubSerial`. Bytes that the port delivers go through the receive
-- machine, which calls `HandlePayload` for each packet; a timer calls `OnUpdate` for each bus, which takes the
-- handshake a step further or starts a transaction. The power distribution daemon (powerdistribution/)
-- publishes CAN frames; the radio daemon (radio/) starts and stops. The files:
--   Prelude             numbers, lists, words, integers and texts that the other files share
--   Receiver            expansionhub/ReceiveStateMachine.h; Inv, Bytewise, Delivered and Frames prove its laws
--   Messages            expansionhub/MessageNumbers.h and the switch of `HandlePayload` over reference numbers
--   Packet              the static functions of expansionhub/ExpansionHubSerial.cpp on packets
--   CachedCommand       expansionhub/CachedCommand.h
--   Platform, NtState   expansionhub/PidConstants, MotorNtState, ServoNtState, ExpansionHubNtState
--   Topics              the functions `Initialize` of those four
--   Serial              expansionhub/ExpansionHubSerial: Output (SendPacket, Flush, StartTransaction, Recover,
--                       AllowSend), Requests, Handshake, Reply and Payload (HandlePayload,
--                       CheckForStateAdvance, DoRead), Lifetime; Queue, Keeps, Whole, Sending, Events, Steps,
--                       Typed, Frames, Connect, Advance, Bulk and Disposal hold its proofs; Flow is an
--                       abstract view of a transaction
--   Hub                 expansionhub/main.cpp: Commands (SendInitial, SendCommands), Devices (the handlers of a
--                       bus), Daemon (those of the four buses), Start (main); Keeps, Transaction, Invariant,
--                       Reachable, Written, Named, Declared, Adds, Disabled, Silenced, Told, Plugged, Answered,
--                       Served, Life, Recovered, Recovery, Plug and Powers hold its proofs; Initial and
--                       Exact list what SendInitial and SendCommands send
--   UsbMonitor          expansionhub/SystemDUsbMonitor
--   EnabledState        expansionhub/EnabledState
--   SerialPort          expansionhub/SerialPort
--   PowerDistribution   powerdistribution/main.cpp: its frames; Start has startUvLoop and main
--   Radio               radio/main.cpp and common/version.cpp
--   Tests               concrete values
--
-- A handler is a function of a `Session` (a link, the store of its bus, the answers of the outside, the
-- effects so far) to an optional one: `none` stands for undefined behaviour, such as `*address` without an
-- address or an index out of range, and for an assertion that fails. The one kind of undefined behaviour for
-- which it does not stand is the conversion to `int` or `int16_t` of a `double` that does not fit (a setpoint
-- of a follower, and a power that is no number): a `Platform` has some result for it, and the theorems hold
-- for each result, but not for what else a compiler may make of it. What the outside answers (the clock and
-- the subscribers at each reading, `read`, `open`, systemd, the event loop) is an argument. `write` writes
-- all that it is given. A filter of a CAN socket lets an id through that agrees with its own on the bits of
-- the mask. A byte, a 16-bit id and a `uint64_t` are native numbers with their wrap-around written out; sizes
-- of memory do not wrap. `double` and the controllers of wpimath are the fields of a `Platform`. Texts that
-- are printed are left out. Bytes at a port whose poll goes on without its hub are undefined behaviour. The
-- publishers and subscribers that `Initialize` makes for a bus are the `topics` of its state, each publisher
-- with the member that holds it.
--
-- The only fuel is that of the loop of `HandleBytes`, the length of the read: each round takes a byte or more
-- (Receiver.Bytewise). The 50 tries of `EnabledState::Initialize` and the loops over channels and buses are
-- bounded in the source.
--
-- Not modelled: the headers of systemd, the client libraries for Java and Python, and the build; of
-- radio/main.cpp the code that is commented out.
pub mod Prelude
pub mod Receiver
pub mod Messages
pub mod Packet
pub mod CachedCommand
pub mod Platform
pub mod NtState
pub mod Serial
pub mod Hub
pub mod Topics
pub mod EnabledState
pub mod SerialPort
pub mod UsbMonitor
pub mod PowerDistribution
pub mod Radio
pub mod Tests
