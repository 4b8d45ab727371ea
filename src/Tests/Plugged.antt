-- ===== src/Tests/Plugged.antt =====
-- A hub that is plugged in, and answers.
use scservices.Prelude.{none}
use scservices.Serial.{new_serial}
use scservices.Hub.Daemon.{States}
use scservices.Tests.{toy, bus_of}

abbrev unplugged : States toy
unplugged bus = record (bus_of new_serial) { current_hub = none }
