-- ===== src/Jetcore/Bus.antt =====
-- What an adapter uses of the bus client (libs/jetcore/jetcore/bus_client.py), over a state that the
-- adapter does not look into.
use jet_core_service_bus.Prelude.{String, ℕ, Option, List}
use jet_core_service_bus.Python.Exec.{Exec}
use jet_core_service_bus.Jetcore.BusClient.{
  Outside, Client, ReceivedEvent, publish, subscribe, fetch, ack, nak,
}
use jet_core_service_bus.Jetcore.BusClient.Sealing.{Account, Publication}

pub record Bus (S : Type 0) : Type 0 where
  pub publish : Publication → Exec S String
  pub subscribe : String → Option String → Exec S String
  -- Durable name, batch, timeout in milliseconds
  pub fetch : String → ℕ → ℕ → Exec S (List ReceivedEvent)
  pub ack : ReceivedEvent → Exec S (Unit {0})
  pub nak : ReceivedEvent → Exec S (Unit {0})

-- The bus that a connected client is
abbrev pub client_bus : (O : Outside) → Account → Bus (Client O)
client_bus O account = record {
  publish = publish O account;
  subscribe = subscribe O account;
  fetch = fetch O account;
  ack = ack O;
  nak = nak O;
}
