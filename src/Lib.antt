-- ===== src/Lib.antt =====
-- JetCore Service Bus: adapters exchange encrypted and signed events over NATS JetStream. The
-- library libs/jetcore has the envelope of an event, the cryptography, the directory of services
-- and the bus client; every adapter under adapters/ subscribes to a subject, handles what arrives
-- and publishes what came of it.
--
-- How the parts interact. A publish (bus_client.py) asks the recipient cache of the subject
-- (registry.py) for the keys to encrypt for, seals and signs the payload (crypto.py), puts it in an
-- envelope (envelope.py) and sends it. A fetch parses, decrypts and verifies each message against
-- the key that the identity directory (registry.py) has for the sender. An adapter's handler gets
-- the payload, acts, publishes a report and acknowledges.
--
-- Files:
--   Prelude, Prelude/*: names that all files share, tests on numbers, lists over native numbers.
--   Python, Python/*: what the program uses of the language and its library. Exception has the
--     exceptions as values and calls that may raise; Exec has coroutines that change a state and may
--     raise, and Exec/Keeps and Exec/Hoare reason about them; Dict, Json, PurePath, Base64, Base32,
--     Secrets, Text and Equality are the parts of the standard library that are called, and
--     HttpClient is what is called of httpx.
--   Jetcore/Envelope: libs/jetcore/jetcore/envelope.py (Event.to_wire, Event.from_wire).
--   Jetcore/Config: config.py (AdapterSettings, _parse_subjects); Subjects has its proofs.
--   Jetcore/Creds: creds.py (_SEED_BLOCK, load_signing_keypair); Finding has its proofs.
--   Jetcore/Crypto: crypto.py (encrypt_for_recipients, decrypt, sign, verify, _decode_nkey_public).
--   Jetcore/Platform: what nats-py, the clock and the identifiers give, as an interface.
--   Jetcore/Registry, Registry/Cache: registry.py (RegistryClient, RecipientCache); Registry/Identity
--     has the round trip of an identity.
--   Jetcore/BusClient: bus_client.py (BusClient and ReceivedEvent). Sealing has the parts of publish
--     and _process that touch no state; Publish, Receive, Channel, Idempotence, Frame, Order and
--     Redelivery have the proofs.
--   Jetcore/BusClient/Connection: connect, connect_as_adapter and close of bus_client.py; Trust and
--     Closing have the proofs.
--   Jetcore/Bus: the interface that adapters use, and the client that fills it.
--   Adapter: what the handlers of the adapters have in common (run_once, the report).
--   Entrypoint: run and the loops of the __main__.py files under adapters/, as a process whose tasks
--     take turns; Shutdown, Reachable, Ending and Launched have the proofs. Entrypoint/Main is what their main
--     has in common.
--   FileStorage/*: adapters/file_storage_adapter: Paths (paths.py), RecentWrites
--     (recent_writes.py), Payloads (payloads.py), Commands/Write, Read, Delete and Listing (the four
--     handlers), CreateWatch (create_watch.py), Entrypoint and Main (__main__.py, settings.py),
--     FileSystem (pathlib and the clocks, an interface).
--   DbAdapter/*: adapters/db_adapter_mysql/db_adapter_mysql: Payloads (payloads.py), Write
--     (write_handler.py), Cdc (cdc_watcher.py; Log, Published and Termination have the proofs),
--     Entrypoint and Main (__main__.py, settings.py).
--   RestApi/PendingReplies, RestApi/Orders: adapters/rest_api_service/rest_api_service:
--     pending_replies.py (PendingReplies, run_reply_watcher) and create_order of app.py;
--     RestApi/Lifespan: lifespan of app.py, and settings.py.
--   HttpAdapter/*: adapters/http_adapter/http_adapter: Payloads (payloads.py), Trigger
--     (trigger_handler.py), Entrypoint and Main (__main__.py, settings.py).
--   WebhookSender/*: adapters/webhook_sender/webhook_sender: Relay (relay_handler.py), Entrypoint
--     and Main (__main__.py, settings.py).
--   WebhookListener/*: adapters/webhook_listener/webhook_listener: App (app.py) and
--     Lifespan (app.py, settings.py).
--   Tests/*: a JSON codec, libraries and a bus in memory, and the properties at concrete inputs.
--
-- State and errors. A method that changes state is a function from the state to a result and the
-- new state, so what was done before an exception stays done. BusClient's fields are the record
-- Client; the world outside is a state that only the interface's calls change. The exception
-- `blocked` stands for a call that never returns. Logging is left out. A process is its shutdown
-- event, the starts that run has still to make, and its tasks; signals, starts and turns come in
-- any order.
--
-- Bounds. lookup_recipients makes its three attempts. The loop of wait_until_settled takes a number
-- of turns; it returns within stable_reads + 1 turns once the size stays the same. The heartbeat is
-- its first registration and one round of its loop. The change-data capture takes a bound on the
-- events of one pass over the stream and one on the passes; a bound that is met shows as `blocked`.
-- With `n` checks of the shutdown event to come that find it clear, `n` events and `n + 1` passes
-- are enough. A turn of a task is one round of its loop, so a list of events is one way the tasks
-- can interleave. Numbers are unbounded, as Python's are; times and delays are whole milliseconds
-- or seconds.
--
-- Parameters. pydantic's reading and writing of JSON and of dates, json.loads and json.dumps,
-- pyrage, nkeys, PyNaCl, SHA-256 and CRC16, NATS, httpx, the binlog reader and the file system are
-- arguments. What is asked of them, where it is asked, is a named hypothesis: IsFaithful and
-- RoundTrips (what is written is read back), IsSound (decryption inverts encryption for a
-- recipient; PyNaCl verifies the signature of a user's seed under the key of 32 bytes that nkeys
-- wrote as its public key), IsJson (what json.loads raises), IsBucket (a bucket holds what was
-- published under its subjects). The handlers' protocols tell which calls may be made at which
-- stage, and what each leads to.
--
-- Not modelled: how pydantic-settings reads the environment; the installation of the signal
-- handlers (a signal is an event of a process); FastAPI's routing and uvicorn; the engine of the
-- database (db.py) and its disposal; the drawing of a new signing key, which only tools need. In a
-- row of the change-data capture a column is a value of JSON or a date; json.dumps refuses any
-- other. A turn of a task is a whole round of its loop: how the tasks interleave within a round is
-- not modelled.
pub mod Prelude
pub mod Python
pub mod Jetcore
pub mod Adapter
pub mod Entrypoint
pub mod FileStorage
pub mod DbAdapter
pub mod RestApi
pub mod HttpAdapter
pub mod WebhookSender
pub mod WebhookListener
pub mod Tests
