-- ===== src/Lib.antt =====
-- Cajui firmware: battery-powered nodes send sensor samples over LoRa to a receiver, which queues
-- them durably and acknowledges each with an authenticated ACK.
--
-- The parts, and where they are modelled:
--   Wire, Protocol       lib/CajuiProtocol/src: cajui_wire.h (`put`, `get`, `nonce`), cajui_protocol.h
--                        (the types), codec.cpp (`seal`, `open` as `open_frame`, `untrustedType`,
--                        `untrustedDataNode`), crypto.cpp (the bounds round AES-GCM) and delivery.cpp
--                        (`receive`, and `Sender` as a record with `begin`, `next_attempt`,
--                        `acknowledge`, `abandon`).
--   Records              lib/CajuiStorage/src: records.h, records.cpp and cajui_crc32.cpp, the bytes of
--                        every stored record and their names.
--   Storage              lib/CajuiStorage/src/cajui_storage.cpp: `PersistentStore` as the record
--                        `Store`; Enrolling has the operations on enrollments, Sampling those on
--                        counters, receipts and the queue, Mounting `mount`, `load` and
--                        `loadReceiver`, Migrating `migrate`, and Snapshots the v1 layout of
--                        snapshot.h and snapshot.cpp.
--   Runtime              lib/CajuiRuntime/src: `SendController`, which drives one delivery cycle.
--   Application          lib/CajuiApplication/src: `DuplicateAckLimiter` and `ReceiverController`.
--   Device               lib/CajuiDevice/src/cajui_device.cpp: boot mode, transmit power, restart
--                        delay and battery.
--   Pairing              lib/CajuiPairing/src: the frames (Frames), random values and keys (Keys),
--                        `PairingHost` (Candidates, Host, Accepting) and `PairingClient` (Client).
--   Firmware             lib/CajuiFirmware/src: `UpdateReceiver`.
--   Base                 the shared tests, list operations and machine integers.
--   Tests                a concrete cipher, record store and radio, and the theorems at work.
--
-- How they interact: `SendController` calls `Sender`, which asks a `CounterStore` for its counters and
-- seals frames; `ReceiverController` calls `receive` with the store as its `Journal`. Both interfaces
-- are records of functions over a state (Protocol.Delivery), which Storage.Sampling fills. Pairing
-- prepares and activates generations in the same store, whose `mount` reads back what it wrote.
--
-- How the code is represented:
--   * A frame is the list of its first `size` bytes, the readings of a sample the list of the first
--     `count`; bytes past these are never read. Fixed arrays of slots are lists of 16 elements.
--   * Unsigned integers are natural numbers with the wrap-around written out where the code can reach
--     it: counters and sequences modulo 2^64, clocks modulo 2^32. The queue's size is `tail - head`,
--     which the theorems on the queue use with `head` at most `tail`. Signed fields are integers with
--     the conversions of int8_t, int16_t and int32_t.
--   * `Type` and `Status`, which come off the wire by a cast, are the numbers of their bytes.
--   * A method that changes its object returns the new state; references to the clock, the radio, the
--     jitter source and the records are interfaces over a state that each call may change. The host
--     of pairing takes the readings of its clock as arguments instead.
--   * The scratch members `buffer_`, `next_` and `nextRetired_` are arguments and results.
--   * All loops are structural recursion over lists or a count, so no fuel is needed: every function
--     is total.
--
-- What is assumed: AES-128-GCM and HKDF are a parameter `Crypto`; its laws say that the ciphertext is
-- as long as the plaintext, the tag has 16 bytes, and opening undoes sealing. The record store is a
-- parameter `RecordStore`; its laws are the promises in the comments of cajui_storage.h. X25519 is a
-- parameter `Curve`, whose law is that both parties compute one secret; the random bytes are `Entropy`.
-- A firmware update runs over a `Platform` of a streaming SHA-256, a signature check and the flash; the
-- hash's laws say that a digest is a function of all the bytes it was given, in order.
--
-- What is not modelled: the failed allocation of the migration's buffers and null pointers into the
-- decoders of records; `snapshot::encode`, which only tests call; the wiping of secrets beyond the
-- reset of the fields; provisioning, setup and uplink; climateSample, which rounds floating point;
-- the NVS, radio and network adapters, which are input and output; tables of texts.
pub mod Base
pub mod Wire
pub mod Protocol
pub mod Records
pub mod Storage
pub mod Runtime
pub mod Device
pub mod Application
pub mod Pairing
pub mod Firmware
pub mod Tests
