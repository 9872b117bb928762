-- ===== src/Tests/Delivering.antt =====
-- Frames, the exchange and the sender, at concrete inputs.
use cajui_firmware.Base.{
  ℕ, ◌+◌, ◌≤◌, ◌≡◌, refl, inl, pos, true, List, [], ◌∷◌, some, arith, length, All,
}
use cajui_firmware.Protocol.{Result, keep_power, Frame, Data, Message, wire_v2, type_data}
use cajui_firmware.Protocol.Codec.{seal, open_frame, nonce_for}
use cajui_firmware.Protocol.Nonces.{nonce_for-injective}
use cajui_firmware.Protocol.Payload.{IsSample}
use cajui_firmware.Protocol.RoundTrip.{IsIdentity, IsMessage, open_frame-seal}
use cajui_firmware.Protocol.Delivery.{
  Sender, new_sender, receive, begin, next_attempt, acknowledge, command_for,
}
use cajui_firmware.Protocol.Delivery.Exchange.{Accepted, receive_ok, receive-receive}
use cajui_firmware.Protocol.Delivery.Confirmed.{delivers}
use cajui_firmware.Protocol.Delivery.Attempts.{
  Event, attempt, heard, transmissions, transmissions_bound,
}
use cajui_firmware.Records.{Role}
use cajui_firmware.Storage.{Store}
use cajui_firmware.Storage.Journaling.{IsSized}
use cajui_firmware.Storage.Sampling.{journal, counters}
use cajui_firmware.Storage.Refinement.{journal-JournalLaws}
use cajui_firmware.Protocol.Delivery.Exchange.{JournalLaws}
use cajui_firmware.Tests.World.{
  clear_cipher, clear_cipher-Laws, Memory, memory, node, sample, data_message, strong, store_of,
}

abbrev sealed : Frame
sealed = (seal clear_cipher node data_message).1

seal_ok : seal clear_cipher node data_message ≡ (Result.ok, sealed)
unfolding seal cajui_firmware.Protocol.Codec.sealable cajui_firmware.Protocol.Crypto.encrypt
    cajui_firmware.Protocol.Codec.header cajui_firmware.Wire.put
    cajui_firmware.Protocol.Codec.plaintext
seal_ok = refl

node_fits : IsIdentity node
node_fits = record { network_fits = omega arith; node_fits = omega arith }

sample_fits : IsSample sample
sample_fits = record {
  battery_fits = omega arith;
  interval_fits = omega arith;
  readings_fit = (
    record {
      sensor_fits = omega arith;
      metric_fits = omega arith;
      unit_fits = omega arith;
      status_fits = omega arith;
      value_fits = omega arith;
    },
    tt,
  );
}

data_message-IsMessage : IsMessage data_message
data_message-IsMessage = (
  omega arith,
  inl (record { is_data = refl; sample_fits = sample_fits; no_data_tag = refl; no_power = refl }),
)

open_frame-seal_example : open_frame clear_cipher node sealed ≡ (Result.ok, data_message)
open_frame-seal_example =
    open_frame-seal clear_cipher clear_cipher-Laws node data_message sealed node_fits
      data_message-IsMessage seal_ok

nonce_for-injective_example : (type_data ≡ type_data) × (wire_v2 ≡ wire_v2) × (◌≡◌ {A = ℕ} 7 7)
unfolding nonce_for cajui_firmware.Wire.put
nonce_for-injective_example =
    nonce_for-injective type_data type_data wire_v2 wire_v2 7 7 (omega arith) (omega arith) refl

-- A transmitter's store and a receiver's, and one sample between them.
abbrev sensor : Store Memory
sensor = store_of Role.transmitter 9

abbrev base : Store Memory
base = store_of Role.receiver 2

abbrev sender : Sender
sender = (begin clear_cipher (counters memory) node sample wire_v2 new_sender sensor).1

abbrev sensor_after : Store Memory
sensor_after = (begin clear_cipher (counters memory) node sample wire_v2 new_sender sensor).2

begin_ok :
    begin clear_cipher (counters memory) node sample wire_v2 new_sender sensor
    ≡ (Result.ok, sender, sensor_after)
unfolding begin cajui_firmware.Protocol.Codec.valid_data cajui_firmware.Protocol.Delivery.begin_with
    cajui_firmware.Storage.Sampling.reserve cajui_firmware.Storage.authorized
    cajui_firmware.Storage.find_index cajui_firmware.Storage.is_authority
    cajui_firmware.Storage.Sampling.reserve_at cajui_firmware.Storage.save_registry
    cajui_firmware.Storage.Sampling.count_up cajui_firmware.Protocol.Delivery.start_sample seal
    cajui_firmware.Protocol.Codec.sealable cajui_firmware.Protocol.Crypto.encrypt
    cajui_firmware.Protocol.Codec.header cajui_firmware.Wire.put
    cajui_firmware.Protocol.Codec.plaintext
begin_ok = refl

abbrev ack : Frame
ack =
    (receive clear_cipher (journal memory clear_cipher) node sender.pending strong (pos 10) base).1

abbrev base_after : Store Memory
base_after =
    (receive clear_cipher (journal memory clear_cipher) node sender.pending strong (pos 10) base).2

received :
    receive clear_cipher (journal memory clear_cipher) node sender.pending strong (pos 10) base
    ≡ (Result.ok, ack, base_after)
unfolding receive cajui_firmware.Protocol.Delivery.after_open open_frame
    cajui_firmware.Protocol.Codec.open_envelope cajui_firmware.Protocol.Codec.bad_size begin
    cajui_firmware.Protocol.Codec.valid_data cajui_firmware.Protocol.Delivery.begin_with
    cajui_firmware.Storage.Sampling.reserve cajui_firmware.Storage.authorized
    cajui_firmware.Storage.find_index cajui_firmware.Storage.is_authority
    cajui_firmware.Storage.Sampling.reserve_at cajui_firmware.Storage.save_registry
    cajui_firmware.Storage.Sampling.count_up cajui_firmware.Protocol.Delivery.start_sample seal
    cajui_firmware.Protocol.Codec.sealable cajui_firmware.Protocol.Crypto.encrypt
    cajui_firmware.Protocol.Codec.header cajui_firmware.Wire.put
    cajui_firmware.Protocol.Codec.plaintext cajui_firmware.Protocol.Codec.bad_kind
    cajui_firmware.Protocol.Codec.foreign cajui_firmware.Wire.get
    cajui_firmware.Protocol.Codec.bad_layout cajui_firmware.Storage.Sampling.make_space
    cajui_firmware.Storage.Sampling.store_sample cajui_firmware.Storage.Sampling.revoke_superseded
    cajui_firmware.Storage.Sampling.any_superseded cajui_firmware.Protocol.Delivery.answer
    cajui_firmware.Protocol.Delivery.response cajui_firmware.Protocol.Codec.read_envelope
    cajui_firmware.Protocol.Codec.payload_length cajui_firmware.Protocol.Codec.open_payload
    cajui_firmware.Protocol.Crypto.decrypt cajui_firmware.Protocol.Codec.decode_payload
    cajui_firmware.Protocol.Codec.decode_data cajui_firmware.Protocol.Codec.count_of
    cajui_firmware.Protocol.Codec.read_data cajui_firmware.Protocol.Delivery.after_load
    cajui_firmware.Storage.Sampling.load cajui_firmware.Protocol.Delivery.judge
    cajui_firmware.Protocol.Delivery.accept cajui_firmware.Storage.Sampling.commit
    cajui_firmware.Storage.Sampling.commit_at cajui_firmware.Storage.Sampling.matches
    cajui_firmware.Protocol.Delivery.new_receipt cajui_firmware.Storage.Sampling.append_sample
received = refl

base-IsSized : IsSized base
base-IsSized = record { entries_sized = refl; receipts_sized = refl; counts_sized = refl }

journal-JournalLaws_example : JournalLaws IsSized (journal memory clear_cipher)
journal-JournalLaws_example = journal-JournalLaws memory clear_cipher

receive_ok_example :
    Accepted clear_cipher
      (journal memory clear_cipher)
      node
      sender.pending
      strong
      (pos 10)
      base
      ack
      base_after
receive_ok_example =
    receive_ok clear_cipher (journal memory clear_cipher) node sender.pending strong (pos 10) base
      base_after ack received

receive-receive_example :
    receive clear_cipher (journal memory clear_cipher) node sender.pending strong (pos 2) base_after
    ≡ (Result.duplicate, ack, base_after)
receive-receive_example =
    receive-receive clear_cipher (journal memory clear_cipher)
      (journal-JournalLaws memory clear_cipher) node sender.pending strong strong (pos 10) (pos 2)
      base base_after ack base-IsSized received

delivers_example :
    (next_attempt sender ≡ (some sender.pending, record sender { attempts = 1 }))
    × (acknowledge clear_cipher ack (record sender { attempts = 1 })
        ≡ (Result.ok, record sender { attempts = 1; delivered = true; power = pos 10 }))
unfolding begin cajui_firmware.Protocol.Codec.valid_data cajui_firmware.Protocol.Delivery.begin_with
    cajui_firmware.Storage.Sampling.reserve cajui_firmware.Storage.authorized
    cajui_firmware.Storage.find_index cajui_firmware.Storage.is_authority
    cajui_firmware.Storage.Sampling.reserve_at cajui_firmware.Storage.save_registry
    cajui_firmware.Storage.Sampling.count_up cajui_firmware.Protocol.Delivery.start_sample seal
    cajui_firmware.Protocol.Codec.sealable cajui_firmware.Protocol.Crypto.encrypt
    cajui_firmware.Protocol.Codec.header cajui_firmware.Wire.put
    cajui_firmware.Protocol.Codec.plaintext command_for
delivers_example =
    delivers clear_cipher clear_cipher-Laws (journal memory clear_cipher) (counters memory) node
      sample wire_v2 new_sender sender sensor sensor_after strong (pos 10) base base_after ack
      node_fits sample_fits (omega arith) (omega arith) begin_ok received

abbrev four_attempts : List Event
four_attempts = attempt ∷ attempt ∷ heard sender.pending ∷ attempt ∷ attempt ∷ []

transmissions_bound_example :
    (length (transmissions clear_cipher four_attempts sender) + sender.attempts ≤ 3)
    × All (λ f. f ≡ sender.pending) (transmissions clear_cipher four_attempts sender)
unfolding begin cajui_firmware.Protocol.Codec.valid_data cajui_firmware.Protocol.Delivery.begin_with
    cajui_firmware.Storage.Sampling.reserve cajui_firmware.Storage.authorized
    cajui_firmware.Storage.find_index cajui_firmware.Storage.is_authority
    cajui_firmware.Storage.Sampling.reserve_at cajui_firmware.Storage.save_registry
    cajui_firmware.Storage.Sampling.count_up cajui_firmware.Protocol.Delivery.start_sample seal
    cajui_firmware.Protocol.Codec.sealable cajui_firmware.Protocol.Crypto.encrypt
    cajui_firmware.Protocol.Codec.header cajui_firmware.Wire.put
    cajui_firmware.Protocol.Codec.plaintext
transmissions_bound_example = transmissions_bound clear_cipher four_attempts sender (omega arith)
