-- ===== src/Pairing/Attempts.antt =====
-- The node's attempt to pair: what one `poll` does to it.
use cajui_firmware.Base.{◌≤◌, ◌≡◌, ◌⊎◌, Bool, true, false}
use cajui_firmware.Protocol.{Frame}
use cajui_firmware.Protocol.Crypto.{Crypto}
use cajui_firmware.Storage.{RecordStore}
use cajui_firmware.Runtime.{Outside, ReceiveStatus}
use cajui_firmware.Pairing.{Curve}
use cajui_firmware.Storage.Enrolling.{activate}
use cajui_firmware.Protocol.{Result}
use cajui_firmware.Storage.{Store}
use cajui_firmware.Pairing.Keys.{prepare_fresh}
use cajui_firmware.Pairing.Client.{ClientState, Client, confirm_attempts, is_done}

abbrev pub is_paired : ClientState → Bool
is_paired ClientState.paired = true
is_paired _ = false

-- An attempt that has not paired, with at most five confirmations, and whose transmission does not end
-- in Paired.
pub record IsAttempt {R : Type 0} (k : Client R) : Type 0 where
  pub unpaired : is_paired k.state ≡ false
  pub next_unpaired : is_paired k.after_send ≡ false
  pub few : k.confirms ≤ confirm_attempts

module _ {R W : Type 0} (o : Outside W) where
  module _ (store : RecordStore R) (c : Crypto) (curve : Curve) where
    -- What storing the binding leaves: an attempt that failed, or a client that paired, whose store
    -- prepared and then activated the offer's generation under the attempt's key.
    pub record IsStored (k k' : Client R) : Type 0 where
      pub prepared : Store R
      pub preparation :
          prepare_fresh store c
            (record {
              network = k.offer.network;
              receiver = k.offer.receiver;
              node = k.store.device;
              generation = k.offer.generation;
              key = k.key;
              profile = 1;
            })
            k.store
          ≡ (Result.ok, prepared)
      pub activation :
          activate store c k.store.device k.offer.generation prepared ≡ (Result.ok, k'.store)

    -- A poll that stored the binding: the frame is the one that the radio answered with in this poll.
    pub record IsJoining (k : Client R) (heard : ReceiveStatus) (k' : Client R) : Type 0 where
      pub frame : Frame
      pub received : heard ≡ ReceiveStatus.received frame
      pub verified : is_done store c frame k ≡ true
      pub outcome : (k'.state ≡ ClientState.failed) ⊎ IsStored k k'

    -- What a poll leaves, where the radio's next answer is `heard`.
    abbrev pub IsNext : Client R → ReceiveStatus → Client R → Type 0
    IsNext k heard k' = IsAttempt k' ⊎ IsJoining k heard k'
