-- ===== src/Mqtt/Calls/Registration.antt =====
-- pkg/messagix/payload.go: newSubscribeRequest, from the payload to the registered channel.
use meta_matrix_bridge.Prelude.{ℕ, ◌^◌, ◌<◌, ◌≡◌, refl, List, [], ◌∷◌, Bool, some, arith, length}
use meta_matrix_bridge.Prelude.Outcome.{ok}
use meta_matrix_bridge.Packets.{subscribe_compress}
use meta_matrix_bridge.Byter.Struct.{Value, unsigned, write_from_struct, read_to_struct}
use meta_matrix_bridge.Byter.Struct.RoundTrip.{AllWire, with_values}
use meta_matrix_bridge.Mqtt.{subscribe_payload, header_slots}
use meta_matrix_bridge.Mqtt.Requests.{request_write-reads_payload}
use meta_matrix_bridge.Mqtt.Calls.{register, new_subscribe_request}
use meta_matrix_bridge.Pending.{
  packet_channel, ResponseHandler, add_channel, get_channel, safe_packet_id, open_channel,
}
use meta_matrix_bridge.Pending.Validity.{IsValid, store_same}
use meta_matrix_bridge.Pending.Steps.{add_channel-IsValid}
use meta_matrix_bridge.Pending.Answers.{get_channel-add_channel}

safe_packet_id_bounds : (n : ℕ) → (0 < safe_packet_id n) × (safe_packet_id n < 65536)
unfolding safe_packet_id
safe_packet_id_bounds n = ground arith

-- A subscription whose payload fits the wire in fewer than 2 ^ 28 bytes becomes a packet with an
-- identifier from 1 to 65535, from which its payload is read back; the channel of the identifier is
-- registered, open and empty, and the handler stays valid.
pub new_subscribe_request_registers :
    {A : Type 0} (accepts : List ℕ → Bool) (old : Value → Value) (p : ResponseHandler A)
    (packets_sent : ℕ) (topic body : List ℕ) (qos : ℕ)
    → IsValid p
    → AllWire (subscribe_payload (safe_packet_id packets_sent) topic qos)
    → write_from_struct (subscribe_payload (safe_packet_id packets_sent) topic qos) ≡ ok body
    → length body < 2 ^ 28
    → (packet : List ℕ) × (q : ResponseHandler A) × (c : ℕ) × (new_subscribe_request p packets_sent
          topic qos
        ≡ some (record {
          request = ok (packet, safe_packet_id packets_sent);
          handler = q;
          packets_sent = safe_packet_id packets_sent;
        }))
      × (0 < safe_packet_id packets_sent)
      × (safe_packet_id packets_sent < 65536)
      × (read_to_struct accepts
            (with_values old (header_slots subscribe_compress (length body)))
            packet
          ≡ ok (unsigned subscribe_compress ∷ unsigned (length body) ∷ [], body))
      × (get_channel packet_channel (safe_packet_id packets_sent) q.entries ≡ some c)
      × (q.heap c ≡ open_channel)
      × IsValid q
unfolding new_subscribe_request register
new_subscribe_request_registers accepts old p packets_sent topic body qos valid wire wrote small =
    let id = safe_packet_id packets_sent in
    let byte : subscribe_compress < 256 = unfold subscribe_compress in omega arith in
    let (packet, built, head, rest) =
      request_write-reads_payload accepts subscribe_compress (subscribe_payload id topic qos) body
        old byte wire wrote small in
    let (low, high) = safe_packet_id_bounds packets_sent in
    let (found, kept) = get_channel-add_channel p id packet_channel in
    let fresh : (add_channel packet_channel p id).heap p.next ≡ open_channel =
      unfold add_channel in store_same p.heap p.next open_channel in
    (
      packet,
      add_channel packet_channel p id,
      p.next,
      rw (built, register) refl,
      low,
      high,
      head,
      found,
      fresh,
      add_channel-IsValid packet_channel p id valid,
    )
