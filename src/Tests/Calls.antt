-- ===== src/Tests/Calls.antt =====
-- A subscription request of pkg/messagix/payload.go, with its registration.
use meta_matrix_bridge.Prelude.{ℕ, ◌<◌, ◌≡◌, refl, List, [], ◌∷◌, some, arith}
use meta_matrix_bridge.Prelude.Outcome.{ok}
use meta_matrix_bridge.Prelude.Text.{codes}
use meta_matrix_bridge.Packets.{subscribe_compress}
use meta_matrix_bridge.Byter.Struct.{unsigned, read_to_struct, write_from_struct}
use meta_matrix_bridge.Byter.Struct.RoundTrip.{AllWire, with_values}
use meta_matrix_bridge.Mqtt.{header_slots, subscribe_payload}
use meta_matrix_bridge.Mqtt.Calls.{new_subscribe_request}
use meta_matrix_bridge.Mqtt.Calls.Registration.{new_subscribe_request_registers}
use meta_matrix_bridge.Pending.{
  packet_channel, ResponseHandler, get_channel, safe_packet_id, open_channel,
}
use meta_matrix_bridge.Pending.Validity.{IsValid}
use meta_matrix_bridge.Tests.Wire.{
  accept_all, cleared, subscription-AllWire, subscription_bytes, subscription_written,
}

abbrev nothing_pending : ResponseHandler ℕ
nothing_pending = record { entries = []; heap = λ c. open_channel; next = 0 }

sixth_id : safe_packet_id 6 ≡ 7
unfolding safe_packet_id
sixth_id = refl

sixth-AllWire : AllWire (subscribe_payload (safe_packet_id 6) (codes "/ls_resp") 1)
sixth-AllWire = rw sixth_id subscription-AllWire

sixth_written :
    write_from_struct (subscribe_payload (safe_packet_id 6) (codes "/ls_resp") 1)
    ≡ ok subscription_bytes
sixth_written = rw sixth_id subscription_written

new_subscribe_request_registers_example :
    (packet : List ℕ) × (q : ResponseHandler ℕ) × (c : ℕ) × (new_subscribe_request nothing_pending 6
        (codes "/ls_resp")
        1
      ≡ some (record {
        request = ok (packet, safe_packet_id 6);
        handler = q;
        packets_sent = safe_packet_id 6;
      }))
    × (0 < safe_packet_id 6)
    × (safe_packet_id 6 < 65536)
    × (read_to_struct accept_all (with_values cleared (header_slots subscribe_compress 13)) packet
        ≡ ok (unsigned subscribe_compress ∷ unsigned 13 ∷ [], subscription_bytes))
    × (get_channel packet_channel (safe_packet_id 6) q.entries ≡ some c)
    × (q.heap c ≡ open_channel)
    × IsValid q
new_subscribe_request_registers_example =
    new_subscribe_request_registers accept_all cleared nothing_pending 6 (codes "/ls_resp")
      subscription_bytes 1 (record { live = tt; distinct = tt }) sixth-AllWire sixth_written
      (omega arith)
