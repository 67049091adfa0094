-- ===== src/Tests/Wire.antt =====
-- Runs of the MQTT packets of pkg/messagix and of its package byter.
use meta_matrix_bridge.Prelude.{
  ℕ, ◌^◌, ◌≤◌, ◌<◌, ◌≡◌, refl, List, [], ◌∷◌, ◌++◌, Bool, true, false, none, some, arith, length,
  map,
}
use meta_matrix_bridge.Prelude.Outcome.{ok, panic}
use meta_matrix_bridge.Prelude.Text.{codes}
use meta_matrix_bridge.Word.{put_be}
use meta_matrix_bridge.Packets.{PublishPacket, ConnectFlags, connect_compress}
use meta_matrix_bridge.Byter.Vlq.{encode_vlq, encode_vlq_loop, decode_vlq}
use meta_matrix_bridge.Byter.Vlq.RoundTrip.{decode-encode_vlq}
use meta_matrix_bridge.Byter.Vlq.Bounds.{decode_vlq_bounds}
use meta_matrix_bridge.Byter.Integer.{write_string}
use meta_matrix_bridge.Byter.Struct.{
  Slot, Value, text, json, unsigned, untouched, u16_kind, read_to_struct, write_from_struct,
}
use meta_matrix_bridge.Byter.Struct.RoundTrip.{
  AllWire, read-write_struct, text_wire, fixed_wire, enum_wire, with_values,
}
use meta_matrix_bridge.Mqtt.{
  subscribe_payload, publish_payload, connect_payload, header_slots, request_write,
  new_connect_request, response_map, event_publish_response, response_read,
}
use meta_matrix_bridge.Mqtt.Requests.{request_write-reads, new_connect_request_reads}
use meta_matrix_bridge.Mqtt.Responses.{response_read-publish, response_read_short_publish}

abbrev pub accept_all : List ℕ → Bool
accept_all bs = true

abbrev pub cleared : Value → Value
cleared v = unsigned 0

-- A subscription to the topic `/ls_resp` with QoS 1.
abbrev pub subscription : List Slot
subscription = subscribe_payload 7 (codes "/ls_resp") 1

pub subscription-AllWire : AllWire subscription
subscription-AllWire = (
  fixed_wire u16_kind 7 refl refl refl refl refl tt (omega arith),
  (
    text_wire (codes "/ls_resp") 2 refl refl refl refl refl tt (omega arith) (omega arith),
    (enum_wire 1 refl refl refl refl refl tt (omega arith), tt),
  ),
)

abbrev pub subscription_bytes : List ℕ
subscription_bytes = 0 ∷ 7 ∷ 0 ∷ 8 ∷ (codes "/ls_resp" ++ (1 ∷ []))

read-write_struct_example :
    (bs : List ℕ) × (write_from_struct subscription ≡ ok bs)
    × (read_to_struct accept_all (with_values cleared subscription) (bs ++ (9 ∷ []))
        ≡ ok (map (λ s. s.1) subscription, 9 ∷ []))
read-write_struct_example =
    read-write_struct accept_all subscription cleared (9 ∷ []) subscription-AllWire

pub subscription_written : write_from_struct subscription ≡ ok subscription_bytes
unfolding write_from_struct write_string put_be
subscription_written = refl

abbrev publication : List Slot
publication = publish_payload (codes "/ls_req") 7 (codes "{}")

abbrev publication_bytes : List ℕ
publication_bytes = 0 ∷ 7 ∷ (codes "/ls_req" ++ (0 ∷ 7 ∷ codes "{}"))

publication_written : write_from_struct publication ≡ ok publication_bytes
unfolding write_from_struct write_string put_be
publication_written = refl

request_write-reads_example :
    (packet : List ℕ) × (request_write 0x32 publication ≡ ok packet)
    × (read_to_struct accept_all (with_values cleared (header_slots 0x32 13)) packet
        ≡ ok (unsigned 0x32 ∷ unsigned 13 ∷ [], publication_bytes))
request_write-reads_example =
    request_write-reads accept_all 0x32 publication publication_bytes cleared (omega arith)
      publication_written (omega arith)

new_connect_request_reads_example :
    (packet body : List ℕ) × (new_connect_request (codes "{}") 0x82 ≡ ok packet)
    × (read_to_struct accept_all
          (with_values cleared (header_slots connect_compress (length body)))
          packet
        ≡ ok (unsigned 0x10 ∷ unsigned (length body) ∷ [], body))
    × (read_to_struct accept_all (with_values cleared (connect_payload (codes "{}") 0x82)) body
        ≡ ok (map (λ s. s.1) (connect_payload (codes "{}") 0x82), []))
new_connect_request_reads_example =
    new_connect_request_reads accept_all (codes "{}") 0x82 cleared (omega arith) (omega arith)

thirteen_vlq : encode_vlq 13 ≡ some (13 ∷ [])
unfolding encode_vlq encode_vlq_loop
thirteen_vlq = refl

response_read-publish_example :
    response_read accept_all
      (0x32 ∷ ((13 ∷ []) ++ (put_be 2 8 ++ (codes "/ls_resp" ++ (put_be 2 5 ++ codes "{}")))))
    ≡ ok (record {
      packet_byte = 0x32;
      remaining_length = 13;
      handler = event_publish_response;
      values =
          text (codes "/ls_resp") ∷ json (codes "{}") ∷ untouched ∷ unsigned 5 ∷ unsigned 0 ∷ [];
    })
response_read-publish_example =
    response_read-publish accept_all 0x32 13 5 (13 ∷ []) (codes "/ls_resp") (codes "{}")
      (omega arith) refl refl (omega arith) thirteen_vlq refl (omega arith) (λ e. cc) refl

response_read_short_publish_example :
    response_read accept_all (0x32 ∷ ((13 ∷ []) ++ codes "/t")) ≡ panic
response_read_short_publish_example =
    response_read_short_publish accept_all 0x32 13 (13 ∷ []) (codes "/t") (omega arith) refl refl
      (omega arith) thirteen_vlq (omega arith)

no_subscribe_handler : response_map 8 ≡ none
unfolding response_map
no_subscribe_handler = refl

decode-encode_vlq_example :
    (bs : List ℕ) × (encode_vlq 321 ≡ some bs)
    × (0 < length bs)
    × (length bs ≤ 4)
    × (decode_vlq (bs ++ (7 ∷ [])) ≡ ok (321, 7 ∷ []))
decode-encode_vlq_example = decode-encode_vlq 321 (7 ∷ []) (omega arith)

decoded : decode_vlq (0xc1 ∷ 2 ∷ 9 ∷ []) ≡ ok (321, 9 ∷ [])
unfolding decode_vlq
decoded = refl

decode_vlq_bounds_example : (321 < 2 ^ 28) × (1 < 3) × (3 ≤ 5)
decode_vlq_bounds_example =
    decode_vlq_bounds (0xc1 ∷ 2 ∷ 9 ∷ []) 321 (9 ∷ [])
      (omega arith, (omega arith, (omega arith, tt))) decoded

abbrev retained : PublishPacket
retained = record { packet_type = 3; dup = 0; qos_level = 1; retain_flag = 1 }

abbrev with_user_name : ConnectFlags
with_user_name = record {
  username = true;
  password = false;
  retain = false;
  qos = 1;
  clean_session = true;
}
