-- ===== src/Mqtt/Requests.antt =====
-- What Request.Write sends: the packet, its length, and its payload.
use meta_matrix_bridge.Prelude.{
  ℕ, ◌+◌, ◌^◌, ◌<◌, ◌≡◌, refl, List, [], ◌∷◌, ◌++◌, Bool, arith, length, length-append, map,
  append-nil, append_assoc,
}
use meta_matrix_bridge.Prelude.Outcome.{ok}
use meta_matrix_bridge.Word.{u32, put_be}
use meta_matrix_bridge.Word.RoundTrip.{length-put_be}
use meta_matrix_bridge.Packets.{connect_compress}
use meta_matrix_bridge.Byter.{unset_endian}
use meta_matrix_bridge.Byter.Integer.{write_integer}
use meta_matrix_bridge.Byter.Integer.RoundTrip.{write_string_u16, write_string_plain}
use meta_matrix_bridge.Byter.Struct.{
  Value, u8_kind, u16_kind, u32_kind, Slot, read_to_struct, write_from_struct, unsigned,
}
use meta_matrix_bridge.Byter.Struct.RoundTrip.{
  vlq_wire, fixed_wire, text_wire, AllWire, with_values, read-write_struct,
}
use meta_matrix_bridge.Mqtt.{
  protocol_name, protocol_client_id, header_slots, request_write, connect_payload,
  new_connect_request, publish_payload,
}

header_wire :
    (packet_byte n : ℕ) → packet_byte < 256 → n < 2 ^ 28 → AllWire (header_slots packet_byte n)
header_wire packet_byte n h l = (
  fixed_wire u8_kind packet_byte refl refl refl refl refl tt h,
  (vlq_wire u32_kind n refl refl refl refl refl l, tt),
)

u32_small : (n : ℕ) → n < 2 ^ 28 → u32 n ≡ n
u32_small n h = omega arith

-- A request with any payload that WriteFromStruct writes in less than 2 ^ 28 bytes is a header and the
-- bytes of the payload: reading the header gives the packet byte and the exact length of the payload,
-- and leaves the bytes of the payload.
pub request_write-reads :
    (accepts : List ℕ → Bool) (packet_byte : ℕ) (payload : List Slot) (body : List ℕ)
    (old : Value → Value)
    → packet_byte < 256
    → write_from_struct payload ≡ ok body
    → length body < 2 ^ 28
    → (packet : List ℕ) × (request_write packet_byte payload ≡ ok packet)
      × (read_to_struct accepts (with_values old (header_slots packet_byte (length body))) packet
          ≡ ok (unsigned packet_byte ∷ unsigned (length body) ∷ [], body))
unfolding request_write
request_write-reads accepts packet_byte payload body old hp wrote short =
    let (header, wrote_header, got) =
      read-write_struct accepts (header_slots packet_byte (length body)) old body
        (header_wire packet_byte (length body) hp short) in
    (header ++ body, rw (wrote, u32_small (length body) short, wrote_header), got)

-- When each field of the payload fits the wire, the struct of the payload is read back from its bytes.
pub request_write-reads_payload :
    (accepts : List ℕ → Bool) (packet_byte : ℕ) (payload : List Slot) (body : List ℕ)
    (old : Value → Value)
    → packet_byte < 256
    → AllWire payload
    → write_from_struct payload ≡ ok body
    → length body < 2 ^ 28
    → (packet : List ℕ) × (request_write packet_byte payload ≡ ok packet)
      × (read_to_struct accepts (with_values old (header_slots packet_byte (length body))) packet
          ≡ ok (unsigned packet_byte ∷ unsigned (length body) ∷ [], body))
      × (read_to_struct accepts (with_values old payload) body ≡ ok (map (λ s. s.1) payload, []))
request_write-reads_payload accepts packet_byte payload body old hp wire wrote short =
    let (packet, written, got) =
      request_write-reads accepts packet_byte payload body old hp wrote short in
    let (body', wrote', got') = read-write_struct accepts payload old [] wire in
    let same : body' ≡ body = cc (wrote, wrote') in
    (packet, written, got, rw (append-nil, same) at got')

connect_wire :
    (json_data : List ℕ) (flags : ℕ)
    → flags < 256
    → length json_data < 65536
    → AllWire (connect_payload json_data flags)
connect_wire json_data flags hf hj = (
  text_wire _ 2 refl refl refl refl refl tt (omega arith) (omega arith),
  (
    fixed_wire u8_kind _ refl refl refl refl refl tt (omega arith),
    (
      fixed_wire u8_kind flags refl refl refl refl refl tt (omega arith),
      (
        fixed_wire u16_kind _ refl refl refl refl refl tt (omega arith),
        (
          text_wire _ 2 refl refl refl refl refl tt (omega arith) (omega arith),
          (text_wire json_data 2 refl refl refl refl refl tt (omega arith) (omega arith), tt),
        ),
      ),
    ),
  ),
)

-- The payload of a publish request as bytes: the topic behind its length, the packet identifier,
-- and the JSON text with no length, which the remaining length delimits.
pub publish_payload_bytes :
    (topic json_data : List ℕ) (packet_id : ℕ)
    → write_from_struct (publish_payload topic packet_id json_data)
      ≡ ok (put_be 2 (length topic) ++ (topic ++ (put_be 2 packet_id ++ json_data)))
unfolding write_from_struct write_integer
publish_payload_bytes topic json_data packet_id =
    rw (write_string_u16 topic unset_endian refl, write_string_plain json_data unset_endian)
      (simp (append_assoc, append-nil))

connect_bytes : List ℕ → ℕ → List ℕ
connect_bytes json_data flags =
    (put_be 2 6 ++ protocol_name)
    ++ (put_be 1 3
        ++ (put_be 1 flags
            ++ (put_be 2 15
                ++ ((put_be 2 12 ++ protocol_client_id)
                    ++ ((put_be 2 (length json_data) ++ json_data) ++ [])))))

connect_payload_bytes :
    (json_data : List ℕ) (flags : ℕ)
    → write_from_struct (connect_payload json_data flags) ≡ ok (connect_bytes json_data flags)
unfolding write_from_struct write_integer connect_bytes
connect_payload_bytes json_data flags = rw (
  write_string_u16 protocol_name unset_endian refl,
  write_string_u16 protocol_client_id unset_endian refl,
  write_string_u16 json_data unset_endian refl,
)

length-connect_bytes :
    (json_data : List ℕ) (flags : ℕ)
    → length (connect_bytes json_data flags) ≡ 28 + length json_data
unfolding connect_bytes
length-connect_bytes json_data flags = simp (length-append, length-put_be) (omega arith)

-- The CONNECT packet of a JSON text that a uint16 can count: its header gives the packet byte 0x10
-- and the length of the payload, and the payload gives back the protocol name and level, the
-- flags, the keep-alive time, the client identifier and the JSON text.
pub new_connect_request_reads :
    (accepts : List ℕ → Bool) (json_data : List ℕ) (flags : ℕ) (old : Value → Value)
    → flags < 256
    → length json_data < 65536
    → (packet body : List ℕ) × (new_connect_request json_data flags ≡ ok packet)
      × (read_to_struct accepts
            (with_values old (header_slots connect_compress (length body)))
            packet
          ≡ ok (unsigned 0x10 ∷ unsigned (length body) ∷ [], body))
      × (read_to_struct accepts (with_values old (connect_payload json_data flags)) body
          ≡ ok (map (λ s. s.1) (connect_payload json_data flags), []))
unfolding new_connect_request connect_compress
new_connect_request_reads accepts json_data flags old hf hj =
    let body = connect_bytes json_data flags in
    let (packet, wrote, got, back) =
      request_write-reads_payload accepts 0x10 (connect_payload json_data flags) body old
        (omega arith) (connect_wire json_data flags hf hj) (connect_payload_bytes json_data flags)
        (omega (arith, length-connect_bytes json_data flags)) in
    (packet, body, wrote, got, back)
