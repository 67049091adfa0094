-- ===== src/Mqtt.antt =====
-- MQTT packets of pkg/messagix: request.go, payload.go, response.go and the response structs of
-- events.go. A struct is the list of its fields with their values (see Byter.Struct); the values of
-- a struct that was read stand in the order of its fields.
pub mod Requests
pub mod Responses
pub mod Calls
use meta_matrix_bridge.Prelude.{
  ℕ, ◌/◌, ◌%◌, List, [], ◌∷◌, ◌++◌, Bool, true, false, Option, none, some, ◌==◌, if◌then◌else◌, ltb,
  length, take, drop, set, map, ◌&&◌,
}
use meta_matrix_bridge.Prelude.Outcome.{Outcome, ok, err, panic, ◌>>=◌, ◌>>◌, panic_if, or_err}
use meta_matrix_bridge.Prelude.Text.{codes}
use meta_matrix_bridge.Word.{u8, u16, u32, get_be}
use meta_matrix_bridge.Packets.{
  connack, publish, puback, suback, pingresp, connect_compress, subscribe_compress,
}
use meta_matrix_bridge.Byter.{ByterError, unset_endian, big, no_length, uint16_length}
use meta_matrix_bridge.Byter.Struct.{
  UintKind, u8_kind, u16_kind, u32_kind, FieldKind, bool_field, uint_field, string_field,
  struct_field, other_field, Field, Value, boolean, unsigned, text, json, untouched, Slot,
  read_to_struct, write_from_struct,
}

-- An exported field with no tag.
abbrev pub field_of : FieldKind → Field
field_of k = record {
  kind = k;
  can_set = true;
  is_enum = false;
  vlq = false;
  skip = false;
  json_string = false;
  endian = unset_endian;
  length_type = no_length;
}

abbrev pub sized_text : Field
sized_text = let f = field_of string_field in record f { length_type = uint16_length }

abbrev pub enum_byte : Field
enum_byte = let f = field_of (uint_field u8_kind) in record f { is_enum = true }

abbrev pub vlq_number : Field
vlq_number = let f = field_of (uint_field u32_kind) in record f { vlq = true }

-- Request: the packet byte and the remaining length.
abbrev pub header_slots : ℕ → ℕ → List Slot
header_slots packet_byte remaining_length =
    (field_of (uint_field u8_kind), unsigned packet_byte)
    ∷ (vlq_number, unsigned remaining_length)
    ∷ []

unfoldable pub request_write : ℕ → List Slot → Outcome ByterError (List ℕ)
request_write packet_byte payload = do
  payload_bytes ← write_from_struct payload
  header ← write_from_struct (header_slots packet_byte (u32 (length payload_bytes)))
  ok (header ++ payload_bytes)

-- socket.go
abbrev pub protocol_name : List ℕ
protocol_name = codes "MQIsdp"

abbrev pub protocol_client_id : List ℕ
protocol_client_id = codes "mqttwsclient"

abbrev pub protocol_level : ℕ
protocol_level = 3

abbrev pub keep_alive_timeout : ℕ
keep_alive_timeout = 15

abbrev pub connect_payload : List ℕ → ℕ → List Slot
connect_payload json_data connect_flags =
    (sized_text, text protocol_name)
    ∷ (field_of (uint_field u8_kind), unsigned (u8 protocol_level))
    ∷ (field_of (uint_field u8_kind), unsigned connect_flags)
    ∷ (field_of (uint_field u16_kind), unsigned (u16 keep_alive_timeout))
    ∷ (sized_text, text protocol_client_id)
    ∷ (sized_text, text json_data)
    ∷ []

unfoldable pub new_connect_request : List ℕ → ℕ → Outcome ByterError (List ℕ)
unfolding connect_compress
new_connect_request json_data connect_flags =
    request_write connect_compress (connect_payload json_data connect_flags)

abbrev pub publish_payload : List ℕ → ℕ → List ℕ → List Slot
publish_payload topic packet_id json_data =
    (sized_text, text topic)
    ∷ (field_of (uint_field u16_kind), unsigned packet_id)
    ∷ (field_of string_field, text json_data)
    ∷ []

abbrev pub subscribe_payload : ℕ → List ℕ → ℕ → List Slot
subscribe_payload packet_id topic qos =
    (field_of (uint_field u16_kind), unsigned packet_id)
    ∷ (sized_text, text topic)
    ∷ (enum_byte, unsigned qos)
    ∷ []

-- The response structs that `responseMap` makes, by packet type.
pub data Handler : Type 0 where
  event_ready event_publish_ack event_subscribe_ack event_publish_response event_ping_resp : Handler

unfoldable pub response_map : ℕ → Option Handler
response_map t =
    if t == connack
    then some event_ready
    else (if t == puback
        then some event_publish_ack
        else (if t == suback
            then some event_subscribe_ack
            else (if t == publish
                then some event_publish_response
                else (if t == pingresp then some event_ping_resp else none))))

-- A field that reflect cannot set, since its name is not exported.
abbrev pub hidden : Field
hidden = let f = field_of other_field in record f { can_set = false }

-- The fields of a new response struct.
abbrev pub response_slots : Handler → List Slot
response_slots event_ready =
    (hidden, untouched) ∷ (field_of bool_field, boolean false) ∷ (enum_byte, unsigned 0) ∷ []
response_slots event_publish_ack = (field_of (uint_field u16_kind), unsigned 0) ∷ []
response_slots event_subscribe_ack =
    (field_of (uint_field u16_kind), unsigned 0) ∷ (field_of (uint_field u8_kind), unsigned 0) ∷ []
response_slots event_publish_response =
    (
      let f = field_of string_field in record f { endian = big; length_type = uint16_length },
      text [],
    )
    ∷ (let f = field_of struct_field in record f { json_string = true }, json [])
    ∷ (field_of other_field, untouched)
    ∷ (field_of (uint_field u16_kind), unsigned 0)
    ∷ (enum_byte, unsigned 0)
    ∷ []
response_slots event_ping_resp = []

-- SetIdentifier stores the identifier in a publish response, and nowhere else.
abbrev pub set_identifier : Handler → ℕ → List Slot → List Slot
set_identifier event_publish_response i slots =
    set slots 3 (field_of (uint_field u16_kind), unsigned i)
set_identifier _ i slots = slots

pub record Response : Type 0 where
  pub packet_byte : ℕ
  pub remaining_length : ℕ
  pub handler : Handler
  pub values : List Value

pub data ReadError : Type 0 where
  byter : ByterError → ReadError
  no_handler : ℕ → ReadError

abbrev pub lift {ℓ} : {A : Type ℓ} → Outcome ByterError A → Outcome ReadError A
lift (ok a) = ok a
lift (err e) = err (byter e)
lift panic = panic
lift Outcome.hang = Outcome.hang

-- `r.ResponseData` is a nil interface while the header is read.
abbrev pub response_header : List Slot
response_header =
    (field_of (uint_field u8_kind), unsigned 0)
    ∷ (vlq_number, unsigned 0)
    ∷ (field_of FieldKind.interface_field, untouched)
    ∷ []

abbrev pub number_at : List Value → ℕ
number_at (unsigned n ∷ vs) = n
number_at _ = 0

abbrev pub second : List Value → List Value
second (v ∷ vs) = vs
second [] = []

-- A PUBLISH with QoS 1 carries an identifier, which is cut out of the bytes 10 and 11 before the
-- rest is read: slicing a shorter buffer panics.
unfoldable pub take_identifier : ℕ → ℕ → Handler → List ℕ → Outcome ReadError (List Slot × List ℕ)
take_identifier packet_type qos handler buff =
    if packet_type == publish && qos == 1
    then (panic_if (ltb (length buff) 12)
        >> ok (
          set_identifier handler (get_be (take 2 (drop 10 buff))) (response_slots handler),
          take 10 buff ++ drop 12 buff,
        ))
    else ok (response_slots handler, buff)

unfoldable pub response_read : (List ℕ → Bool) → List ℕ → Outcome ReadError Response
response_read accepts input = do
  (header, buff) ← lift (read_to_struct accepts response_header input)
  let packet_byte = number_at header
  handler ← or_err (response_map (packet_byte / 16)) (no_handler (packet_byte / 16))
  (slots, body) ← take_identifier (packet_byte / 16) (packet_byte / 2 % 4) handler buff
  (values, rest) ← lift (read_to_struct accepts slots body)
  ok (record {
    packet_byte = packet_byte;
    remaining_length = number_at (second header);
    handler = handler;
    values = values;
  })
