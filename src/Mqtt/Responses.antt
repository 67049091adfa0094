-- ===== src/Mqtt/Responses.antt =====
-- What Response.Read makes of the bytes of a server.
use meta_matrix_bridge.Prelude.{
  ℕ, ◌/◌, ◌%◌, ◌^◌, ◌≤◌, ◌<◌, ◌≡◌, ◌≢◌, refl, ap, ◌∙◌, List, [], ◌∷◌, ◌++◌, Bool, true, none, some,
  arith, length, length-append, append_assoc, take, drop, take-append, drop-append, lt→ltb,
}
use meta_matrix_bridge.Prelude.Outcome.{ok, err, panic}
use meta_matrix_bridge.Word.{put_be, get_be}
use meta_matrix_bridge.Word.RoundTrip.{length-put_be, get_be-put_be}
use meta_matrix_bridge.Packets.{publish}
use meta_matrix_bridge.Byter.{unset_endian, big, uint8}
use meta_matrix_bridge.Byter.Vlq.{encode_vlq}
use meta_matrix_bridge.Byter.Vlq.RoundTrip.{decode-encode_vlq}
use meta_matrix_bridge.Byter.Integer.{read_integer}
use meta_matrix_bridge.Byter.Integer.RoundTrip.{read_integer_big, read_string_u16}
use meta_matrix_bridge.Byter.Struct.{
  u8_kind, uint_field, interface_field, read_field, read_to_struct, unsigned, text, json, untouched,
}
use meta_matrix_bridge.Byter.Struct.RoundTrip.{read_step}
use meta_matrix_bridge.Mqtt.{
  Handler, event_publish_response, no_handler, response_map, response_header, response_slots,
  response_read, take_identifier, field_of, vlq_number, set_identifier,
}

put_be_byte : (b : ℕ) → b < 256 → put_be 1 b ≡ b ∷ []
unfolding put_be
put_be_byte b h = ap (λ t. t ∷ []) (omega arith)

read_byte :
    (b : ℕ) (rest : List ℕ) → b < 256 → read_integer uint8 1 unset_endian (b ∷ rest) ≡ ok (b, rest)
read_byte b rest h =
    rw (put_be_byte b h) at (read_integer_big uint8 1 refl b (omega arith) rest unset_endian refl)

take_front : (n : ℕ) (xs ys : List ℕ) → length xs ≡ n → take n (xs ++ ys) ≡ xs
take_front n xs ys e = rw (← e) (take-append xs ys)

drop_front : (n : ℕ) (xs ys : List ℕ) → length xs ≡ n → drop n (xs ++ ys) ≡ ys
drop_front n xs ys e = rw (← e) (drop-append xs ys)

-- The identifier is cut out behind ten bytes.
take_identifier_cut :
    (h : Handler) (front ids rest : List ℕ)
    → length front ≡ 10
    → length ids ≡ 2
    → take_identifier publish 1 h (front ++ (ids ++ rest))
      ≡ ok (set_identifier h (get_be ids) (response_slots h), front ++ rest)
unfolding take_identifier
take_identifier_cut h front ids rest hf hi =
    let both : length (front ++ ids) ≡ 12 = length-append front ids ∙ omega arith in
    let whole : drop 12 (front ++ (ids ++ rest)) ≡ rest =
      rw (← append_assoc front ids rest) (drop_front 12 (front ++ ids) rest both) in
    let long : 12 ≤ length (front ++ (ids ++ rest)) =
      omega (arith, length-append front (ids ++ rest), length-append ids rest) in
    rw
      (
        take_front 10 front (ids ++ rest) hf,
        whole,
        drop_front 10 front (ids ++ rest) hf,
        take_front 2 ids rest hi,
      )
      (ground arith)

module _ (accepts : List ℕ → Bool) where
  nil_interface :
      (buff : List ℕ)
      → read_to_struct accepts ((field_of interface_field, untouched) ∷ []) buff
        ≡ ok (untouched ∷ [], buff)
  unfolding read_to_struct
  nil_interface [] = refl
  nil_interface (b ∷ buff) = ground arith

  -- The header of every packet: its first byte, and a remaining length in the form of EncodeVLQ.
  header_reads :
      (b n : ℕ) (vlq buff : List ℕ)
      → b < 256
      → n < 2 ^ 28
      → encode_vlq n ≡ some vlq
      → read_to_struct accepts response_header (b ∷ (vlq ++ buff))
        ≡ ok (unsigned b ∷ unsigned n ∷ untouched ∷ [], buff)
  unfolding read_field
  header_reads b n vlq buff hb hn e =
      let (bs, wrote, pos, _, got) = decode-encode_vlq n buff hn in
      let same : bs ≡ vlq = cc (wrote, e) in
      read_step accepts (field_of (uint_field u8_kind)) (unsigned 0) (unsigned b) _
        (b ∷ (vlq ++ buff)) (vlq ++ buff) buff _ (omega arith) refl
        (rw (read_byte b (vlq ++ buff) hb))
        (read_step accepts vlq_number (unsigned 0) (unsigned n) _ (vlq ++ buff) buff buff _
          (omega (arith, length-append vlq buff, ap length same)) refl (rw (rw same at got))
          (nil_interface buff))

  -- What is left of a PUBLISH body when its JSON has been read.
  body_reads :
      (topic payload : List ℕ) (identifier p : ℕ) (ps : List ℕ)
      → payload ≡ p ∷ ps
      → length topic < 65536
      → accepts payload ≡ true
      → read_to_struct accepts
          (set_identifier event_publish_response identifier (response_slots event_publish_response))
          (put_be 2 (length topic) ++ (topic ++ payload))
        ≡ ok (text topic ∷ json payload ∷ untouched ∷ unsigned identifier ∷ unsigned 0 ∷ [], [])
  unfolding read_field
  body_reads topic payload identifier p ps e ht ok_json =
      read_step accepts _ (text []) (text topic) _ (put_be 2 (length topic) ++ (topic ++ payload))
        payload [] _
        (omega (
          arith,
          length-append (put_be 2 (length topic)) (topic ++ payload),
          length-put_be 2 (length topic),
        ))
        refl (rw (read_string_u16 topic payload big refl ht))
        (read_step accepts _ (json []) (json payload) _ payload [] [] _ (omega (arith, ap length e))
          refl (rw ok_json) (unfold read_to_struct in refl))

  -- A PUBLISH packet of QoS 1 whose topic has eight bytes and whose JSON text is not empty and is
  -- accepted by encoding/json: Response.Read finds the topic, the identifier and the JSON text, for
  -- every remaining length below 2 ^ 28 in the header of the packet.
  pub response_read-publish :
      (b n identifier : ℕ) (vlq topic payload : List ℕ)
      → b < 256
      → b / 16 ≡ publish
      → b / 2 % 4 ≡ 1
      → n < 2 ^ 28
      → encode_vlq n ≡ some vlq
      → length topic ≡ 8
      → identifier < 65536
      → payload ≢ []
      → accepts payload ≡ true
      → response_read accepts
          (b ∷ (vlq ++ (put_be 2 8 ++ (topic ++ (put_be 2 identifier ++ payload)))))
        ≡ ok (record {
          packet_byte = b;
          remaining_length = n;
          handler = event_publish_response;
          values = text topic ∷ json payload ∷ untouched ∷ unsigned identifier ∷ unsigned 0 ∷ [];
        })
  unfolding response_read response_map
  response_read-publish b n identifier vlq topic [] hb type qos hn e ht hi some_payload ok_json =
      absurd (some_payload refl)
  response_read-publish b n identifier vlq topic (p ∷ ps) hb type qos hn e ht hi some_payload
        ok_json =
      let front = put_be 2 8 ++ topic in
      let ids = put_be 2 identifier in
      let ten : length front ≡ 10 =
        length-append (put_be 2 8) topic ∙ omega (arith, length-put_be 2 8) in
      rw (header_reads b n vlq _ hb hn e) (
        rw (type, qos, ← append_assoc (put_be 2 8) topic (ids ++ (p ∷ ps)))
          (rw
            (
              take_identifier_cut event_publish_response front ids (p ∷ ps) ten
                  (length-put_be 2 identifier),
              get_be-put_be 2 identifier (omega arith),
              append_assoc (put_be 2 8) topic (p ∷ ps),
            )
            (rw (rw ht at (body_reads topic (p ∷ ps) identifier p ps refl (omega arith) ok_json)))))

  -- A PUBLISH of QoS 1 that ends within twelve bytes after its header makes Response.Read panic.
  pub response_read_short_publish :
      (b n : ℕ) (vlq buff : List ℕ)
      → b < 256
      → b / 16 ≡ publish
      → b / 2 % 4 ≡ 1
      → n < 2 ^ 28
      → encode_vlq n ≡ some vlq
      → length buff < 12
      → response_read accepts (b ∷ (vlq ++ buff)) ≡ panic
  unfolding response_read response_map take_identifier
  response_read_short_publish b n vlq buff hb type qos hn e short =
      rw (header_reads b n vlq buff hb hn e) (rw (type, qos, lt→ltb (length buff) 12 short))

  -- A packet of a type that has no response struct is an error that names the type.
  pub response_read_unknown :
      (b n : ℕ) (vlq buff : List ℕ)
      → b < 256
      → n < 2 ^ 28
      → encode_vlq n ≡ some vlq
      → response_map (b / 16) ≡ none
      → response_read accepts (b ∷ (vlq ++ buff)) ≡ err (no_handler (b / 16))
  unfolding response_read
  response_read_unknown b n vlq buff hb hn e unknown =
      rw (header_reads b n vlq buff hb hn e) (rw unknown)
