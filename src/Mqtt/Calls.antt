-- ===== src/Mqtt/Calls.antt =====
-- newPublishRequest and newSubscribeRequest of pkg/messagix/payload.go: a packet is built, and the
-- channels of its answers are registered with the response handler.
pub mod Registration
use meta_matrix_bridge.Prelude.{ℕ, List, [], ◌∷◌, Option, none, some}
use meta_matrix_bridge.Prelude.Outcome.{Outcome, ok, err, panic, hang}
use meta_matrix_bridge.Packets.{subscribe_compress}
use meta_matrix_bridge.Byter.{ByterError}
use meta_matrix_bridge.Mqtt.{request_write, publish_payload, subscribe_payload}
use meta_matrix_bridge.Pending.{
  ChannelType, request_channel, packet_channel, ResponseHandler, add_channel, delete_details,
  safe_packet_id,
}

-- What the call returns, the packet with its identifier or an error, and the state that it leaves.
pub record Prepared (A : Type 0) : Type 0 where
  pub request : Outcome ByterError (List ℕ × ℕ)
  pub handler : ResponseHandler A
  pub packets_sent : ℕ

module _ {A : Type 0} where
  -- deleteDetails for each of the channels, one after the other; `none` is its panic.
  delete_each : List ChannelType → ℕ → ResponseHandler A → Option (ResponseHandler A)
  delete_each [] id p = some p
  delete_each (t ∷ ts) id p = elim (delete_details p id t) [
    | none ↦ none
    | some q ↦ delete_each ts id q
  ]

  -- The end of both calls: after an error the channels are taken back.
  unfoldable pub register :
      List ChannelType
      → ℕ
      → ℕ
      → Outcome ByterError (List ℕ)
      → ResponseHandler A
      → Option (Prepared A)
  unfolding delete_each
  register ts sent id (ok bytes) p =
      some (record { request = ok (bytes, id); handler = p; packets_sent = sent })
  register ts sent id (err e) p = elim (delete_each ts id p) [
    | none ↦ none
    | some q ↦ some (record { request = err e; handler = q; packets_sent = sent })
  ]
  register ts sent id panic p = some (record { request = panic; handler = p; packets_sent = sent })
  register ts sent id hang p = some (record { request = hang; handler = p; packets_sent = sent })

  unfoldable pub new_publish_request :
      ResponseHandler A → ℕ → List ℕ → List ℕ → ℕ → ℕ → Option (Prepared A)
  new_publish_request p packets_sent topic json_data packet_byte packet_id =
      register (packet_channel ∷ request_channel ∷ []) packets_sent packet_id
        (request_write packet_byte (publish_payload topic packet_id json_data))
        (add_channel request_channel (add_channel packet_channel p packet_id) packet_id)

  -- The packet identifier is the next one of the socket, which keeps it as its counter.
  unfoldable pub new_subscribe_request : ResponseHandler A → ℕ → List ℕ → ℕ → Option (Prepared A)
  new_subscribe_request p packets_sent topic qos =
      let id = safe_packet_id packets_sent in
      register (packet_channel ∷ []) id id
        (request_write subscribe_compress (subscribe_payload id topic qos))
        (add_channel packet_channel p id)
