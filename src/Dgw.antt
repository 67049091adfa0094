-- ===== src/Dgw.antt =====
-- pkg/messagix/dgw: the frames of Instagram's realtime gateway (frames.go).
-- A []byte is a list of numbers below 256, a uint16 a number below 65536.
pub mod Codec
pub mod Reader
pub mod Events
use meta_matrix_bridge.Prelude.{ℕ, List, [], Bool}

abbrev pub frame_type_drain : ℕ
frame_type_drain = 0x03

abbrev pub frame_type_ping : ℕ
frame_type_ping = 0x09

abbrev pub frame_type_pong : ℕ
frame_type_pong = 0x0a

abbrev pub frame_type_ack : ℕ
frame_type_ack = 0x0c

abbrev pub frame_type_data : ℕ
frame_type_data = 0x0d

abbrev pub frame_type_close : ℕ
frame_type_close = 0x0e

abbrev pub frame_type_open : ℕ
frame_type_open = 0x0f

abbrev pub stream_typing : ℕ
stream_typing = 1

-- The JSON parameters of an OpenFrame. The status code is a Go int, as its 64-bit pattern.
pub record OpenFrameParams : Type 0 where
  pub xrss_method : List ℕ
  pub xrss_doc_id : List ℕ
  pub xrss_routing_hint : List ℕ
  pub xrs_body : List ℕ
  pub xrs_accept_ack : List ℕ
  pub xrss_referer : List ℕ
  pub status_code : ℕ

abbrev pub no_params : OpenFrameParams
no_params = record {
  xrss_method = [];
  xrss_doc_id = [];
  xrss_routing_hint = [];
  xrs_body = [];
  xrs_accept_ack = [];
  xrss_referer = [];
  status_code = 0;
}

-- The types that implement the interface `Frame`. `raw` of an open frame is set by reading it.
pub data Frame : Type 0 where
  unsupported_frame : (raw : List ℕ) → Frame
  ping_frame pong_frame : Frame
  data_frame : (stream_id : ℕ) (payload : List ℕ) (requires_ack : Bool) (ack_id : ℕ) → Frame
  ack_frame : (stream_id : ℕ) (ack_id : ℕ) → Frame
  open_frame : (stream_id : ℕ) (parameters : OpenFrameParams) (raw : List ℕ) → Frame
