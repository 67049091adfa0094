-- ===== src/Dgw/Codec.antt =====
-- Marshal and Unmarshal of the frames, and CheckFrameType. encoding/json enters as the parameter
-- `j`: how the parameters of an open frame are written, and what reading them gives.
pub mod RoundTrip
pub mod Faults
pub mod Progress
use meta_matrix_bridge.Prelude.{
  ℕ, ◌+◌, ◌-◌, ◌/◌, ◌%◌, ◌<◌, ◌≤◌, ◌≡◌, List, [], ◌∷◌, ◌++◌, Bool, true, false, not, Option, none,
  some, ltb, ◌==◌, if◌then◌else◌, length, take, drop, get_or, bit_and, bit_or, ◌||◌,
}
use meta_matrix_bridge.Word.{u16, put_le, get_le}
use meta_matrix_bridge.Dgw.{
  Frame, unsupported_frame, ping_frame, pong_frame, data_frame, ack_frame, open_frame,
  OpenFrameParams, frame_type_ping, frame_type_pong, frame_type_ack, frame_type_data,
  frame_type_open, no_params,
}

-- json.Marshal of the parameters, and json.Unmarshal into new ones.
pub record ParamsJson : Type 0 where
  pub marshal : OpenFrameParams → List ℕ
  pub unmarshal : List ℕ → Option OpenFrameParams

-- The high byte of the ack identifier: its top bit says whether an ack is required.
abbrev pub flag_ack : Bool → ℕ → ℕ
flag_ack requires_ack hi =
    let low = bit_and hi 0x7f in if requires_ack then bit_or low 0x80 else low

-- The last byte of the header, `b[len(b)-1]`, is the high byte of the identifier.
unfoldable pub ack_bytes : Bool → ℕ → List ℕ
ack_bytes requires_ack ack_id = (ack_id % 256) ∷ flag_ack requires_ack (ack_id / 256 % 256) ∷ []

unfoldable pub marshal : ParamsJson → Frame → List ℕ
marshal j (unsupported_frame raw) = raw
marshal j ping_frame = frame_type_ping ∷ []
marshal j pong_frame = frame_type_pong ∷ []
marshal j (data_frame stream_id payload requires_ack ack_id) =
    frame_type_data
    ∷ (put_le 2 stream_id
        ++ (put_le 2 (u16 (length payload + 2))
            ++ (0x00 ∷ (ack_bytes requires_ack ack_id ++ payload))))
marshal j (ack_frame stream_id ack_id) =
    frame_type_ack ∷ (put_le 2 stream_id ++ (put_le 2 2 ++ (0x00 ∷ put_le 2 ack_id)))
marshal j (open_frame stream_id parameters raw) =
    let payload = j.marshal parameters in
    frame_type_open ∷ (put_le 2 stream_id ++ (put_le 2 (u16 (length payload)) ++ (0x00 ∷ payload)))

-- What Unmarshal can do: give a frame and the bytes after it, fail with the bytes that the caller
-- goes on with, or panic.
pub data Read : Type 0 where
  done : Frame → List ℕ → Read
  failed : List ℕ → Read
  panicked : Read

-- `b[i:j]`, where the caller has checked `j` against the length.
abbrev pub slice : ℕ → ℕ → List ℕ → List ℕ
slice i j b = take (j - i) (drop i b)

abbrev pub uint16_at : ℕ → List ℕ → ℕ
uint16_at i b = get_le (slice i (i + 2) b)

-- Go evaluates `8+payloadLength` as a uint16. A slice whose end lies below its start panics.
unfoldable pub data_unmarshal : List ℕ → Read
data_unmarshal b =
    let payload_length = u16 (uint16_at 3 b + 65536 - 2) in
    let end = u16 (8 + payload_length) in
    let frame =
      data_frame (uint16_at 1 b) (slice 8 end b) (not (bit_and (get_or b 7 0) 0x80 == 0))
        (bit_and (uint16_at 6 b) 0x7fff) in
    if ltb (length b) 8
    then failed []
    else (if ltb (length b) end
        then failed []
        else (if ltb end 8 then panicked else done frame (drop end b)))

unfoldable pub ack_unmarshal : List ℕ → Read
ack_unmarshal b =
    if ltb (length b) 8
    then failed []
    else (if uint16_at 3 b == 2
        then done (ack_frame (uint16_at 1 b) (uint16_at 6 b)) (drop 8 b)
        else failed [])

abbrev pub open_parsed : ℕ → List ℕ → ℕ → Option OpenFrameParams → Read
open_parsed stream_id b end none = failed b
open_parsed stream_id b end (some parameters) =
    done (open_frame stream_id parameters b) (drop end b)

-- If the JSON is refused, the bytes are given back whole.
unfoldable pub open_unmarshal : ParamsJson → List ℕ → Read
open_unmarshal j b =
    let end = u16 (6 + uint16_at 3 b) in
    let parsed = open_parsed (uint16_at 1 b) b end (j.unmarshal (slice 6 end b)) in
    if ltb (length b) 6
    then failed []
    else (if ltb (length b) end then failed [] else (if ltb end 6 then panicked else parsed))

-- CheckFrameType and the Unmarshal of the frame that it picks.
unfoldable pub unmarshal : ParamsJson → List ℕ → Read
unmarshal j [] = panicked
unmarshal j (t ∷ b) =
    if t == frame_type_ping
    then done ping_frame b
    else (if t == frame_type_pong
        then done pong_frame b
        else (if t == frame_type_ack
            then ack_unmarshal (t ∷ b)
            else (if t == frame_type_data
                then data_unmarshal (t ∷ b)
                else (if t == frame_type_open
                    then open_unmarshal j (t ∷ b)
                    else done (unsupported_frame (t ∷ b)) []))))
