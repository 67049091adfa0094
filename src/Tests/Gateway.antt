-- ===== src/Tests/Gateway.antt =====
-- Runs of the gateway socket of pkg/messagix/dgw.
use meta_matrix_bridge.Prelude.{
  ℕ, ◌+◌, ◌*◌, ◌≤◌, ◌≡◌, ◌↔◌, refl, List, [], ◌∷◌, ◌++◌, true, false, ◌||◌, Option, none, some,
  arith, length,
}
use meta_matrix_bridge.Prelude.Text.{codes}
use meta_matrix_bridge.Word.{put_le}
use meta_matrix_bridge.Dgw.{
  Frame, data_frame, ack_frame, open_frame, pong_frame, no_params, OpenFrameParams, frame_type_open,
  frame_type_data, frame_type_pong,
}
use meta_matrix_bridge.Dgw.Codec.{
  ack_bytes, ParamsJson, marshal, unmarshal, data_unmarshal, done, panicked,
}
use meta_matrix_bridge.Dgw.Codec.RoundTrip.{IsWireFrame, unmarshal-marshal}
use meta_matrix_bridge.Dgw.Codec.Faults.{WrapsLength, data_unmarshal-panics}
use meta_matrix_bridge.Dgw.Reader.{binary_message, text_message, emptied, running, read_message}
use meta_matrix_bridge.Dgw.Reader.Delivery.{
  marshal_all, read_message-marshal_all, GetsStuck, read_message-ends,
}
use meta_matrix_bridge.Dgw.Reader.Stuck.{read_message_text, read_message_bad_json}
use meta_matrix_bridge.Dgw.Events.{
  XdtJson, Handling, handle_frames, handle_frame, payload_events, contains,
}
use meta_matrix_bridge.Dgw.Events.Acks.{
  acks_for, any_frame, confirms_stream, confirms_parameters, first_of_two, first_refusal,
  handle_frames_answers,
}

abbrev with_status : ℕ → OpenFrameParams
with_status code = record no_params { status_code = code }

-- A JSON of one number, the status code.
abbrev read_status : List ℕ → Option OpenFrameParams
read_status [] = none
read_status (c ∷ cs) = some (with_status c)

abbrev status_json : ParamsJson
status_json = record { marshal = λ p. p.status_code ∷ []; unmarshal = read_status }

abbrev hello : Frame
hello = data_frame 1 (codes "hi") true 5

hello-IsWireFrame : IsWireFrame status_json hello
hello-IsWireFrame = (omega arith, omega arith, omega arith)

unmarshal-marshal_example :
    unmarshal status_json (marshal status_json hello ++ (9 ∷ [])) ≡ done hello (9 ∷ [])
unmarshal-marshal_example = unmarshal-marshal status_json hello (9 ∷ []) hello-IsWireFrame

abbrev two_frames : List Frame
two_frames = hello ∷ pong_frame ∷ []

two_frames-length : length (marshal_all status_json two_frames) ≤ 20
unfolding marshal put_le ack_bytes
two_frames-length = omega arith

read_message-marshal_all_example :
    read_message status_json binary_message 20 (marshal_all status_json two_frames)
    ≡ (two_frames, emptied)
read_message-marshal_all_example =
    read_message-marshal_all status_json two_frames 20 (hello-IsWireFrame, (tt, tt))
      two_frames-length

-- A pong frame, and an open frame with no parameters, which is no JSON.
abbrev no_parameters : List ℕ
no_parameters = frame_type_pong ∷ frame_type_open ∷ 1 ∷ 0 ∷ 0 ∷ 0 ∷ 0 ∷ []

read_message-ends_example :
    ((read_message status_json binary_message 7 no_parameters).1 ≡ running)
    ↔ GetsStuck status_json no_parameters
read_message-ends_example = read_message-ends status_json 7 no_parameters (omega arith)

read_message_text_example : read_message status_json text_message 100 (1 ∷ []) ≡ ([], running)
read_message_text_example = read_message_text status_json 100 1 []

read_message_bad_json_example :
    read_message status_json binary_message 100 (
      frame_type_open
      ∷ (put_le 2 1 ++ (put_le 2 0 ++ (0 ∷ ([] ++ marshal status_json pong_frame)))))
    ≡ ([], running)
read_message_bad_json_example =
    read_message_bad_json status_json 100 1 [] (marshal status_json pong_frame) (omega arith) refl

data_unmarshal-panics_example :
    (data_unmarshal (frame_type_data ∷ 1 ∷ 0 ∷ 1 ∷ 0 ∷ 0 ∷ 0 ∷ 0 ∷ []) ≡ panicked)
    ↔ WrapsLength (1 + 256 * 0)
data_unmarshal-panics_example =
    data_unmarshal-panics frame_type_data 1 0 1 0 0 0 0 [] (omega arith) (omega arith)

abbrev no_json : XdtJson
no_json = record { operations = λ bs. none; indicator = λ bs. none }

abbrev idle : Handling
idle = record {
  ack_subscription = false;
  ack_parameters = false;
  outgoing = [];
  fatal = none;
  pong_resets = 0;
  events = [];
}

abbrev session : List Frame
session =
    open_frame 1 (with_status 200) []
    ∷ ack_frame 1 0
    ∷ hello
    ∷ open_frame 1 (with_status 403) []
    ∷ []

abbrev settled : Handling
settled = record {
  ack_subscription = true;
  ack_parameters = true;
  outgoing = ack_frame 1 5 ∷ [];
  fatal = some 403;
  pong_resets = 0;
  events = [];
}

session_run : handle_frames no_json session idle ≡ some settled
unfolding handle_frames handle_frame payload_events contains
session_run = refl

handle_frames_answers_example :
    (settled.outgoing ≡ [] ++ acks_for session)
    × (settled.ack_subscription ≡ false || any_frame confirms_stream session)
    × (settled.ack_parameters ≡ false || any_frame confirms_parameters session)
    × (settled.fatal ≡ first_of_two none (first_refusal session))
handle_frames_answers_example = handle_frames_answers no_json session idle settled session_run
