-- ===== src/Dgw/Reader/Stuck.antt =====
-- pkg/messagix/dgw/dgwsocket.go: the inner loop on messages that it cannot use.
use meta_matrix_bridge.Prelude.{ℕ, zero, suc, ◌<◌, ◌≡◌, refl, List, [], ◌∷◌, ◌++◌, none, length}
use meta_matrix_bridge.Dgw.{frame_type_open}
use meta_matrix_bridge.Word.{put_le}
use meta_matrix_bridge.Dgw.Codec.{ParamsJson, failed, unmarshal}
use meta_matrix_bridge.Dgw.Codec.RoundTrip.{unmarshal_bad_json}
use meta_matrix_bridge.Dgw.Reader.{text_message, binary_message, running, read_message}

-- A text message that is not empty keeps the loop busy for ever, and nothing is delivered.
pub read_message_text :
    (j : ParamsJson) (fuel b : ℕ) (bs : List ℕ)
    → read_message j text_message fuel (b ∷ bs) ≡ ([], running)
unfolding read_message
read_message_text j zero b bs = refl
read_message_text j (suc fuel) b bs = read_message_text j fuel b bs

read_message_again :
    (j : ParamsJson) (fuel b : ℕ) (bs : List ℕ)
    → unmarshal j (b ∷ bs) ≡ failed (b ∷ bs)
    → read_message j binary_message fuel (b ∷ bs) ≡ ([], running)
unfolding read_message
read_message_again j zero b bs e = refl
read_message_again j (suc fuel) b bs e = rw e (read_message_again j fuel b bs e)

-- A complete open frame with fewer than 65530 bytes of JSON, which encoding/json refuses, keeps the
-- loop busy for ever: its bytes are read again and again, and nothing is delivered.
pub read_message_bad_json :
    (j : ParamsJson) (fuel stream_id : ℕ) (payload rest : List ℕ)
    → length payload < 65530
    → j.unmarshal payload ≡ none
    → read_message j binary_message fuel (
        frame_type_open
        ∷ (put_le 2 stream_id ++ (put_le 2 (length payload) ++ (0 ∷ (payload ++ rest)))))
      ≡ ([], running)
read_message_bad_json j fuel stream_id payload rest short refused =
    read_message_again j fuel _ _ (unmarshal_bad_json j stream_id payload rest short refused)
