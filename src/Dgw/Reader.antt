-- ===== src/Dgw/Reader.antt =====
-- The goroutine of dgwsocket.go that copies the frames of a websocket message to a channel.
pub mod Delivery
pub mod Stuck
use meta_matrix_bridge.Prelude.{ℕ, zero, suc, List, [], ◌∷◌}
use meta_matrix_bridge.Dgw.{Frame}
use meta_matrix_bridge.Dgw.Codec.{ParamsJson, Read, done, failed, panicked, unmarshal}

pub data MessageType : Type 0 where
  text_message binary_message : MessageType

-- How the inner loop ends: the message is used up, Unmarshal panics, or the loop is still running
-- when its fuel is used up.
pub data Ending : Type 0 where
  emptied crashed running : Ending

-- One round: a frame is sent on the channel; after an error the loop goes on with the bytes that
-- Unmarshal gave back.
abbrev pub after_read : Read → (List ℕ → List Frame × Ending) → List Frame × Ending
after_read (done f rest) loop = let (fs, ending) = loop rest in (f ∷ fs, ending)
after_read (failed rest) loop = loop rest
after_read panicked loop = ([], crashed)

-- `for len(data) > 0`: the frames that are sent, in order. A text message is logged, and its bytes
-- are not consumed.
unfoldable pub read_message : ParamsJson → MessageType → ℕ → List ℕ → List Frame × Ending
read_message j type fuel [] = ([], emptied)
read_message j type zero (b ∷ bs) = ([], running)
read_message j text_message (suc fuel) (b ∷ bs) = read_message j text_message fuel (b ∷ bs)
read_message j binary_message (suc fuel) (b ∷ bs) =
    after_read (unmarshal j (b ∷ bs)) (read_message j binary_message fuel)
