-- ===== src/Dgw/Reader/Delivery.antt =====
-- pkg/messagix/dgw/dgwsocket.go: the inner loop on messages of frames.
use meta_matrix_bridge.Prelude.{
  ℕ, zero, suc, ◌<◌, ◌≤◌, ◌≡◌, refl, ap, ◌∙◌, List, [], ◌∷◌, ◌++◌, arith, length, length-append,
  All, inl, inr, ◌↔◌,
}
use meta_matrix_bridge.Dgw.{
  Frame, unsupported_frame, ping_frame, pong_frame, data_frame, ack_frame, open_frame,
}
use meta_matrix_bridge.Dgw.Codec.{ParamsJson, Read, done, failed, panicked, marshal, unmarshal}
use meta_matrix_bridge.Dgw.Codec.Progress.{IsRefused, Left, unmarshal-Left}
use meta_matrix_bridge.Dgw.Codec.RoundTrip.{IsWireFrame, with_raw, unmarshal-marshal}
use meta_matrix_bridge.Dgw.Reader.{
  binary_message, emptied, crashed, running, after_read, read_message,
}

emptied-running : emptied ≡ running → ⊥
emptied-running e = cc

crashed-running : crashed ≡ running → ⊥
crashed-running e = cc

module _ (j : ParamsJson) where
  abbrev pub marshal_all : List Frame → List ℕ
  marshal_all [] = []
  marshal_all (f ∷ fs) = marshal j f ++ marshal_all fs

  -- The frames as they are received: an open frame keeps the rest of the message.
  abbrev pub received : List Frame → List Frame
  received [] = []
  received (f ∷ fs) = with_raw f (marshal_all (f ∷ fs)) ∷ received fs

  marshal_pos : (f : Frame) → IsWireFrame j f → 0 < length (marshal j f)
  unfolding marshal
  marshal_pos (unsupported_frame raw) h = elim h [ ]
  marshal_pos ping_frame h = omega arith
  marshal_pos pong_frame h = omega arith
  marshal_pos (data_frame s payload r a) h = omega arith
  marshal_pos (ack_frame s a) h = omega arith
  marshal_pos (open_frame s p raw) h = omega arith

  read_next :
      (fuel : ℕ) (b rest : List ℕ) (f : Frame)
      → 0 < length b
      → unmarshal j b ≡ done f rest
      → read_message j binary_message (suc fuel) b ≡ (
        f ∷ (read_message j binary_message fuel rest).0,
        (read_message j binary_message fuel rest).1,
      )
  unfolding read_message
  read_next fuel [] rest f pos e = absurd (omega arith)
  read_next fuel (b ∷ bs) rest f pos e = rw e

  -- A binary message that holds frames that fit the wire, one after the other, is delivered as
  -- these frames, all of them and in order, and then the loop ends; as many rounds as the message
  -- has bytes are enough.
  pub read_message-marshal_all :
      (fs : List Frame) (fuel : ℕ)
      → All (IsWireFrame j) fs
      → length (marshal_all fs) ≤ fuel
      → read_message j binary_message fuel (marshal_all fs) ≡ (received fs, emptied)
  read_message-marshal_all [] fuel h enough = unfold read_message in refl
  read_message-marshal_all (f ∷ fs) zero h enough =
      absurd (omega (arith, marshal_pos f h.0, length-append (marshal j f) (marshal_all fs)))
  read_message-marshal_all (f ∷ fs) (suc fuel) h enough =
      let size = length-append (marshal j f) (marshal_all fs) in
      let pos = marshal_pos f h.0 in
      let later = read_message-marshal_all fs fuel h.1 (omega arith) in
      read_next fuel (marshal_all (f ∷ fs)) (marshal_all fs) _ (omega arith)
        (unmarshal-marshal j f (marshal_all fs) h.0)
      ∙ rw later

-- The loop gets from the bytes to `stop`, each round by what Unmarshal leaves.
pub data Reaches (j : ParamsJson) (stop : List ℕ) : List ℕ → Type 0 where
  here : Reaches j stop stop
  past_frame :
      (x : ℕ) (b rest : List ℕ) (f : Frame)
      → unmarshal j (x ∷ b) ≡ done f rest
      → Reaches j stop rest
      → Reaches j stop (x ∷ b)
  past_error :
      (x : ℕ) (b rest : List ℕ)
      → unmarshal j (x ∷ b) ≡ failed rest
      → Reaches j stop rest
      → Reaches j stop (x ∷ b)

-- The loop gets to an open frame whose parameters encoding/json refuses, and is given it back.
abbrev pub GetsStuck : ParamsJson → List ℕ → Type 0
GetsStuck j b =
    (stop : List ℕ) × Reaches j stop b × IsRefused j stop × (unmarshal j stop ≡ failed stop)

stuck-running :
    (j : ParamsJson) (fuel : ℕ) (stop : List ℕ)
    → IsRefused j stop
    → unmarshal j stop ≡ failed stop
    → (read_message j binary_message fuel stop).1 ≡ running
unfolding read_message
stuck-running j fuel [] refused e = absurd refused
stuck-running j zero (x ∷ b) refused e = refl
stuck-running j (suc fuel) (x ∷ b) refused e = rw e (stuck-running j fuel (x ∷ b) refused e)

Reaches-running :
    (j : ParamsJson) (stop : List ℕ) (fuel : ℕ) (b : List ℕ)
    → Reaches j stop b
    → IsRefused j stop
    → unmarshal j stop ≡ failed stop
    → (read_message j binary_message fuel b).1 ≡ running
unfolding read_message
Reaches-running j stop fuel b here refused e = stuck-running j fuel stop refused e
Reaches-running j stop zero b (past_frame x c rest f step more) refused e = refl
Reaches-running j stop zero b (past_error x c rest step more) refused e = refl
Reaches-running j stop (suc fuel) b (past_frame x c rest f step more) refused e =
    rw step (Reaches-running j stop fuel rest more refused e)
Reaches-running j stop (suc fuel) b (past_error x c rest step more) refused e =
    rw step (Reaches-running j stop fuel rest more refused e)

running-GetsStuck :
    (j : ParamsJson) (fuel : ℕ) (b : List ℕ)
    → length b ≤ fuel
    → (read_message j binary_message fuel b).1 ≡ running
    → GetsStuck j b
unfolding read_message
running-GetsStuck j fuel [] enough e = absurd (emptied-running e)
running-GetsStuck j zero (x ∷ b) enough e = absurd (omega arith)
running-GetsStuck j (suc fuel) (x ∷ b) enough e =
    after (unmarshal j (x ∷ b)) refl (unmarshal-Left j x b) e
      (λ rest h. running-GetsStuck j fuel rest (omega arith))
  where
    after :
        (r : Read)
        → unmarshal j (x ∷ b) ≡ r
        → Left j r (x ∷ b)
        → (after_read r (read_message j binary_message fuel)).1 ≡ running
        → ((rest : List ℕ)
            → length rest < length (x ∷ b)
            → (read_message j binary_message fuel rest).1 ≡ running
            → GetsStuck j rest)
        → GetsStuck j (x ∷ b)
    after (done f rest) step h e ih =
        let (stop, reached, refused, given) = ih rest h e in
        (stop, past_frame x b rest f step reached, refused, given)
    after (failed rest) step (inl h) e ih =
        let (stop, reached, refused, given) = ih rest h e in
        (stop, past_error x b rest step reached, refused, given)
    after (failed rest) step (inr (same, refused)) e ih =
        (x ∷ b, here, refused, step ∙ ap failed same)
    after panicked step h e ih = absurd (crashed-running e)

-- Given as many rounds as a binary message has bytes, the loop over any bytes is still running exactly if
-- it gets to an open frame whose parameters encoding/json refuses, which Unmarshal gives back whole; in
-- every other case it has ended, with the message used up or with a panic in Unmarshal.
pub read_message-ends :
    (j : ParamsJson) (fuel : ℕ) (b : List ℕ)
    → length b ≤ fuel
    → ((read_message j binary_message fuel b).1 ≡ running) ↔ GetsStuck j b
read_message-ends j fuel b enough = (
  running-GetsStuck j fuel b enough,
  λ (stop, reached, refused, e). Reaches-running j stop fuel b reached refused e,
)
