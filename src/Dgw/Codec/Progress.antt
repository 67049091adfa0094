-- ===== src/Dgw/Codec/Progress.antt =====
-- pkg/messagix/dgw/frames.go: what Unmarshal leaves of its input.
use meta_matrix_bridge.Prelude.{
  ℕ, ◌+◌, ◌-◌, ◌<◌, ◌≡◌, ◌⊎◌, refl, List, [], ◌∷◌, none, some, arith, length, length-drop,
  Option-cases, inl, inr, Bool-cases, ltb, ◌==◌, ==_iff, if◌then◌else◌,
}
use meta_matrix_bridge.Word.{u16}
use meta_matrix_bridge.Dgw.Codec.{
  ParamsJson, Read, done, failed, panicked, slice, uint16_at, data_unmarshal, ack_unmarshal,
  open_unmarshal, open_parsed, unmarshal,
}
use meta_matrix_bridge.Dgw.{
  OpenFrameParams, frame_type_ping, frame_type_pong, frame_type_ack, frame_type_data,
  frame_type_open,
}

-- What is left is shorter than the input was.
abbrev pub RestOf : Read → ℕ → Type 0
RestOf (done f rest) n = length rest < n
RestOf (failed rest) n = length rest < n
RestOf panicked n = Unit {0}

data_unmarshal-RestOf : (x : ℕ) (b : List ℕ) → RestOf (data_unmarshal (x ∷ b)) (length (x ∷ b))
unfolding data_unmarshal
data_unmarshal-RestOf x b =
    ground (arith, length-drop (u16 (8 + u16 (uint16_at 3 (x ∷ b) + 65536 - 2))) (x ∷ b))

ack_unmarshal-RestOf : (x : ℕ) (b : List ℕ) → RestOf (ack_unmarshal (x ∷ b)) (length (x ∷ b))
unfolding ack_unmarshal
ack_unmarshal-RestOf x b = ground (arith, length-drop 8 (x ∷ b))

-- An open frame whose parameters encoding/json refuses.
abbrev pub IsRefused : ParamsJson → List ℕ → Type 0
IsRefused j [] = ⊥
IsRefused j (t ∷ b) =
    (t ≡ frame_type_open) × (j.unmarshal (slice 6 (u16 (6 + uint16_at 3 (t ∷ b))) (t ∷ b)) ≡ none)

-- What is left is shorter, or it is a refused open frame, given back whole.
abbrev pub Left : ParamsJson → Read → List ℕ → Type 0
Left j (done f rest) b = length rest < length b
Left j (failed rest) b = (length rest < length b) ⊎ ((rest ≡ b) × IsRefused j b)
Left j panicked b = Unit {0}

RestOf-Left : (j : ParamsJson) (r : Read) (b : List ℕ) → RestOf r (length b) → Left j r b
RestOf-Left j (done f rest) b h = h
RestOf-Left j (failed rest) b h = inl h
RestOf-Left j panicked b h = h

open_parsed-RestOf :
    (s : ℕ) (x : ℕ) (b : List ℕ) (end : ℕ) (p : OpenFrameParams)
    → RestOf
        (if ltb (length (x ∷ b)) 6
          then failed []
          else (if ltb (length (x ∷ b)) end
              then failed []
              else (if ltb end 6 then panicked else open_parsed s (x ∷ b) end (some p))))
        (length (x ∷ b))
open_parsed-RestOf s x b end p = ground (arith, length-drop end (x ∷ b))

open_refused-Left :
    (j : ParamsJson) (s : ℕ) (x : ℕ) (b : List ℕ) (end : ℕ)
    → IsRefused j (x ∷ b)
    → Left j
        (if ltb (length (x ∷ b)) 6
          then failed []
          else (if ltb (length (x ∷ b)) end
              then failed []
              else (if ltb end 6 then panicked else open_parsed s (x ∷ b) end none)))
        (x ∷ b)
open_refused-Left j s x b end refused = elim (Bool-cases (ltb (length (x ∷ b)) 6)) [
  | inl short ↦ rw short (inl (omega arith))
  | inr long ↦ rw long (elim (Bool-cases (ltb (length (x ∷ b)) end)) [
    | inl short ↦ rw short (inl (omega arith))
    | inr full ↦ rw full (elim (Bool-cases (ltb end 6)) [
      | inl wraps ↦ rw wraps tt
      | inr whole ↦ rw whole (inr (refl, refused))
    ])
  ])
]

open_unmarshal-Left :
    (j : ParamsJson) (x : ℕ) (b : List ℕ)
    → x ≡ frame_type_open
    → Left j (open_unmarshal j (x ∷ b)) (x ∷ b)
unfolding open_unmarshal
open_unmarshal-Left j x b is_open = elim (Option-cases (j.unmarshal (slice 6 end (x ∷ b)))) [
  | inl e ↦ rw e (open_refused-Left j (uint16_at 1 (x ∷ b)) x b end (is_open, e))
  | inr (p, e) ↦ rw e (RestOf-Left j _ (x ∷ b) (open_parsed-RestOf (uint16_at 1 (x ∷ b)) x b end p))
]
  where
    end : ℕ
    end = u16 (6 + uint16_at 3 (x ∷ b))

pub unmarshal-Left : (j : ParamsJson) (x : ℕ) (b : List ℕ) → Left j (unmarshal j (x ∷ b)) (x ∷ b)
unfolding unmarshal
unmarshal-Left j x b = elim (Bool-cases (x == frame_type_ping)) [
  | inl ping ↦ rw ping (omega arith)
  | inr n1 ↦ rw n1 (elim (Bool-cases (x == frame_type_pong)) [
    | inl pong ↦ rw pong (omega arith)
    | inr n2 ↦ rw n2 (elim (Bool-cases (x == frame_type_ack)) [
      | inl ack ↦ rw ack (RestOf-Left j _ (x ∷ b) (ack_unmarshal-RestOf x b))
      | inr n3 ↦ rw n3 (elim (Bool-cases (x == frame_type_data)) [
        | inl is_data ↦ rw is_data (RestOf-Left j _ (x ∷ b) (data_unmarshal-RestOf x b))
        | inr n4 ↦ rw n4 (elim (Bool-cases (x == frame_type_open)) [
          | inl is_open ↦
              rw is_open (open_unmarshal-Left j x b ((==_iff x frame_type_open).0 is_open))
          | inr n5 ↦ rw n5 (omega arith)
        ])
      ])
    ])
  ])
]
