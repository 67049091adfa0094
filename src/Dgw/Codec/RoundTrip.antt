-- ===== src/Dgw/Codec/RoundTrip.antt =====
-- pkg/messagix/dgw/frames.go: Unmarshal on what Marshal wrote.
use meta_matrix_bridge.Prelude.{
  ℕ, zero, suc, ◌+◌, ◌*◌, ◌-◌, ◌/◌, ◌%◌, ◌<◌, ◌≡◌, refl, sym, ◌∙◌, List, [], ◌∷◌, ◌++◌, Bool, true,
  false, not, none, some, ◌==◌, length, drop, bit_and, arith, length-append, take-append,
  drop-append,
}
use meta_matrix_bridge.Prelude.Bits.{all_below, all_below-at, low_seven, top_bit, set_top}
use meta_matrix_bridge.Word.{u16, put_le, get_le}
use meta_matrix_bridge.Dgw.{
  Frame, unsupported_frame, ping_frame, pong_frame, data_frame, ack_frame, open_frame,
  OpenFrameParams, frame_type_open,
}
use meta_matrix_bridge.Dgw.Codec.{
  ParamsJson, flag_ack, ack_bytes, marshal, done, failed, slice, data_unmarshal, ack_unmarshal,
  open_unmarshal, unmarshal,
}

pub drop_add : (m n : ℕ) (xs : List ℕ) → drop (m + n) xs ≡ drop n (drop m xs)
drop_add zero n xs = let e : 0 + n ≡ n = omega arith in rw e
drop_add (suc m) n [] = let e : suc m + n ≡ suc (m + n) = omega arith in rw e (sym (drop_nil n))
  where
    drop_nil : (k : ℕ) → drop {A = ℕ} k [] ≡ []
    drop_nil zero = refl
    drop_nil (suc k) = refl
drop_add (suc m) n (x ∷ xs) =
    let e : suc m + n ≡ suc (m + n) = omega arith in rw e (drop_add m n xs)

low_fifteen_table :
    all_below (λ h. all_below (λ l. bit_and (l + 256 * h) 0x7fff == (l + 256 * (h % 128))) 256) 256
    ≡ true
unfolding all_below
low_fifteen_table = refl

pub low_fifteen : (l h : ℕ) → l < 256 → h < 256 → bit_and (l + 256 * h) 0x7fff ≡ l + 256 * (h % 128)
low_fifteen l h hl hh =
    let row = all_below-at _ 256 h hh low_fifteen_table in
    ground (arith, all_below-at _ 256 l hl row)

-- A payload behind a header of `k` bytes.
payload_cut :
    (k : ℕ) (h payload rest : List ℕ) (end : ℕ)
    → length h ≡ k
    → end ≡ k + length payload
    → (slice k end (h ++ (payload ++ rest)) ≡ payload) × (drop end (h ++ (payload ++ rest)) ≡ rest)
payload_cut k h payload rest end len e =
    let front : drop k (h ++ (payload ++ rest)) ≡ payload ++ rest =
      rw (← len) (drop-append h (payload ++ rest)) in
    let n : end - k ≡ length payload = omega arith in
    (
      rw (front, n) (take-append payload rest),
      rw e (
          drop_add k (length payload) (h ++ (payload ++ rest))
          ∙ rw front (drop-append payload rest)),
    )

-- The header bytes of a data frame, and what is read of them.
data_unmarshal_bytes :
    (t s0 s1 n0 n1 z a0 a1 : ℕ) (payload rest : List ℕ)
    → get_le (n0 ∷ n1 ∷ []) ≡ length payload + 2
    → length payload < 65528
    → data_unmarshal (t ∷ s0 ∷ s1 ∷ n0 ∷ n1 ∷ z ∷ a0 ∷ a1 ∷ (payload ++ rest))
      ≡ done
          (data_frame
            (get_le (s0 ∷ s1 ∷ []))
            payload
            (not (bit_and a1 0x80 == 0))
            (bit_and (get_le (a0 ∷ a1 ∷ [])) 0x7fff))
          rest
unfolding data_unmarshal
data_unmarshal_bytes t s0 s1 n0 n1 z a0 a1 payload rest n short =
    let h : List ℕ = t ∷ s0 ∷ s1 ∷ n0 ∷ n1 ∷ z ∷ a0 ∷ a1 ∷ [] in
    let end : ℕ = u16 (8 + u16 (get_le (n0 ∷ n1 ∷ []) + 65536 - 2)) in
    let e : end ≡ 8 + length payload = omega arith in
    let (cut, after) = payload_cut 8 h payload rest end refl e in
    rw (cut, after) (ground (arith, e, length-append payload rest))

ack_unmarshal_bytes :
    (t s0 s1 n0 n1 z a0 a1 : ℕ) (rest : List ℕ)
    → get_le (n0 ∷ n1 ∷ []) ≡ 2
    → ack_unmarshal (t ∷ s0 ∷ s1 ∷ n0 ∷ n1 ∷ z ∷ a0 ∷ a1 ∷ rest)
      ≡ done (ack_frame (get_le (s0 ∷ s1 ∷ [])) (get_le (a0 ∷ a1 ∷ []))) rest
unfolding ack_unmarshal
ack_unmarshal_bytes t s0 s1 n0 n1 z a0 a1 rest two = rw two (ground arith)

open_unmarshal_bytes :
    (j : ParamsJson) (t s0 s1 n0 n1 z : ℕ) (payload rest : List ℕ) (p : OpenFrameParams)
    → get_le (n0 ∷ n1 ∷ []) ≡ length payload
    → length payload < 65530
    → j.unmarshal payload ≡ some p
    → open_unmarshal j (t ∷ s0 ∷ s1 ∷ n0 ∷ n1 ∷ z ∷ (payload ++ rest))
      ≡ done
          (open_frame (get_le (s0 ∷ s1 ∷ [])) p (t ∷ s0 ∷ s1 ∷ n0 ∷ n1 ∷ z ∷ (payload ++ rest)))
          rest
unfolding open_unmarshal
open_unmarshal_bytes j t s0 s1 n0 n1 z payload rest p n short same =
    let h : List ℕ = t ∷ s0 ∷ s1 ∷ n0 ∷ n1 ∷ z ∷ [] in
    let end : ℕ = u16 (6 + get_le (n0 ∷ n1 ∷ [])) in
    let e : end ≡ 6 + length payload = omega arith in
    let (cut, after) = payload_cut 6 h payload rest end refl e in
    rw (cut, same) (rw after (ground (arith, e, length-append payload rest)))

ack_high :
    (r : Bool) (hi : ℕ)
    → hi < 128
    → (not (bit_and (flag_ack r hi) 0x80 == 0) ≡ r)
      × (flag_ack r hi % 128 ≡ hi)
      × (flag_ack r hi < 256)
ack_high true hi h = ground (arith, low_seven hi, set_top hi, top_bit (hi + 128))
ack_high false hi h = ground (arith, low_seven hi, top_bit hi)

ack_bytes_read :
    (r : Bool) (id : ℕ)
    → id < 32768
    → (not (bit_and (flag_ack r (id / 256 % 256)) 0x80 == 0) ≡ r)
      × (bit_and (get_le ((id % 256) ∷ flag_ack r (id / 256 % 256) ∷ [])) 0x7fff ≡ id)
unfolding get_le
ack_bytes_read r id h =
    let (flagged, low, byte) = ack_high r (id / 256 % 256) (omega arith) in
    let eq : id % 256 + 256 * (flag_ack r (id / 256 % 256) + 256 * 0)
        ≡ id % 256 + 256 * flag_ack r (id / 256 % 256) =
      omega arith in
    (
      flagged,
      rw eq (low_fifteen (id % 256) (flag_ack r (id / 256 % 256)) (omega arith) byte ∙ omega arith),
    )

two_bytes : (v : ℕ) → v < 65536 → get_le ((v % 256) ∷ (v / 256 % 256) ∷ []) ≡ v
unfolding get_le
two_bytes v h = omega arith

-- The frames whose fields fit the wire: a data payload below 65528 bytes, an ack identifier of a
-- data frame below 2 ^ 15, and parameters whose JSON is below 65530 bytes and is read back.
abbrev pub IsWireFrame : ParamsJson → Frame → Type 0
IsWireFrame j (unsupported_frame raw) = ⊥
IsWireFrame j ping_frame = Unit {0}
IsWireFrame j pong_frame = Unit {0}
IsWireFrame j (data_frame s payload r a) = (s < 65536) × (length payload < 65528) × (a < 32768)
IsWireFrame j (ack_frame s a) = (s < 65536) × (a < 65536)
IsWireFrame j (open_frame s p raw) =
    (s < 65536) × (length (j.marshal p) < 65530) × (j.unmarshal (j.marshal p) ≡ some p)

-- Reading an open frame keeps the bytes that it was read from.
abbrev pub with_raw : Frame → List ℕ → Frame
with_raw (open_frame s p raw) b = open_frame s p b
with_raw f b = f

-- Unmarshal of the bytes of a frame that fits the wire gives the frame, and leaves exactly the
-- bytes that follow.
pub unmarshal-marshal :
    (j : ParamsJson) (f : Frame) (rest : List ℕ)
    → IsWireFrame j f
    → unmarshal j (marshal j f ++ rest) ≡ done (with_raw f (marshal j f ++ rest)) rest
unfolding marshal unmarshal put_le ack_bytes
unmarshal-marshal j (unsupported_frame raw) rest h = elim h [ ]
unmarshal-marshal j ping_frame rest h = refl
unmarshal-marshal j pong_frame rest h = refl
unmarshal-marshal j (data_frame s payload r a) rest (hs, hp, ha) =
    let n = u16 (length payload + 2) in
    let (flagged, id) = ack_bytes_read r a ha in
    data_unmarshal_bytes _ (s % 256) (s / 256 % 256) (n % 256) (n / 256 % 256) 0 (a % 256) _ payload
      rest (two_bytes n (omega arith) ∙ omega arith) hp
    ∙ rw (two_bytes s hs, flagged, id)
unmarshal-marshal j (ack_frame s a) rest (hs, ha) =
    ack_unmarshal_bytes _ (s % 256) (s / 256 % 256) 2 0 0 (a % 256) (a / 256 % 256) rest
      (two_bytes 2 (omega arith))
    ∙ rw (two_bytes s hs, two_bytes a ha)
unmarshal-marshal j (open_frame s p raw) rest (hs, hp, same) =
    let n = u16 (length (j.marshal p)) in
    open_unmarshal_bytes j _ (s % 256) (s / 256 % 256) (n % 256) (n / 256 % 256) 0 (j.marshal p)
      rest p (two_bytes n (omega arith) ∙ omega arith) hp same
    ∙ rw (two_bytes s hs)

-- A complete open frame whose JSON is refused gives its bytes back.
pub unmarshal_bad_json :
    (j : ParamsJson) (s : ℕ) (payload rest : List ℕ)
    → length payload < 65530
    → j.unmarshal payload ≡ none
    → (let b =
          frame_type_open
          ∷ (put_le 2 s ++ (put_le 2 (length payload) ++ (0 ∷ (payload ++ rest)))) in
        unmarshal j b ≡ failed b)
unfolding unmarshal open_unmarshal put_le
unmarshal_bad_json j s payload rest short refused =
    let n = length payload in
    let h : List ℕ =
      frame_type_open ∷ (s % 256) ∷ (s / 256 % 256) ∷ (n % 256) ∷ (n / 256 % 256) ∷ 0 ∷ [] in
    let size : get_le ((n % 256) ∷ (n / 256 % 256) ∷ []) ≡ n = two_bytes n (omega arith) in
    let end : ℕ = u16 (6 + get_le ((n % 256) ∷ (n / 256 % 256) ∷ [])) in
    let e : end ≡ 6 + n = omega arith in
    let (cut, after) = payload_cut 6 h payload rest end refl e in
    rw (cut, refused) (ground (arith, e, length-append payload rest))
