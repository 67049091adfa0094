-- ===== src/Packets/Laws.antt =====
-- pkg/messagix/packets: Compress, Decompress and CreateConnectFlagByte, in plain arithmetic.
use meta_matrix_bridge.Prelude.{
  ℕ, ◌+◌, ◌*◌, ◌/◌, ◌%◌, ◌<◌, ◌≤◌, ◌≡◌, refl, ◌↔◌, Bool, true, false, none, arith, ◌==◌,
  if◌then◌else◌, bit_and, bit_or, ◌∙◌,
}
use meta_matrix_bridge.Prelude.Bits.{all_below, agree_below}
use meta_matrix_bridge.Word.{u8}
use meta_matrix_bridge.Packets.{
  ConnectFlags, create_connect_flag_byte, PublishPacket, publish, publish_compress,
  publish_decompress, or_if, subscribe_decompress, subscribe_compress,
}

and_three : (q : ℕ) → q < 256 → bit_and q 0x03 ≡ q % 4
unfolding all_below
and_three = agree_below 256 _ _ refl

and_0x08 : (b : ℕ) → b < 256 → bit_and b 0x08 ≡ b / 8 % 2 * 8
unfolding all_below
and_0x08 = agree_below 256 _ _ refl

and_0x06 : (b : ℕ) → b < 256 → bit_and b 0x06 ≡ b / 2 % 4 * 2
unfolding all_below
and_0x06 = agree_below 256 _ _ refl

and_0x01 : (b : ℕ) → b < 256 → bit_and b 0x01 ≡ b % 2
unfolding all_below
and_0x01 = agree_below 256 _ _ refl

and_0x0f : (b : ℕ) → b < 256 → bit_and b 0x0f ≡ b % 16
unfolding all_below
and_0x0f = agree_below 256 _ _ refl

and_0x18 : (b : ℕ) → b < 256 → bit_and b 0x18 ≡ b / 8 % 4 * 8
unfolding all_below
and_0x18 = agree_below 256 _ _ refl

or_plain : (r : ℕ) → r < 8 → bit_or 48 r ≡ 48 + r
unfolding all_below
or_plain = agree_below 8 _ _ refl

or_dup : (r : ℕ) → r < 8 → bit_or 56 r ≡ 56 + r
unfolding all_below
or_dup = agree_below 8 _ _ refl

or_retain : (r : ℕ) → r < 128 → bit_or (r * 2) 1 ≡ r * 2 + 1
unfolding all_below
or_retain = agree_below 128 _ _ refl

abbrev pub flag : Bool → ℕ → ℕ
flag b n = if b then n else 0

-- The byte of a PUBLISH packet: type 3, then DUP, two bits of QoS and RETAIN. A DUP or RETAIN
-- field counts only if it is 1.
pub publish_compress_layout :
    (p : PublishPacket)
    → p.qos_level < 256
    → publish_compress p
      ≡ 48 + flag (p.dup == 1) 8 + p.qos_level % 4 * 2 + flag (p.retain_flag == 1) 1
unfolding publish_compress
publish_compress_layout p h =
    let q = p.qos_level % 4 in
    rw (and_three p.qos_level h)
      (ground (arith, or_plain (q * 2), or_dup (q * 2), or_retain (24 + q), or_retain (28 + q)))

decompress_fields :
    (p old : PublishPacket) (b : ℕ)
    → b ≡ 48 + p.dup * 8 + p.qos_level * 2 + p.retain_flag
    → p.packet_type ≡ publish
    → p.dup ≤ 1
    → p.qos_level < 4
    → p.retain_flag ≤ 1
    → publish_decompress old b ≡ (p, none)
unfolding publish_decompress
decompress_fields p old b e t d q r = ground (arith, and_0x08 b, and_0x06 b, and_0x01 b)

-- Decompress reads back every PUBLISH packet that Compress wrote, whatever the receiver held.
pub publish_decompress-compress :
    (p old : PublishPacket)
    → p.packet_type ≡ publish
    → p.dup ≤ 1
    → p.qos_level < 4
    → p.retain_flag ≤ 1
    → publish_decompress old (publish_compress p) ≡ (p, none)
publish_decompress-compress p old t d q r =
    decompress_fields p old (publish_compress p)
      (publish_compress_layout p (omega arith) ∙ ground arith) t d q r

-- Decompress of a SUBSCRIBE packet accepts the one byte that Compress writes, and no other.
pub subscribe_decompress_accepts :
    (b : ℕ) → b < 256 → ((subscribe_decompress b).1 ≡ none) ↔ (b ≡ subscribe_compress)
unfolding subscribe_decompress subscribe_compress
subscribe_decompress_accepts b h =
    (λ e. ground (arith, and_0x0f b), λ e. ground (arith, and_0x0f b))

or_table : (x : ℕ) → x < 32 → bit_or (x / 4 * 32) (x % 4 * 8) ≡ x * 8
unfolding all_below
or_table = agree_below 32 _ _ refl

or_qos : (k q : ℕ) → k < 8 → q < 4 → bit_or (k * 32) (q * 8) ≡ (k * 4 + q) * 8
or_qos k q h l =
    let e : (k * 4 + q) / 4 ≡ k = omega arith in
    let f : (k * 4 + q) % 4 ≡ q = omega arith in rw (e, f) at (or_table (k * 4 + q) (omega arith))

or_clean : (x : ℕ) → x < 32 → bit_or (x * 8) 0x02 ≡ x * 8 + 2
unfolding all_below
or_clean = agree_below 32 _ _ refl

high_bits :
    (u p r : Bool)
    → or_if r 0x20 (or_if p 0x40 (or_if u 0x80 0)) ≡ (flag u 4 + flag p 2 + flag r 1) * 32
high_bits true true true = refl
high_bits true true false = refl
high_bits true false true = refl
high_bits true false false = refl
high_bits false true true = refl
high_bits false true false = refl
high_bits false false true = refl
high_bits false false false = refl

flag_bound : (u p r : Bool) → flag u 4 + flag p 2 + flag r 1 < 8
flag_bound u p r = ground arith

qos_bits : (q : ℕ) → bit_and (u8 (q * 8)) 0x18 ≡ q % 4 * 8
qos_bits q = and_0x18 (u8 (q * 8)) (omega arith) ∙ omega arith

-- The flag byte of CONNECT as MQTT lays it out: user name, password, (will) retain, two bits of QoS, the
-- will flag, clean session, and a reserved bit; the will flag and the reserved bit are always 0.
pub create_connect_flag_byte_layout :
    (f : ConnectFlags)
    → create_connect_flag_byte f
      ≡ flag f.username 128
        + flag f.password 64
        + flag f.retain 32
        + f.qos % 4 * 8
        + flag f.clean_session 2
unfolding create_connect_flag_byte
create_connect_flag_byte_layout f =
    let k = flag f.username 4 + flag f.password 2 + flag f.retain 1 in
    rw (high_bits f.username f.password f.retain, qos_bits f.qos)
      (rw (or_qos k (f.qos % 4) (flag_bound f.username f.password f.retain) (omega arith))
        (ground (arith, or_clean (k * 4 + f.qos % 4), flag_bound f.username f.password f.retain)))
