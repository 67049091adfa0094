-- ===== src/Packets.antt =====
-- pkg/messagix/packets: the first byte of MQTT packets, and the flags of CONNECT.
-- A uint8 is a number below 256; `<<` on it wraps. A method that sets a field of its receiver
-- returns the new record.
pub mod Laws
use meta_matrix_bridge.Prelude.{
  ℕ, ◌*◌, ◌/◌, Bool, true, false, not, Option, none, some, ◌==◌, if◌then◌else◌, bit_and, bit_or,
}
use meta_matrix_bridge.Word.{u8}

abbrev pub connect : ℕ
connect = 1

abbrev pub connack : ℕ
connack = 2

abbrev pub publish : ℕ
publish = 3

abbrev pub puback : ℕ
puback = 4

abbrev pub subscribe : ℕ
subscribe = 8

abbrev pub suback : ℕ
suback = 9

abbrev pub pingreq : ℕ
pingreq = 12

abbrev pub pingresp : ℕ
pingresp = 13

abbrev pub dup_bit : ℕ
dup_bit = 0x08

abbrev pub retain_bit : ℕ
retain_bit = 0x01

-- `q & 0x03`
abbrev qos_to_byte : ℕ → ℕ
qos_to_byte q = bit_and q 0x03

unfoldable pub connect_compress : ℕ
connect_compress = connect * 16

pub record ConnectFlags : Type 0 where
  pub username : Bool
  pub password : Bool
  pub retain : Bool
  pub qos : ℕ
  pub clean_session : Bool

abbrev or_if : Bool → ℕ → ℕ → ℕ
or_if b mask n = if b then bit_or n mask else n

unfoldable pub create_connect_flag_byte : ConnectFlags → ℕ
create_connect_flag_byte f =
    let high = or_if f.retain 0x20 (or_if f.password 0x40 (or_if f.username 0x80 0)) in
    or_if f.clean_session 0x02 (bit_or high (bit_and (u8 (f.qos * 8)) 0x18))

pub record PublishPacket : Type 0 where
  pub packet_type : ℕ
  pub dup : ℕ
  pub qos_level : ℕ
  pub retain_flag : ℕ

unfoldable pub publish_compress : PublishPacket → ℕ
publish_compress p =
    let result = or_if (p.dup == 1) dup_bit (publish * 16) in
    or_if (p.retain_flag == 1) retain_bit (bit_or result (u8 (qos_to_byte p.qos_level * 2)))

pub data PacketError : Type 0 where
  not_publish not_subscribe invalid_flags : PacketError

-- The packet type is set before it is checked.
unfoldable pub publish_decompress : PublishPacket → ℕ → PublishPacket × Option PacketError
publish_decompress p b =
    if b / 16 == publish
    then (
      record {
        packet_type = b / 16;
        dup = if bit_and b 0x08 == 0 then 0 else 1;
        qos_level = bit_and b 0x06 / 2;
        retain_flag = if bit_and b 0x01 == 0 then 0 else 1;
      },
      none,
    )
    else (record p { packet_type = b / 16 }, some not_publish)

unfoldable pub subscribe_compress : ℕ
subscribe_compress = bit_or (subscribe * 16) 0x02

-- The packet type that the receiver keeps, and the error.
unfoldable pub subscribe_decompress : ℕ → ℕ × Option PacketError
subscribe_decompress b =
    if b / 16 == subscribe
    then (b / 16, if bit_and b 0x0f == 0x02 then none else some invalid_flags)
    else (b / 16, some not_subscribe)
