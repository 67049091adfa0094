-- ===== src/MetaId/Media/RoundTrip.antt =====
-- pkg/metaid/mediaid.go: ParseMediaID on what MakeMediaID wrote.
use meta_matrix_bridge.Prelude.{
  ℕ, ◌+◌, ◌%◌, ◌<◌, ◌≡◌, refl, sym, ap, ◌∙◌, List, [], ◌∷◌, ◌++◌, Bool, true, false, if◌then◌else◌,
  length, take, drop, arith, length-append, take-append, drop-append, append_assoc,
}
use meta_matrix_bridge.Prelude.Outcome.{ok}
use meta_matrix_bridge.Word.{put_be}
use meta_matrix_bridge.Word.RoundTrip.{length-put_be, get_be-put_be}
use meta_matrix_bridge.Strconv.{ℤ, pos, negsuc, to_u64, from_u64}
use meta_matrix_bridge.Strconv.RoundTrip.{IsInt64, from_u64-to_u64}
use meta_matrix_bridge.MetaId.{make_user_login_id}
use meta_matrix_bridge.MetaId.Users.{parse-make_ids}
use meta_matrix_bridge.MetaId.Media.{
  is_supported, includes_part_id, put_short, make_media_id, read, read_one, read_short, read_part,
  parse_media_id,
}

-- A read of the bytes that stand behind a front of the length of `ptr`.
read_at :
    (front xs rest : List ℕ) (ptr size : ℕ)
    → length front ≡ ptr
    → length xs ≡ size
    → read (front ++ (xs ++ rest)) ptr size ≡ ok (xs, ptr + size)
unfolding read
read_at front xs rest ptr size hf hx =
    let behind : drop ptr (front ++ (xs ++ rest)) ≡ xs ++ rest =
      rw (← hf) (drop-append front (xs ++ rest)) in
    let cut : take size (xs ++ rest) ≡ xs = rw (← hx) (take-append xs rest) in
    rw (behind, cut) (ground (arith, length-append front (xs ++ rest), length-append xs rest))

read_one_at :
    (front rest : List ℕ) (c ptr : ℕ)
    → length front ≡ ptr
    → read_one (front ++ (c ∷ rest)) ptr ≡ ok (c, ptr + 1)
unfolding read_one
read_one_at front rest c ptr hf = rw (read_at front (c ∷ []) rest ptr 1 hf refl)

read_short_at :
    (front s rest : List ℕ) (ptr : ℕ)
    → length front ≡ ptr
    → length s < 256
    → read_short (front ++ (put_short s ++ rest)) ptr ≡ ok (s, ptr + 1 + length s)
unfolding read_short
read_short_at front s rest ptr hf hs =
    let size : length s % 256 ≡ length s = omega arith in
    rw (read_one_at front (s ++ rest) (length s % 256) ptr hf) (
      rw (size, ← append_assoc front (length s ∷ []) (s ++ rest))
        (read_at (front ++ (length s ∷ [])) s rest (ptr + 1) (length s)
          (length-append front _ ∙ omega arith) refl))

to_u64-lt : (i : ℤ) → IsInt64 i → to_u64 i < 18446744073709551616
to_u64-lt (pos n) h = omega arith
to_u64-lt (negsuc n) h = omega arith

-- The parts of the identifier, one behind the other: the type, the user, the message, the part.
module _ (t u : ℕ) (message part rest : List ℕ) (hu : u < 18446744073709551616)
    (hm : length message < 256) where
  abbrev media : List ℕ
  media = t ∷ (put_be 8 u ++ (put_short message ++ (part ++ rest)))

  type_read : read_one media 0 ≡ ok (t, 1)
  type_read = read_one_at [] _ t 0 refl

  user_read : read media 1 8 ≡ ok (put_be 8 u, 9)
  user_read = read_at (t ∷ []) (put_be 8 u) _ 1 8 refl (length-put_be 8 u)

  message_read : read_short media 9 ≡ ok (message, 10 + length message)
  message_read = rw (append_assoc (t ∷ []) (put_be 8 u) _) at (
      read_short_at ((t ∷ []) ++ put_be 8 u) message (part ++ rest) 9
        (length-append (t ∷ []) _ ∙ omega (arith, length-put_be 8 u)) hm)

  part_read :
      (s : List ℕ)
      → part ≡ put_short s
      → length s < 256
      → read_short media (10 + length message) ≡ ok (s, 10 + length message + 1 + length s)
  part_read s e hs = rw (e, whole) (read_short_at front s rest (10 + length message) len hs)
    where
      front : List ℕ
      front = t ∷ (put_be 8 u ++ put_short message)

      whole :
          t ∷ (put_be 8 u ++ (put_short message ++ (put_short s ++ rest)))
          ≡ front ++ (put_short s ++ rest)
      whole =
          ap (λ z. t ∷ z)
            (sym (append_assoc (put_be 8 u) (put_short message) (put_short s ++ rest)))

      len : length front ≡ 10 + length message
      len = omega (arith, length-append (put_be 8 u) (put_short message), length-put_be 8 u)

  parts_parse :
      (p : List ℕ) (end : ℕ)
      → is_supported t ≡ true
      → read_part (includes_part_id t) media (10 + length message) ≡ ok (p, end)
      → parse_media_id media
        ≡ ok (record {
          type = t;
          user_id = make_user_login_id (from_u64 u);
          message_id = message;
          part_id = p;
        })
  unfolding parse_media_id
  parts_parse p end supported part_ok =
      rw type_read
        (rw (supported, user_read) (rw (message_read, get_be-put_be 8 u hu) (rw part_ok)))

part_kept :
    (b : Bool) (t u : ℕ) (message s rest : List ℕ) (hu : u < 18446744073709551616)
    (hm : length message < 256)
    → length s < 256
    → (end : ℕ) × (read_part b
          (media t u message (if b then put_short s else []) rest hu hm)
          (10 + length message)
        ≡ ok (if b then s else [], end))
unfolding read_part
part_kept true t u message s rest hu hm hs =
    (_, part_read t u message (put_short s) rest hu hm s refl hs)
part_kept false t u message s rest hu hm hs = (_, refl)

supported_byte : (t : ℕ) → is_supported t ≡ true → t % 256 ≡ t
supported_byte t h = ground arith

-- Every media identifier of a supported type whose message and part identifiers are shorter than
-- 256 bytes is read back, whatever stands behind it; the part identifier is kept by the types
-- that include it, and is empty for the others.
pub parse-make_media_id :
    (t : ℕ) (user : ℤ) (message_id part_id rest : List ℕ)
    → is_supported t ≡ true
    → IsInt64 user
    → length message_id < 256
    → length part_id < 256
    → parse_media_id (make_media_id t (make_user_login_id user) message_id part_id ++ rest)
      ≡ ok (record {
        type = t;
        user_id = make_user_login_id user;
        message_id = message_id;
        part_id = if includes_part_id t then part_id else [];
      })
unfolding make_media_id
parse-make_media_id t user message_id part_id rest supported hi hm hp =
    let u = to_u64 user in
    let part = if includes_part_id t then put_short part_id else [] in
    let (end, kept) =
      part_kept (includes_part_id t) t u message_id part_id rest (to_u64-lt user hi) hm hp in
    let back = parts_parse t u message_id part rest (to_u64-lt user hi) hm _ end supported kept in
    let (_, login, _) = parse-make_ids user hi in
    rw (login, supported_byte t supported)
      (rw
        (
          append_assoc (put_be 8 u) (put_short message_id ++ part) rest,
          append_assoc message_id part rest,
        )
        (rw (from_u64-to_u64 user hi) at back))
