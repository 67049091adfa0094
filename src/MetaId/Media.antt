-- ===== src/MetaId/Media.antt =====
-- pkg/metaid/mediaid.go: the binary identifiers of media in direct downloads.
pub mod RoundTrip
use meta_matrix_bridge.Prelude.{
  ℕ, ◌+◌, ◌%◌, List, [], ◌∷◌, ◌++◌, Bool, true, false, not, ◌||◌, if◌then◌else◌, ltb, ◌==◌, length,
  take, drop,
}
use meta_matrix_bridge.Prelude.Outcome.{Outcome, ok, err, panic, ◌>>=◌, ◌>>◌, reject_if}
use meta_matrix_bridge.Word.{put_be, get_be}
use meta_matrix_bridge.Strconv.{to_u64, from_u64}
use meta_matrix_bridge.MetaId.{make_user_login_id, parse_user_login_id}

abbrev pub meta_v1 : ℕ
meta_v1 = 2

abbrev pub whatsapp_v1 : ℕ
whatsapp_v1 = 3

abbrev pub meta_v2 : ℕ
meta_v2 = 4

abbrev pub whatsapp_v2 : ℕ
whatsapp_v2 = 5

abbrev pub is_supported : ℕ → Bool
is_supported t = (t == meta_v1) || (t == whatsapp_v1) || (t == meta_v2) || (t == whatsapp_v2)

abbrev pub includes_part_id : ℕ → Bool
includes_part_id t = not ((t == meta_v1) || (t == whatsapp_v1))

pub record MediaInfo : Type 0 where
  pub type : ℕ
  pub user_id : List ℕ
  pub message_id : List ℕ
  pub part_id : List ℕ

-- A text behind one byte for its length, `byte(len(s))`.
abbrev pub put_short : List ℕ → List ℕ
put_short s = (length s % 256) ∷ s

unfoldable pub make_media_id : ℕ → List ℕ → List ℕ → List ℕ → List ℕ
make_media_id media_type user_id message_id part_id =
    (media_type % 256)
    ∷ (put_be 8 (to_u64 (parse_user_login_id user_id))
        ++ (put_short message_id
            ++ (if includes_part_id media_type then put_short part_id else [])))

-- What could not be read, and where it starts.
pub data MediaError : Type 0 where
  too_short : (size ptr : ℕ) → MediaError
  unrecognized_type : ℕ → MediaError

-- The closures `read` and `readOne` over `mediaID` and `ptr`: the bytes, and the new `ptr`.
unfoldable pub read : List ℕ → ℕ → ℕ → Outcome MediaError (List ℕ × ℕ)
read media_id ptr size =
    if ltb (length media_id) (ptr + size)
    then err (too_short size ptr)
    else ok (take size (drop ptr media_id), ptr + size)

abbrev first_byte : List ℕ → Outcome MediaError ℕ
first_byte [] = panic
first_byte (b ∷ bs) = ok b

unfoldable pub read_one : List ℕ → ℕ → Outcome MediaError (ℕ × ℕ)
read_one media_id ptr = do (b, ptr') ← read media_id ptr 1; c ← first_byte b; ok (c, ptr')

-- A length byte and that many bytes.
unfoldable pub read_short : List ℕ → ℕ → Outcome MediaError (List ℕ × ℕ)
read_short media_id ptr = do (c, ptr') ← read_one media_id ptr; read media_id ptr' c

unfoldable pub read_part : Bool → List ℕ → ℕ → Outcome MediaError (List ℕ × ℕ)
read_part true media_id ptr = read_short media_id ptr
read_part false media_id ptr = ok ([], ptr)

unfoldable pub parse_media_id : List ℕ → Outcome MediaError MediaInfo
parse_media_id media_id = do
  (c, ptr) ← read_one media_id 0
  reject_if (not (is_supported c)) (unrecognized_type c)
  (b, ptr') ← read media_id ptr 8
  (message_id, ptr'') ← read_short media_id ptr'
  (part_id, end) ← read_part (includes_part_id c) media_id ptr''
  ok (record {
    type = c;
    user_id = make_user_login_id (from_u64 (get_be b));
    message_id = message_id;
    part_id = part_id;
  })
