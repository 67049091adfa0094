-- ===== src/MetaId.antt =====
-- pkg/metaid: the identifiers under which the bridge knows users, chats, messages and media.
-- The string types of networkid are lists of bytes; an int64 is an integer.
pub mod Users
pub mod Media
pub mod Message
use meta_matrix_bridge.Prelude.{
  ℕ, zero, List, [], ◌∷◌, Bool, true, false, if◌then◌else◌, ◌==◌, Option, none, some, ◌||◌,
}
use meta_matrix_bridge.Prelude.Text.{codes}
use meta_matrix_bridge.Strconv.{ℤ, pos, negsuc, format_uint, format_int, parse_int}

-- MakeUserID and MakeUserLoginID: no user has the empty identifier.
unfoldable pub make_user_id : ℤ → List ℕ
make_user_id (pos zero) = []
make_user_id user = format_int user

unfoldable pub make_user_login_id : ℤ → List ℕ
unfolding make_user_id
make_user_login_id user = make_user_id user

unfoldable pub make_fb_portal_id : ℤ → List ℕ
make_fb_portal_id portal = format_int portal

-- ParseUserID, ParseUserLoginID and ParseFBPortalID drop the error of strconv.
unfoldable pub parse_user_id : List ℕ → ℤ
parse_user_id user = (parse_int user).0

unfoldable pub parse_user_login_id : List ℕ → ℤ
parse_user_login_id user = (parse_int user).0

unfoldable pub parse_fb_portal_id : List ℕ → ℤ
parse_fb_portal_id portal = (parse_int portal).0

-- ParseIDFromString: `none` is an error.
abbrev parsed : ℤ × Bool → Option ℤ
parsed (i, true) = some i
parsed (i, false) = none

unfoldable pub parse_id_from_string : List ℕ → Option ℤ
parse_id_from_string [] = parsed (parse_int [])
parse_id_from_string (c ∷ cs) =
    if (c == b'+') || (c == b'-') then none else parsed (parse_int (c ∷ cs))

-- MakeMessagePartID: the first part of a message has the empty identifier.
unfoldable pub make_message_part_id : ℕ → List ℕ
make_message_part_id i = if i == 0 then [] else format_uint i
