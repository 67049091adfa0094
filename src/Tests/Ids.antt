-- ===== src/Tests/Ids.antt =====
-- Runs of the identifiers of pkg/metaid and of the platforms of pkg/messagix/types.
use meta_matrix_bridge.Prelude.{ℕ, ◌≡◌, refl, List, [], ◌∷◌, ◌++◌, Option, none, some, arith}
use meta_matrix_bridge.Prelude.Outcome.{ok}
use meta_matrix_bridge.Prelude.Text.{codes}
use meta_matrix_bridge.Strconv.{pos, negsuc}
use meta_matrix_bridge.MetaId.{
  make_user_id, make_user_login_id, parse_user_id, parse_user_login_id, make_fb_portal_id,
  parse_fb_portal_id,
}
use meta_matrix_bridge.MetaId.Users.{parse-make_ids}
use meta_matrix_bridge.MetaId.Media.{make_media_id, parse_media_id, meta_v2}
use meta_matrix_bridge.MetaId.Media.RoundTrip.{parse-make_media_id}
use meta_matrix_bridge.MetaId.Message.{JidText, wa_message, make_message_id, parse_message_id}
use meta_matrix_bridge.MetaId.Message.RoundTrip.{parse-make_wa}
use meta_matrix_bridge.Platform.{facebook_tor, unmarshal_json, code_of}
use meta_matrix_bridge.Platform.Names.{unmarshal_json-digit, digit, exchange}

parse-make_ids_example :
    (parse_user_id (make_user_id (negsuc 41)) ≡ negsuc 41)
    × (parse_user_login_id (make_user_login_id (negsuc 41)) ≡ negsuc 41)
    × (parse_fb_portal_id (make_fb_portal_id (negsuc 41)) ≡ negsuc 41)
parse-make_ids_example = parse-make_ids (negsuc 41) (omega arith)

parse-make_media_id_example :
    parse_media_id
      (make_media_id meta_v2 (make_user_login_id (pos 1234)) (codes "mid.7") (codes "1") ++ [])
    ≡ ok (record {
      type = meta_v2;
      user_id = make_user_login_id (pos 1234);
      message_id = codes "mid.7";
      part_id = codes "1";
    })
parse-make_media_id_example =
    parse-make_media_id meta_v2 (pos 1234) (codes "mid.7") (codes "1") [] refl (omega arith)
      (omega arith) (omega arith)

-- A JID is a user's letter, which is its text.
abbrev of_text : List ℕ → Option ℕ
of_text (c ∷ []) = some c
of_text _ = none

abbrev letters : JidText ℕ
letters = record { show = λ c. c ∷ []; to_non_ad = λ c. c; parse = of_text }

parse-make_wa_example :
    parse_message_id letters (make_message_id letters (wa_message b'a' b'b' (codes "x:y")))
    ≡ some (wa_message b'a' b'b' (codes "x:y"))
parse-make_wa_example =
    parse-make_wa letters b'a' b'b' (codes "x:y") (((λ e. omega (arith, e)), tt), refl)
      (((λ e. omega (arith, e)), tt), refl)

unmarshal_json-digit_example : unmarshal_json (digit (code_of facebook_tor)) ≡ exchange facebook_tor
unmarshal_json-digit_example = unmarshal_json-digit facebook_tor
