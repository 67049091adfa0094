-- ===== src/MetaId/Users.antt =====
-- pkg/metaid/ids.go: the identifiers of users, logins and portals, made and parsed.
use meta_matrix_bridge.Prelude.{zero, suc, ◌≡◌, refl, ap}
use meta_matrix_bridge.Strconv.{ℤ, pos, negsuc, parse_int}
use meta_matrix_bridge.Strconv.RoundTrip.{IsInt64, parse_int-format_int}
use meta_matrix_bridge.MetaId.{
  make_user_id, make_user_login_id, parse_user_id, parse_user_login_id, make_fb_portal_id,
  parse_fb_portal_id,
}

-- Every int64 user identifier survives the way to text and back, 0 included, which is the empty
-- text; so for logins and portals, where 0 is a digit.
pub parse-make_ids :
    (i : ℤ)
    → IsInt64 i
    → (parse_user_id (make_user_id i) ≡ i)
      × (parse_user_login_id (make_user_login_id i) ≡ i)
      × (parse_fb_portal_id (make_fb_portal_id i) ≡ i)
unfolding parse_user_id make_user_id parse_user_login_id make_user_login_id parse_fb_portal_id
    make_fb_portal_id
parse-make_ids (pos zero) h = (
  unfold parse_int in refl,
  unfold parse_int in refl,
  ap (λ p. p.0) (parse_int-format_int (pos zero) h),
)
parse-make_ids (pos (suc n)) h =
    let e = ap (λ p. p.0) (parse_int-format_int (pos (suc n)) h) in (e, e, e)
parse-make_ids (negsuc n) h = let e = ap (λ p. p.0) (parse_int-format_int (negsuc n) h) in (e, e, e)
