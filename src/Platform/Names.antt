-- ===== src/Platform/Names.antt =====
-- pkg/messagix/types/client.go: the names, digits and predicates of the platforms.
use meta_matrix_bridge.Prelude.{ℕ, ◌+◌, ◌≡◌, refl, List, [], ◌∷◌, false, ◌||◌, ◌&&◌}
use meta_matrix_bridge.Platform.{
  Platform, unset, instagram, facebook, messenger, messenger_lite, facebook_tor, code_of,
  platform_from_string, unmarshal_json, to_text, marshal_json, is_via_facebook, is_via_messenger,
  is_messenger, is_instagram, is_valid, same,
}

-- The text and the JSON form of every platform are read back as that platform.
pub from-to_text :
    (p : Platform) → (platform_from_string (to_text p) ≡ p) × (unmarshal_json (marshal_json p) ≡ p)
unfolding platform_from_string to_text unmarshal_json marshal_json
from-to_text unset = (refl, refl)
from-to_text instagram = (refl, refl)
from-to_text facebook = (refl, refl)
from-to_text messenger = (refl, refl)
from-to_text messenger_lite = (refl, refl)
from-to_text facebook_tor = (refl, refl)

-- The digit that the JSON form accepts for a platform.
abbrev pub digit : ℕ → List ℕ
digit n = (b'0' + n) ∷ []

-- The last two platforms exchanged.
unfoldable pub exchange : Platform → Platform
exchange messenger_lite = facebook_tor
exchange facebook_tor = messenger_lite
exchange p = p

-- The digit of a platform's value is read as that platform, except that the digits of the last two
-- platforms are exchanged.
pub unmarshal_json-digit : (p : Platform) → unmarshal_json (digit (code_of p)) ≡ exchange p
unfolding unmarshal_json code_of exchange
unmarshal_json-digit unset = refl
unmarshal_json-digit instagram = refl
unmarshal_json-digit facebook = refl
unmarshal_json-digit messenger = refl
unmarshal_json-digit messenger_lite = refl
unmarshal_json-digit facebook_tor = refl

-- A platform is valid when it has a name; it is then either Instagram or Messenger, and a Messenger
-- account is logged in either through Facebook or through Messenger.
pub is_valid-divides :
    (p : Platform)
    → (is_valid p ≡ (is_instagram p || is_messenger p))
      × ((is_instagram p && is_messenger p) ≡ false)
      × (is_messenger p ≡ (is_via_facebook p || is_via_messenger p))
      × ((is_via_facebook p && is_via_messenger p) ≡ false)
unfolding is_valid is_instagram is_messenger is_via_facebook is_via_messenger same
is_valid-divides unset = (refl, refl, refl, refl)
is_valid-divides instagram = (refl, refl, refl, refl)
is_valid-divides facebook = (refl, refl, refl, refl)
is_valid-divides messenger = (refl, refl, refl, refl)
is_valid-divides messenger_lite = (refl, refl, refl, refl)
is_valid-divides facebook_tor = (refl, refl, refl, refl)
