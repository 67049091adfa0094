-- ===== src/Platform.antt =====
-- pkg/messagix/types/client.go: the platform of an account, its name and its JSON form.
-- The text of a platform is the list of its bytes.
pub mod Names
use meta_matrix_bridge.Prelude.{
  ℕ, List, [], ◌∷◌, ◌++◌, Bool, true, false, ◌&&◌, ◌||◌, ◌==◌, if◌then◌else◌,
}
use meta_matrix_bridge.Prelude.Text.{codes, text_eq}

pub data Platform : Type 0 where
  unset instagram facebook messenger messenger_lite facebook_tor : Platform

-- The values that `iota` gives.
unfoldable pub code_of : Platform → ℕ
code_of unset = 0
code_of instagram = 1
code_of facebook = 2
code_of messenger = 3
code_of messenger_lite = 4
code_of facebook_tor = 5

unfoldable pub platform_from_string : List ℕ → Platform
platform_from_string s =
    if text_eq s (codes "instagram")
    then instagram
    else if text_eq s (codes "facebook")
    then facebook
    else if text_eq s (codes "messenger")
    then messenger
    else if text_eq s (codes "facebook-tor")
    then facebook_tor
    else if text_eq s (codes "messenger-lite")
    then messenger_lite
    else unset

unfoldable pub unmarshal_json : List ℕ → Platform
unmarshal_json s =
    if text_eq s (codes "\"instagram\"") || text_eq s (codes "1")
    then instagram
    else if text_eq s (codes "\"facebook\"") || text_eq s (codes "2")
    then facebook
    else if text_eq s (codes "\"messenger\"") || text_eq s (codes "3")
    then messenger
    else if text_eq s (codes "\"facebook-tor\"") || text_eq s (codes "4")
    then facebook_tor
    else if text_eq s (codes "\"messenger-lite\"") || text_eq s (codes "5")
    then messenger_lite
    else unset

unfoldable pub to_text : Platform → List ℕ
to_text instagram = codes "instagram"
to_text facebook = codes "facebook"
to_text messenger = codes "messenger"
to_text facebook_tor = codes "facebook-tor"
to_text messenger_lite = codes "messenger-lite"
to_text unset = []

unfoldable pub marshal_json : Platform → List ℕ
marshal_json p = codes "\"" ++ (to_text p ++ codes "\"")

-- `p == q` on the values.
abbrev pub same : Platform → Platform → Bool
unfolding code_of
same p q = code_of p == code_of q

unfoldable pub is_via_facebook : Platform → Bool
is_via_facebook p = same p facebook || same p facebook_tor

unfoldable pub is_via_messenger : Platform → Bool
is_via_messenger p = same p messenger || same p messenger_lite

unfoldable pub is_messenger : Platform → Bool
is_messenger p = same p facebook || same p facebook_tor || same p messenger || same p messenger_lite

unfoldable pub is_instagram : Platform → Bool
is_instagram p = same p instagram

unfoldable pub is_valid : Platform → Bool
is_valid p =
    same p instagram
    || same p facebook
    || same p facebook_tor
    || same p messenger
    || same p messenger_lite
