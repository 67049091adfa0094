-- ===== src/MetaId/Message.antt =====
-- pkg/metaid/ids.go: the identifiers of messages. A JID of whatsmeow enters as the parameter `w`:
-- its text, the text without its agent and device, and the parser of such texts.
pub mod RoundTrip
use meta_matrix_bridge.Prelude.{
  ℕ, zero, suc, ◌+◌, List, [], ◌∷◌, ◌++◌, Bool, true, false, ◌&&◌, Option, none, some,
  if◌then◌else◌, ◌==◌,
}
use meta_matrix_bridge.Prelude.Text.{codes}

pub record JidText (Jid : Type 0) : Type 0 where
  pub show : Jid → List ℕ
  pub to_non_ad : Jid → Jid
  pub parse : List ℕ → Option Jid

pub data ParsedMessageId (Jid : Type 0) : Type 0 where
  fb_message : (id : List ℕ) → ParsedMessageId Jid
  wa_message : (chat : Jid) (sender : Jid) (id : List ℕ) → ParsedMessageId Jid

abbrev pub prefix_fb : List ℕ
prefix_fb = codes "fb"

abbrev pub prefix_wa : List ℕ
prefix_wa = codes "wa"

abbrev pub colon : ℕ
colon = b':'

-- strings.SplitN: at most `n` parts, the last of which holds the rest.
abbrev onto_first : ℕ → List (List ℕ) → List (List ℕ)
onto_first c [] = (c ∷ []) ∷ []
onto_first c (p ∷ ps) = (c ∷ p) ∷ ps

unfoldable pub split_n : ℕ → List ℕ → ℕ → List (List ℕ)
split_n zero s sep = []
split_n (suc zero) s sep = s ∷ []
split_n (suc (suc n)) [] sep = [] ∷ []
split_n (suc (suc n)) (c ∷ s) sep =
    let next = split_n (suc n) s sep in
    let same = split_n (suc (suc n)) s sep in if c == sep then [] ∷ next else onto_first c same

unfoldable pub bytes_eq : List ℕ → List ℕ → Bool
bytes_eq [] [] = true
bytes_eq (a ∷ s) (b ∷ t) = (a == b) && bytes_eq s t
bytes_eq _ _ = false

module _ {Jid : Type 0} (w : JidText Jid) where
  -- `String()` of the two parsed forms, and MakeWAMessageID, MakeFBMessageID, MakeMessageID.
  unfoldable pub make_message_id : ParsedMessageId Jid → List ℕ
  make_message_id (fb_message id) = prefix_fb ++ (colon ∷ id)
  make_message_id (wa_message chat sender id) =
      prefix_wa
      ++ (colon ∷ (w.show chat ++ (colon ∷ (w.show (w.to_non_ad sender) ++ (colon ∷ id)))))

  parse_jids : Option Jid → Option Jid → List ℕ → Option (ParsedMessageId Jid)
  parse_jids (some chat) (some sender) id = some (wa_message chat sender id)
  parse_jids _ _ id = none

  -- The two tests on the number of parts and on the prefix.
  from_parts : List (List ℕ) → Option (ParsedMessageId Jid)
  unfolding parse_jids bytes_eq
  from_parts (p ∷ id ∷ []) = if bytes_eq p prefix_fb then some (fb_message id) else none
  from_parts (p ∷ chat ∷ sender ∷ id ∷ []) =
      if bytes_eq p prefix_wa then parse_jids (w.parse chat) (w.parse sender) id else none
  from_parts _ = none

  -- ParseMessageID: `none` is nil.
  unfoldable pub parse_message_id : List ℕ → Option (ParsedMessageId Jid)
  unfolding from_parts
  parse_message_id message_id = from_parts (split_n 4 message_id colon)
