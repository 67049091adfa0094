-- ===== src/MetaId/Message/RoundTrip.antt =====
-- pkg/metaid/ids.go: ParseMessageID on the identifiers that the bridge makes.
use meta_matrix_bridge.Prelude.{ℕ, suc, ◌≡◌, ◌≢◌, refl, List, [], ◌∷◌, ◌++◌, All, some, arith}
use meta_matrix_bridge.MetaId.Message.{
  JidText, fb_message, wa_message, colon, split_n, make_message_id, from_parts, parse_jids,
  parse_message_id,
}

abbrev pub NoColon : List ℕ → Type 0
NoColon s = All (λ c. c ≢ colon) s

-- A part without a separator is cut off whole.
split_part :
    (n : ℕ) (s rest : List ℕ)
    → NoColon s
    → split_n (suc (suc n)) (s ++ (colon ∷ rest)) colon ≡ s ∷ split_n (suc n) rest colon
unfolding split_n
split_part n [] rest h = refl
split_part n (c ∷ s) rest h = ground (arith, h.0, split_part n s rest h.1)

split_last : (n : ℕ) (s : List ℕ) → NoColon s → split_n (suc (suc n)) s colon ≡ s ∷ []
unfolding split_n
split_last n [] h = refl
split_last n (c ∷ s) h = ground (arith, h.0, split_last n s h.1)

module _ {Jid : Type 0} (w : JidText Jid) where
  -- What the bridge relies on of a JID: its text has no colon and is read back.
  abbrev pub ShowsPlainly : Jid → Type 0
  ShowsPlainly jid = NoColon (w.show jid) × (w.parse (w.show jid) ≡ some jid)

  -- A Facebook message identifier without a colon is read back.
  pub parse-make_fb :
      (id : List ℕ)
      → NoColon id
      → parse_message_id w (make_message_id w (fb_message id)) ≡ some (fb_message id)
  unfolding parse_message_id make_message_id split_n from_parts parse_jids
  parse-make_fb id h = rw (split_last 1 id h)

  -- A WhatsApp message identifier is read back with the sender's agent and device left out, if the
  -- texts of the two JIDs have no colon and are read back; the message's own identifier may hold
  -- any bytes.
  pub parse-make_wa :
      (chat sender : Jid) (id : List ℕ)
      → ShowsPlainly chat
      → ShowsPlainly (w.to_non_ad sender)
      → parse_message_id w (make_message_id w (wa_message chat sender id))
        ≡ some (wa_message chat (w.to_non_ad sender) id)
  unfolding parse_message_id make_message_id split_n from_parts parse_jids
  parse-make_wa chat sender id hc hs =
      rw (split_part 1 (w.show chat) (w.show (w.to_non_ad sender) ++ (colon ∷ id)) hc.0)
        (rw (split_part 0 (w.show (w.to_non_ad sender)) id hs.0) (rw (hc.1, hs.1)))
