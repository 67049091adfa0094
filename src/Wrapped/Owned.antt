-- ===== src/Wrapped/Owned.antt =====
-- WrapMessages of wrappedmessage.go: which attachments, blobs, XMA attachments and stickers a message gets.
use meta_matrix_bridge.Prelude.{
  ℕ, ◌≡◌, refl, ap, ◌∙◌, List, [], ◌∷◌, ◌++◌, map, some, get_elem?, if◌then◌else◌,
}
use meta_matrix_bridge.Lightspeed.{Row}
use meta_matrix_bridge.Tables.Registry.{lookup}
use meta_matrix_bridge.Wrapped.{
  WrappedMessage, WrappedXma, string_of, wrap_bare, wrap_messages, cta_map, wrap_xma,
}
use meta_matrix_bridge.Wrapped.Attach.{is_at, owned}
use meta_matrix_bridge.Wrapped.Fields.{wrap_messages-completed}
use meta_matrix_bridge.Wrapped.Maps.{
  last_row, last_place, or_else-none, cta_map-last_row, wrap_bare-lookup,
}
use meta_matrix_bridge.Wrapped.Messages.{map-same}
use Prim.Native.String.{String}

-- The items of which the message at an index is the last with their message identifier, in their order.
unfoldable pub belonging : {A F : Type 0} → (A → String) → List (Row F) → ℕ → List A → List A
belonging id_of messages j [] = []
belonging id_of messages j (a ∷ items) =
    let rest = belonging id_of messages j items in
    if is_at (last_place (id_of a) 0 messages) j then a ∷ rest else rest

-- An XMA attachment with the last call to action for its identifier.
abbrev pub with_last_cta : {F : Type 0} → List (Row F) → Row F → WrappedXma F
with_last_cta ctas r = record {
  xma = r;
  cta = last_row "AttachmentFbid" (string_of "AttachmentFbid" r) ctas;
}

module _ {F : Type 0} where
  owned-belonging :
      {A : Type 0} (id_of : A → String) (m : List (String × ℕ)) (messages : List (Row F)) (j : ℕ)
      (items : List A)
      → ((id : String) → lookup id m ≡ last_place id 0 messages)
      → owned id_of m j items ≡ belonging id_of messages j items
  unfolding owned belonging
  owned-belonging id_of m messages j [] same = refl
  owned-belonging id_of m messages j (a ∷ items) same =
      rw (same (id_of a), owned-belonging id_of m messages j items same) refl

  wrap_xma-last_cta :
      (ctas rs : List (Row F)) → map (wrap_xma (cta_map ctas [])) rs ≡ map (with_last_cta ctas) rs
  unfolding lookup
  wrap_xma-last_cta ctas rs = map-same _ _ rs (λ r.
      ap (λ o. record { xma = r; cta = o })
        (cta_map-last_row (string_of "AttachmentFbid" r) ctas []
          ∙ or_else-none (last_row "AttachmentFbid" (string_of "AttachmentFbid" r) ctas)))

  -- Each wrapped message has exactly the blobs, attachments, XMA attachments and stickers for whose message
  -- identifier it is the last message, the upserted messages counted before the inserted ones, all in the
  -- order of their tables; each XMA attachment has the last call to action with its AttachmentFbid, if there
  -- is one.
  pub wrap_messages-owned :
      (z : F) (table : String → List (Row F)) (j : ℕ) (w : WrappedMessage F)
      → get_elem? (wrap_messages z table).0.heap j ≡ some w
      → (w.blob_attachments
          ≡ belonging
              (string_of "MessageId")
              (table "LSUpsertMessage" ++ table "LSInsertMessage")
              j
              (table "LSInsertBlobAttachment"))
        × (w.attachments
            ≡ belonging
                (string_of "MessageId")
                (table "LSUpsertMessage" ++ table "LSInsertMessage")
                j
                (table "LSInsertAttachment"))
        × (w.xma_attachments
            ≡ belonging
                (λ x. string_of "MessageId" x.xma)
                (table "LSUpsertMessage" ++ table "LSInsertMessage")
                j
                (map
                  (with_last_cta (table "LSInsertAttachmentCta"))
                  (table "LSInsertXmaAttachment")))
        × (w.stickers
            ≡ belonging
                (string_of "MessageId")
                (table "LSUpsertMessage" ++ table "LSInsertMessage")
                j
                (table "LSInsertStickerAttachment"))
  wrap_messages-owned z table j w h =
      let (blobs, attached, xmas, stuck_on) = wrap_messages-completed z table j w h in
      (
        blobs ∙ by_place (string_of "MessageId") (table "LSInsertBlobAttachment"),
        attached ∙ by_place (string_of "MessageId") (table "LSInsertAttachment"),
        xmas
            ∙ by_place (λ x. string_of "MessageId" x.xma)
                (map (wrap_xma (cta_map (table "LSInsertAttachmentCta") []))
                  (table "LSInsertXmaAttachment"))
            ∙ ap
                (belonging (λ x. string_of "MessageId" x.xma)
                  (table "LSUpsertMessage" ++ table "LSInsertMessage") j)
                (wrap_xma-last_cta (table "LSInsertAttachmentCta") (table "LSInsertXmaAttachment")),
        stuck_on ∙ by_place (string_of "MessageId") (table "LSInsertStickerAttachment"),
      )
    where
      by_place :
          {A : Type 0} (id_of : A → String) (items : List A)
          → owned id_of (wrap_bare z table).0.message_map j items
            ≡ belonging id_of (table "LSUpsertMessage" ++ table "LSInsertMessage") j items
      by_place id_of items =
          owned-belonging id_of (wrap_bare z table).0.message_map
            (table "LSUpsertMessage" ++ table "LSInsertMessage") j items (wrap_bare-lookup z table)
