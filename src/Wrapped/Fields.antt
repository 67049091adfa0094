-- ===== src/Wrapped/Fields.antt =====
-- WrapMessages of wrappedmessage.go: what each wrapped message has at the end.
use meta_matrix_bridge.Prelude.{
  ℕ, zero, suc, ◌≡◌, refl, ap, sym, ◌∙◌, List, [], ◌∷◌, ◌++◌, append-nil, append_assoc, map, true,
  false, Option, none, some, inl, inr, Bool-cases, Option-cases, arith, All, All-append, get_elem?,
}
use meta_matrix_bridge.Lightspeed.{Row}
use meta_matrix_bridge.Wrapped.{
  WrappedMessage, WrappedXma, Wrapping, wrapped, to_insert, string_of, wrap_upserts, wrap_reactions,
  wrap_inserts, wrap_bare, wrap_attachments, wrap_messages, attach, put_reaction, put_blob,
  put_attachment, put_xma, put_sticker, cta_map, wrap_xma,
}
use meta_matrix_bridge.Wrapped.Attach.{owned, put_all, attach-some, attach-none, attach-All}
use Prim.Native.String.{String}

added_to_nil : {A : Type 0} {xs ys zs : List A} → zs ≡ xs ++ ys → xs ≡ [] → zs ≡ ys
added_to_nil {A} {xs} {ys} {zs} e nothing = e ∙ ap (λ l. l ++ ys) nothing

module _ {F : Type 0} where
  put_all-blobs :
      (items : List (Row F)) (w : WrappedMessage F)
      → put_all put_blob items w ≡ record w { blob_attachments = w.blob_attachments ++ items }
  unfolding put_all
  put_all-blobs [] w =
      ap (λ xs. record w { blob_attachments = xs }) (sym (append-nil w.blob_attachments))
  put_all-blobs (r ∷ rs) w =
      put_all-blobs rs (put_blob r w)
      ∙ ap (λ xs. record w { blob_attachments = xs }) (append_assoc w.blob_attachments (r ∷ []) rs)

  put_all-attachments :
      (items : List (Row F)) (w : WrappedMessage F)
      → put_all put_attachment items w ≡ record w { attachments = w.attachments ++ items }
  unfolding put_all
  put_all-attachments [] w =
      ap (λ xs. record w { attachments = xs }) (sym (append-nil w.attachments))
  put_all-attachments (r ∷ rs) w =
      put_all-attachments rs (put_attachment r w)
      ∙ ap (λ xs. record w { attachments = xs }) (append_assoc w.attachments (r ∷ []) rs)

  put_all-xmas :
      (items : List (WrappedXma F)) (w : WrappedMessage F)
      → put_all put_xma items w ≡ record w { xma_attachments = w.xma_attachments ++ items }
  unfolding put_all
  put_all-xmas [] w =
      ap (λ xs. record w { xma_attachments = xs }) (sym (append-nil w.xma_attachments))
  put_all-xmas (r ∷ rs) w =
      put_all-xmas rs (put_xma r w)
      ∙ ap (λ xs. record w { xma_attachments = xs }) (append_assoc w.xma_attachments (r ∷ []) rs)

  put_all-stickers :
      (items : List (Row F)) (w : WrappedMessage F)
      → put_all put_sticker items w ≡ record w { stickers = w.stickers ++ items }
  unfolding put_all
  put_all-stickers [] w = ap (λ xs. record w { stickers = xs }) (sym (append-nil w.stickers))
  put_all-stickers (r ∷ rs) w =
      put_all-stickers rs (put_sticker r w)
      ∙ ap (λ xs. record w { stickers = xs }) (append_assoc w.stickers (r ∷ []) rs)

  -- The message with everything that belongs to it.
  abbrev pub completed :
      (String → List (Row F)) → List (String × ℕ) → ℕ → WrappedMessage F → WrappedMessage F
  completed table m j w = record w {
    blob_attachments =
        w.blob_attachments ++ owned (string_of "MessageId") m j (table "LSInsertBlobAttachment");
    attachments = w.attachments ++ owned (string_of "MessageId") m j (table "LSInsertAttachment");
    xma_attachments =
        w.xma_attachments
        ++ owned (λ x. string_of "MessageId" x.xma) m j
            (map (wrap_xma (cta_map (table "LSInsertAttachmentCta") []))
              (table "LSInsertXmaAttachment"));
    stickers = w.stickers ++ owned (string_of "MessageId") m j (table "LSInsertStickerAttachment");
  }

  wrap_attachments-completed :
      (table : String → List (Row F)) (m : List (String × ℕ)) (j : ℕ)
      (heap : List (WrappedMessage F)) (w : WrappedMessage F)
      → get_elem? heap j ≡ some w
      → get_elem? (wrap_attachments table m heap) j ≡ some (completed table m j w)
  unfolding wrap_attachments
  wrap_attachments-completed table m j heap w h = step _ _ _ _ _ _ put_all-stickers (
      step _ _ _ _ _ _ put_all-xmas
        (step _ _ _ _ _ _ put_all-attachments (step _ _ _ _ heap w put_all-blobs h)))
    where
      step :
          {A : Type 0} (key : A → String) (put : A → WrappedMessage F → WrappedMessage F)
          (after : List A → WrappedMessage F → WrappedMessage F) (items : List A)
          (before : List (WrappedMessage F)) (u : WrappedMessage F)
          → ((items : List A) (w : WrappedMessage F) → put_all put items w ≡ after items w)
          → get_elem? before j ≡ some u
          → get_elem? (attach key put m items before) j ≡ some (after (owned key m j items) u)
      step key put after items before u same at_j =
          attach-some key put m j items before u at_j ∙ ap some (same (owned key m j items) u)

  wrap_attachments-none :
      (table : String → List (Row F)) (m : List (String × ℕ)) (j : ℕ)
      (heap : List (WrappedMessage F))
      → get_elem? heap j ≡ none
      → get_elem? (wrap_attachments table m heap) j ≡ none
  unfolding wrap_attachments
  wrap_attachments-none table m j heap h =
      attach-none _ _ m j _ _
        (attach-none _ _ m j _ _ (attach-none _ _ m j _ _ (attach-none _ _ m j _ heap h)))

  -- A message to which nothing is attached yet.
  IsBare : WrappedMessage F → Type 0
  IsBare w =
      (w.blob_attachments ≡ [])
      × (w.attachments ≡ [])
      × (w.xma_attachments ≡ [])
      × (w.stickers ≡ [])

  IsBare-put_reaction : (r : Row F) (w : WrappedMessage F) → IsBare w → IsBare (put_reaction r w)
  unfolding IsBare
  IsBare-put_reaction r w bare = elim (Bool-cases w.is_upsert) [
    | inl upserted ↦ rw upserted bare
    | inr inserted ↦ rw inserted bare
  ]

  wrap_upserts-IsBare :
      (z : F) (rs : List (Row F)) (s : Wrapping F)
      → All IsBare s.heap
      → All IsBare (wrap_upserts z rs s).heap
  unfolding wrap_upserts IsBare
  wrap_upserts-IsBare z [] s h = h
  wrap_upserts-IsBare z (r ∷ rs) s h = wrap_upserts-IsBare z rs _ (
      All-append IsBare s.heap (wrapped true (to_insert z r) ∷ []) h ((refl, refl, refl, refl), tt))

  wrap_inserts-IsBare :
      (rs : List (Row F)) (s : Wrapping F)
      → All IsBare s.heap
      → All IsBare (wrap_inserts rs s).0.heap
  unfolding wrap_inserts IsBare
  wrap_inserts-IsBare [] s h = h
  wrap_inserts-IsBare (r ∷ rs) s h =
      wrap_inserts-IsBare rs _
        (All-append IsBare s.heap (wrapped false r ∷ []) h ((refl, refl, refl, refl), tt))

  wrap_bare-IsBare : (z : F) (table : String → List (Row F)) → All IsBare (wrap_bare z table).0.heap
  unfolding wrap_bare wrap_reactions
  wrap_bare-IsBare z table = wrap_inserts-IsBare (table "LSInsertMessage") _ (
      attach-All IsBare (string_of "MessageId") put_reaction _ (table "LSUpsertReaction") _
        IsBare-put_reaction (wrap_upserts-IsBare z (table "LSUpsertMessage") _ tt))

  value_or : WrappedMessage F → Option (WrappedMessage F) → WrappedMessage F
  value_or w none = w
  value_or w (some u) = u

  some_injective : (u w : WrappedMessage F) → some u ≡ some w → u ≡ w
  unfolding value_or
  some_injective u w e = ap (value_or u) e

  no_value : (w : WrappedMessage F) → none ≡ some w → ⊥
  no_value w e = ground arith

  All-get_elem? :
      (P : WrappedMessage F → Type 0) (heap : List (WrappedMessage F)) (j : ℕ)
      (w : WrappedMessage F)
      → All P heap
      → get_elem? heap j ≡ some w
      → P w
  All-get_elem? P [] j w h e = ground arith
  All-get_elem? P (x ∷ heap) zero w (p, h) e =
      let same : x ≡ w = some_injective x w e in rw (sym same) p
  All-get_elem? P (x ∷ heap) (suc j) w (p, h) e = All-get_elem? P heap j w h e

  -- The items of a message, by what `messageMap` and the map of calls to action hold.
  pub wrap_messages-completed :
      (z : F) (table : String → List (Row F)) (j : ℕ) (w : WrappedMessage F)
      → get_elem? (wrap_messages z table).0.heap j ≡ some w
      → (w.blob_attachments
          ≡ owned
              (string_of "MessageId")
              (wrap_bare z table).0.message_map
              j
              (table "LSInsertBlobAttachment"))
        × (w.attachments
            ≡ owned
                (string_of "MessageId")
                (wrap_bare z table).0.message_map
                j
                (table "LSInsertAttachment"))
        × (w.xma_attachments
            ≡ owned
                (λ x. string_of "MessageId" x.xma)
                (wrap_bare z table).0.message_map
                j
                (map
                  (wrap_xma (cta_map (table "LSInsertAttachmentCta") []))
                  (table "LSInsertXmaAttachment")))
        × (w.stickers
            ≡ owned
                (string_of "MessageId")
                (wrap_bare z table).0.message_map
                j
                (table "LSInsertStickerAttachment"))
  unfolding wrap_messages IsBare
  wrap_messages-completed z table j w h =
      elim (Option-cases (get_elem? (wrap_bare z table).0.heap j)) [
        | inl out ↦
            elim (no_value w (
              sym (
                wrap_attachments-none table (wrap_bare z table).0.message_map j
                  (wrap_bare z table).0.heap out)
              ∙ h)) [ ]
        | inr (u, at_j) ↦
            let bare : IsBare u =
              All-get_elem? IsBare (wrap_bare z table).0.heap j u (wrap_bare-IsBare z table) at_j in
            let same : completed table (wrap_bare z table).0.message_map j u ≡ w =
              some_injective _ w (
                sym (
                  wrap_attachments-completed table (wrap_bare z table).0.message_map j
                    (wrap_bare z table).0.heap u at_j)
                ∙ h) in
            (
              added_to_nil (ap (λ x. x.blob_attachments) (sym same)) bare.0,
              added_to_nil (ap (λ x. x.attachments) (sym same)) bare.1,
              added_to_nil (ap (λ x. x.xma_attachments) (sym same)) bare.2,
              added_to_nil (ap (λ x. x.stickers) (sym same)) bare.3,
            )
      ]
