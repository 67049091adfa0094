-- ===== src/Tests/Wrapping.antt =====
-- Runs of WrapMessages of pkg/messagix/table on one upserted and one inserted message.
use meta_matrix_bridge.Prelude.{
  ℕ, ◌≡◌, refl, List, [], ◌∷◌, ◌++◌, map, true, false, some, if◌then◌else◌,
}
use meta_matrix_bridge.Prelude.Assoc.{find}
use meta_matrix_bridge.Lightspeed.{Row, str, i64, string_kind, int64_kind, FieldInfo, Value}
use meta_matrix_bridge.Tables.{column}
use meta_matrix_bridge.Tables.Registry.{lookup}
use meta_matrix_bridge.Wrapped.{
  WrappedMessage, to_insert, string_of, value_of, wrap_messages, wrap_bare, wrap_upserts,
  wrap_inserts, wrap_reactions, wrap_attachments, attach,
}
use meta_matrix_bridge.Wrapped.Attach.{map_option}
use meta_matrix_bridge.Wrapped.Owned.{belonging, with_last_cta, wrap_messages-owned}
use meta_matrix_bridge.Wrapped.Messages.{views}
use meta_matrix_bridge.Wrapped.Results.{is_lost, has_field, wrap_messages-messages}
use meta_matrix_bridge.Wrapped.Chats.{last_of, receipts, chat}
use meta_matrix_bridge.Wrapped.Threads.{places, of_thread, wrap_messages-places}
use meta_matrix_bridge.Tables.MessageRanges.{ls_insert_message}
use Prim.Native.String.{String}
use text.Mathlib.Text.{◌==◌ as str_eq}

abbrev row_of : List (FieldInfo × Value ℕ) → Row ℕ
row_of fields = record { fields = fields; unrecognized = [] }

abbrev thread_key : FieldInfo × Value ℕ
thread_key = (column "ThreadKey" int64_kind 3, i64 5)

abbrev upserted_row : Row ℕ
upserted_row = row_of (thread_key ∷ (column "MessageId" string_kind 8, str "m1") ∷ [])

abbrev inserted_row : Row ℕ
inserted_row = row_of (thread_key ∷ (column "MessageId" string_kind 8, str "m2") ∷ [])

abbrev image : Row ℕ
image = row_of ((column "MessageId" string_kind 32, str "m2") ∷ [])

abbrev range_row : Row ℕ
range_row = row_of (thread_key ∷ [])

abbrev one_image : String → List (Row ℕ)
one_image name =
    if str_eq name "LSInsertNewMessageRange"
    then range_row ∷ []
    else (if str_eq name "LSUpsertMessage"
        then upserted_row ∷ []
        else (if str_eq name "LSInsertMessage"
            then inserted_row ∷ []
            else (if str_eq name "LSInsertAttachment" then image ∷ [] else [])))

abbrev with_image : WrappedMessage ℕ
with_image = record {
  message = inserted_row;
  is_upsert = false;
  blob_attachments = [];
  attachments = image ∷ [];
  xma_attachments = [];
  stickers = [];
  reactions = [];
}

wrap_messages-owned_example :
    (with_image.blob_attachments
      ≡ belonging
          (string_of "MessageId")
          (one_image "LSUpsertMessage" ++ one_image "LSInsertMessage")
          1
          (one_image "LSInsertBlobAttachment"))
    × (with_image.attachments
        ≡ belonging
            (string_of "MessageId")
            (one_image "LSUpsertMessage" ++ one_image "LSInsertMessage")
            1
            (one_image "LSInsertAttachment"))
    × (with_image.xma_attachments
        ≡ belonging
            (λ x. string_of "MessageId" x.xma)
            (one_image "LSUpsertMessage" ++ one_image "LSInsertMessage")
            1
            (map
              (with_last_cta (one_image "LSInsertAttachmentCta"))
              (one_image "LSInsertXmaAttachment")))
    × (with_image.stickers
        ≡ belonging
            (string_of "MessageId")
            (one_image "LSUpsertMessage" ++ one_image "LSInsertMessage")
            1
            (one_image "LSInsertStickerAttachment"))
unfolding wrap_messages wrap_bare wrap_upserts wrap_inserts wrap_reactions wrap_attachments attach
    lookup string_of value_of
wrap_messages-owned_example = wrap_messages-owned 0 one_image 1 with_image refl

thread_key-kept : is_lost "ThreadKey" ≡ false
unfolding is_lost
thread_key-kept = refl

thread_key-found : has_field "ThreadKey" ls_insert_message.fields ≡ true
unfolding has_field
thread_key-found = refl

wrap_messages-messages_example :
    (views (wrap_messages 0 one_image).0.heap (wrap_messages 0 one_image).1
      ≡ map (λ r. some (r, false)) (one_image "LSInsertMessage"))
    × (map (λ w. value_of "ThreadKey" w.message.fields) (wrap_messages 0 one_image).0.heap
        ≡ map
            (λ r. value_of "ThreadKey" r.fields)
            (one_image "LSUpsertMessage" ++ one_image "LSInsertMessage"))
wrap_messages-messages_example =
    wrap_messages-messages 0 one_image "ThreadKey" thread_key-kept thread_key-found

wrap_messages-places_example :
    (find 5 (wrap_messages 0 one_image).0.upsert
      ≡ map_option
          (chat (places 5 0 (one_image "LSUpsertMessage")) (last_of 5 (receipts one_image)))
          (last_of 5 (one_image "LSInsertNewMessageRange")))
    × (views (wrap_messages 0 one_image).0.heap (places 5 0 (one_image "LSUpsertMessage"))
        ≡ map (λ r. some (to_insert 0 r, true)) (of_thread 5 (one_image "LSUpsertMessage")))
wrap_messages-places_example = wrap_messages-places 0 one_image 5
