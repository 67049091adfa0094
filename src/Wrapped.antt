-- ===== src/Wrapped.antt =====
-- pkg/messagix/table/wrappedmessage.go, and ToInsert of messages.go: the messages of the tables, each with what
-- belongs to it. A pointer to a wrapped message is an index into a heap, which is a list; a map is a
-- list with its newest entry in front.
pub mod Attach
pub mod Maps
pub mod Fields
pub mod Owned
pub mod Messages
pub mod Results
pub mod Chats
pub mod Threads
use meta_matrix_bridge.Prelude.{
  ℕ, zero, suc, ◌+◌, ◌%◌, List, [], ◌∷◌, ◌++◌, Bool, true, false, ◌&&◌, Option, none, some,
  if◌then◌else◌, leb, length, map,
}
use meta_matrix_bridge.Prelude.Assoc.{alter}
use meta_matrix_bridge.Lightspeed.{Value, undefined, i64, str, FieldInfo, Row}
use meta_matrix_bridge.Lightspeed.Rows.{zero_value}
use meta_matrix_bridge.Tables.MessageRanges.{ls_insert_message}
use meta_matrix_bridge.Tables.Registry.{lookup}
use Prim.Native.String.{String}
use text.Mathlib.Text.{◌==◌ as str_eq}

-- The fields that ToInsert copies.
unfoldable pub copied_fields : List String
copied_fields =
    "Text" ∷ "SubscriptErrorMessage" ∷ "AuthorityLevel" ∷ "ThreadKey" ∷ "TimestampMs"
    ∷ "PrimarySortKey" ∷ "SecondarySortKey" ∷ "MessageId" ∷ "OfflineThreadingId" ∷ "SenderId"
    ∷ "StickerId" ∷ "IsAdminMessage" ∷ "MessageRenderingType" ∷ "SendStatus" ∷ "SendStatusV2"
    ∷ "IsUnsent" ∷ "UnsentTimestampMs" ∷ "MentionOffsets" ∷ "MentionLengths" ∷ "MentionIds"
    ∷ "MentionTypes" ∷ "ReplySourceId" ∷ "ReplySourceType" ∷ "ReplySourceTypeV2" ∷ "ReplyStatus"
    ∷ "ReplySnippet" ∷ "ReplyMessageText" ∷ "ReplyToUserId" ∷ "ReplyMediaExpirationTimestampMs"
    ∷ "ReplyMediaUrl" ∷ "ReplyMediaUnknownTimestampS" ∷ "ReplyMediaPreviewWidth"
    ∷ "ReplyMediaPreviewHeight" ∷ "ReplyMediaUrlMimeType" ∷ "ReplyMediaUrlFallback" ∷ "ReplyCtaId"
    ∷ "ReplyCtaTitle" ∷ "ReplyAttachmentType" ∷ "ReplyAttachmentId" ∷ "ReplyAttachmentExtra"
    ∷ "ReplyType" ∷ "IsForwarded" ∷ "ForwardScore" ∷ "HasQuickReplies" ∷ "AdminMsgCtaId"
    ∷ "AdminMsgCtaTitle" ∷ "AdminMsgCtaType" ∷ "CannotUnsendReason" ∷ "TextHasLinks" ∷ "ViewFlags"
    ∷ "DisplayedContentTypes" ∷ "ViewedPluginKey" ∷ "ViewedPluginContext" ∷ "QuickReplyType"
    ∷ "HotEmojiSize" ∷ "PlatformXmdEncoded" ∷ "ReplySourceTimestampMs" ∷ "EphemeralDurationInSec"
    ∷ "MsUntilExpirationTs" ∷ "EphemeralExpirationTs" ∷ "TakedownState" ∷ "IsCollapsed"
    ∷ "SubthreadKey" ∷ "BotResponseID" ∷ "EditCount" ∷ "IsPaidPartnership" ∷ "AdminSignatureName"
    ∷ "AdminSignatureProfileURL" ∷ "AdminSignatureCreatorType" ∷ "ReplyMessageHiddenState"
    ∷ "TranslatedText" ∷ "TextDialect" ∷ "TranslatedTextDialect" ∷ "ScheduledTimestamp"
    ∷ "IsVideoQuickSend" ∷ "SubthreadParentMessageID" ∷ "IsExclusiveToSubthread" ∷ []

unfoldable pub is_copied : String → List String → Bool
is_copied name [] = false
is_copied name (n ∷ ns) = let rest = is_copied name ns in if str_eq n name then true else rest

-- `a <= b` of two int64 in their 64-bit patterns.
abbrev pub int64_le : ℕ → ℕ → Bool
int64_le a b =
    leb ((a + 9223372036854775808) % 18446744073709551616)
      ((b + 9223372036854775808) % 18446744073709551616)

abbrev pub modify {ℓ} : {A : Type ℓ} → ℕ → (A → A) → List A → List A
modify j f [] = []
modify zero f (a ∷ xs) = f a ∷ xs
modify (suc j) f (a ∷ xs) = a ∷ modify j f xs

abbrev pub put_at {ℓ} : {A : Type ℓ} → Option ℕ → (A → A) → List A → List A
put_at none f xs = xs
put_at (some j) f xs = modify j f xs

pub record WrappedXma (F : Type 0) : Type 0 where
  pub xma : Row F
  pub cta : Option (Row F)

pub record WrappedMessage (F : Type 0) : Type 0 where
  pub message : Row F
  pub is_upsert : Bool
  pub blob_attachments : List (Row F)
  pub attachments : List (Row F)
  pub xma_attachments : List (WrappedXma F)
  pub stickers : List (Row F)
  pub reactions : List (Row F)

pub record UpsertMessages (F : Type 0) : Type 0 where
  pub range : Row F
  pub messages : List ℕ
  pub mark_read : Bool

-- The heap, `messageMap` and `upsert`.
pub record Wrapping (F : Type 0) : Type 0 where
  pub heap : List (WrappedMessage F)
  pub message_map : List (String × ℕ)
  pub upsert : List (ℕ × UpsertMessages F)

module _ {F : Type 0} where
  unfoldable pub value_of : String → List (FieldInfo × Value F) → Value F
  value_of name [] = undefined
  value_of name ((f, v) ∷ row) =
      let rest = value_of name row in if str_eq f.name name then v else rest

  abbrev pub as_string : Value F → String
  as_string (str s) = s
  as_string _ = ""

  abbrev pub as_int : Value F → ℕ
  as_int (i64 n) = n
  as_int _ = 0

  unfoldable pub string_of : String → Row F → String
  string_of name row = as_string (value_of name row.fields)

  unfoldable pub int_of : String → Row F → ℕ
  int_of name row = as_int (value_of name row.fields)

  -- A field that is not copied is zero.
  unfoldable pub copy_field : F → Row F → FieldInfo → FieldInfo × Value F
  copy_field z row f = (
    f,
    if is_copied f.name copied_fields then value_of f.name row.fields else zero_value z f.kind,
  )

  unfoldable pub to_insert : F → Row F → Row F
  to_insert z row = record {
    fields = map (copy_field z row) ls_insert_message.fields;
    unrecognized = [];
  }

  abbrev pub wrapped : Bool → Row F → WrappedMessage F
  wrapped upserted row = record {
    message = row;
    is_upsert = upserted;
    blob_attachments = [];
    attachments = [];
    xma_attachments = [];
    stickers = [];
    reactions = [];
  }

  unfoldable pub wrap_ranges :
      List (Row F) → List (ℕ × UpsertMessages F) → List (ℕ × UpsertMessages F)
  wrap_ranges [] m = m
  wrap_ranges (r ∷ rs) m =
      wrap_ranges rs
        ((int_of "ThreadKey" r, record { range = r; messages = []; mark_read = false }) ∷ m)

  abbrev pub mark_read_at : ℕ → UpsertMessages F → UpsertMessages F
  mark_read_at watermark u = record u {
    mark_read = int64_le (int_of "MaxTimestampMs" u.range) watermark;
  }

  unfoldable pub mark_reads :
      List (Row F) → List (ℕ × UpsertMessages F) → List (ℕ × UpsertMessages F)
  mark_reads [] m = m
  mark_reads (r ∷ rs) m =
      mark_reads rs
        (alter (int_of "ThreadKey" r) (mark_read_at (int_of "LastReadWatermarkTimestampMs" r)) m)

  abbrev pub add_message : ℕ → UpsertMessages F → UpsertMessages F
  add_message j u = record u { messages = u.messages ++ (j ∷ []) }

  unfoldable pub wrap_upserts : F → List (Row F) → Wrapping F → Wrapping F
  wrap_upserts z [] s = s
  wrap_upserts z (r ∷ rs) s = wrap_upserts z rs (record {
    heap = s.heap ++ (wrapped true (to_insert z r) ∷ []);
    message_map = (string_of "MessageId" r, length s.heap) ∷ s.message_map;
    upsert = alter (int_of "ThreadKey" r) (add_message (length s.heap)) s.upsert;
  })

  -- The inserted messages, and their indices.
  unfoldable pub wrap_inserts : List (Row F) → Wrapping F → Wrapping F × List ℕ
  wrap_inserts [] s = (s, [])
  wrap_inserts (r ∷ rs) s =
      let rest = wrap_inserts rs (record s {
        heap = s.heap ++ (wrapped false r ∷ []);
        message_map = (string_of "MessageId" r, length s.heap) ∷ s.message_map;
      }) in
      (rest.0, length s.heap ∷ rest.1)

  -- A loop that adds each item to the message that the map has for its key.
  unfoldable pub attach :
      {A : Type 0}
      → (A → String)
      → (A → WrappedMessage F → WrappedMessage F)
      → List (String × ℕ)
      → List A
      → List (WrappedMessage F)
      → List (WrappedMessage F)
  attach key put m [] heap = heap
  attach key put m (a ∷ items) heap =
      attach key put m items (put_at (lookup (key a) m) (put a) heap)

  abbrev pub put_reaction : Row F → WrappedMessage F → WrappedMessage F
  put_reaction r w = if w.is_upsert then record w { reactions = w.reactions ++ (r ∷ []) } else w

  abbrev pub put_blob : Row F → WrappedMessage F → WrappedMessage F
  put_blob r w = record w { blob_attachments = w.blob_attachments ++ (r ∷ []) }

  abbrev pub put_attachment : Row F → WrappedMessage F → WrappedMessage F
  put_attachment r w = record w { attachments = w.attachments ++ (r ∷ []) }

  abbrev pub put_xma : WrappedXma F → WrappedMessage F → WrappedMessage F
  put_xma x w = record w { xma_attachments = w.xma_attachments ++ (x ∷ []) }

  abbrev pub put_sticker : Row F → WrappedMessage F → WrappedMessage F
  put_sticker r w = record w { stickers = w.stickers ++ (r ∷ []) }

  unfoldable pub cta_map : List (Row F) → List (String × Row F) → List (String × Row F)
  cta_map [] m = m
  cta_map (r ∷ rs) m = cta_map rs ((string_of "AttachmentFbid" r, r) ∷ m)

  abbrev pub wrap_xma : List (String × Row F) → Row F → WrappedXma F
  wrap_xma ctas r = record { xma = r; cta = lookup (string_of "AttachmentFbid" r) ctas }

  -- The reactions go to the upserted messages only, before the inserted ones are there.
  unfoldable pub wrap_reactions : (String → List (Row F)) → Wrapping F → Wrapping F
  wrap_reactions table s = record s {
    heap =
        attach (string_of "MessageId") put_reaction s.message_map (table "LSUpsertReaction") s.heap;
  }

  unfoldable pub wrap_attachments :
      (String → List (Row F))
      → List (String × ℕ)
      → List (WrappedMessage F)
      → List (WrappedMessage F)
  wrap_attachments table m heap =
      attach (string_of "MessageId") put_sticker m (table "LSInsertStickerAttachment") (
        attach (λ x. string_of "MessageId" x.xma) put_xma m
          (map (wrap_xma (cta_map (table "LSInsertAttachmentCta") []))
            (table "LSInsertXmaAttachment"))
          (attach (string_of "MessageId") put_attachment m (table "LSInsertAttachment")
            (attach (string_of "MessageId") put_blob m (table "LSInsertBlobAttachment") heap)))

  unfoldable pub wrap_chats : (String → List (Row F)) → List (ℕ × UpsertMessages F)
  wrap_chats table = mark_reads (table "LSDeleteThenInsertThread") (
      mark_reads (table "LSMarkThreadReadV2")
        (mark_reads (table "LSMarkThreadRead") (wrap_ranges (table "LSInsertNewMessageRange") [])))

  -- The messages before their attachments are added.
  unfoldable pub wrap_bare : F → (String → List (Row F)) → Wrapping F × List ℕ
  wrap_bare z table = wrap_inserts (table "LSInsertMessage") (
      wrap_reactions table (
        wrap_upserts z (table "LSUpsertMessage")
          (record { heap = []; message_map = []; upsert = wrap_chats table })))

  unfoldable pub wrap_messages : F → (String → List (Row F)) → Wrapping F × List ℕ
  wrap_messages z table =
      let bare = wrap_bare z table in
      (record bare.0 { heap = wrap_attachments table bare.0.message_map bare.0.heap }, bare.1)
