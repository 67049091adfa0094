-- ===== src/Tables/Messages.antt =====
-- pkg/messagix/table/messages.go: the rows of messages, to LSSetMessageDisplayedContentTypes.
use meta_matrix_bridge.Prelude.{[], ◌∷◌}
use meta_matrix_bridge.Lightspeed.{Schema, int64_kind, string_kind, bool_kind, interface_kind}
use meta_matrix_bridge.Tables.{column, recorded, unrecorded}

abbrev pub ls_clear_pinned_messages : Schema
ls_clear_pinned_messages = recorded "LSClearPinnedMessages" (column "ThreadKey" int64_kind 0 ∷ [])

abbrev pub ls_upsert_message : Schema
ls_upsert_message = recorded "LSUpsertMessage" (
    column "Text" string_kind 0
    ∷ column "SubscriptErrorMessage" string_kind 1
    ∷ column "AuthorityLevel" int64_kind 2
    ∷ column "ThreadKey" int64_kind 3
    ∷ column "TimestampMs" int64_kind 5
    ∷ column "PrimarySortKey" int64_kind 6
    ∷ column "SecondarySortKey" int64_kind 7
    ∷ column "MessageId" string_kind 8
    ∷ column "OfflineThreadingId" string_kind 9
    ∷ column "SenderId" int64_kind 10
    ∷ column "StickerId" int64_kind 11
    ∷ column "IsAdminMessage" bool_kind 12
    ∷ column "MessageRenderingType" int64_kind 13
    ∷ column "SendStatus" int64_kind 15
    ∷ column "SendStatusV2" int64_kind 16
    ∷ column "IsUnsent" bool_kind 17
    ∷ column "UnsentTimestampMs" int64_kind 18
    ∷ column "MentionOffsets" string_kind 19
    ∷ column "MentionLengths" string_kind 20
    ∷ column "MentionIds" string_kind 21
    ∷ column "MentionTypes" string_kind 22
    ∷ column "ReplySourceId" string_kind 23
    ∷ column "ReplySourceType" int64_kind 24
    ∷ column "ReplySourceTypeV2" int64_kind 25
    ∷ column "ReplyStatus" int64_kind 26
    ∷ column "ReplySnippet" string_kind 27
    ∷ column "ReplyMessageText" string_kind 28
    ∷ column "ReplyToUserId" int64_kind 29
    ∷ column "ReplyMediaExpirationTimestampMs" int64_kind 30
    ∷ column "ReplyMediaUrl" string_kind 31
    ∷ column "ReplyMediaUnknownTimestampS" int64_kind 32
    ∷ column "ReplyMediaPreviewWidth" int64_kind 33
    ∷ column "ReplyMediaPreviewHeight" int64_kind 34
    ∷ column "ReplyMediaUrlMimeType" string_kind 35
    ∷ column "ReplyMediaUrlFallback" string_kind 36
    ∷ column "ReplyCtaId" int64_kind 37
    ∷ column "ReplyCtaTitle" string_kind 38
    ∷ column "ReplyAttachmentType" int64_kind 39
    ∷ column "ReplyAttachmentId" int64_kind 40
    ∷ column "ReplyAttachmentExtra" string_kind 41
    ∷ column "ReplyType" int64_kind 42
    ∷ column "IsForwarded" bool_kind 43
    ∷ column "ForwardScore" int64_kind 44
    ∷ column "HasQuickReplies" bool_kind 45
    ∷ column "AdminMsgCtaId" int64_kind 46
    ∷ column "AdminMsgCtaTitle" string_kind 47
    ∷ column "AdminMsgCtaType" string_kind 48
    ∷ column "CannotUnsendReason" int64_kind 49
    ∷ column "TextHasLinks" bool_kind 50
    ∷ column "ViewFlags" int64_kind 51
    ∷ column "DisplayedContentTypes" int64_kind 52
    ∷ column "ViewedPluginKey" int64_kind 53
    ∷ column "ViewedPluginContext" int64_kind 54
    ∷ column "QuickReplyType" int64_kind 55
    ∷ column "HotEmojiSize" int64_kind 56
    ∷ column "PlatformXmdEncoded" interface_kind 57
    ∷ column "SendAttributionXmd" interface_kind 58
    ∷ column "ReplySourceTimestampMs" int64_kind 59
    ∷ column "EphemeralDurationInSec" int64_kind 60
    ∷ column "MsUntilExpirationTs" int64_kind 61
    ∷ column "EphemeralExpirationTs" int64_kind 62
    ∷ column "TakedownState" interface_kind 63
    ∷ column "IsCollapsed" bool_kind 64
    ∷ column "SubthreadKey" int64_kind 65
    ∷ column "BotResponseID" int64_kind 66
    ∷ column "MetadataDataclass" interface_kind 67
    ∷ column "EditCount" int64_kind 68
    ∷ column "IsPaidPartnership" interface_kind 69
    ∷ column "MessageHiddenState" interface_kind 70
    ∷ column "AdminSignatureName" interface_kind 71
    ∷ column "AdminSignatureProfileURL" string_kind 72
    ∷ column "AdminSignatureCreatorType" interface_kind 73
    ∷ column "ReplyMessageHiddenState" interface_kind 74
    ∷ column "TranslatedText" string_kind 75
    ∷ column "TextDialect" interface_kind 76
    ∷ column "TranslatedTextDialect" interface_kind 77
    ∷ column "ScheduledTimestamp" int64_kind 78
    ∷ column "IsVideoQuickSend" bool_kind 79
    ∷ column "SubthreadParentMessageID" string_kind 80
    ∷ column "IsExclusiveToSubthread" bool_kind 81
    ∷ [])

abbrev pub ls_delete_message : Schema
ls_delete_message =
    unrecorded "LSDeleteMessage"
      (column "ThreadKey" int64_kind 0 ∷ column "MessageId" string_kind 1 ∷ [])

abbrev pub ls_handle_replies_on_remove : Schema
ls_handle_replies_on_remove =
    unrecorded "LSHandleRepliesOnRemove"
      (column "ThreadKey" int64_kind 0 ∷ column "MessageId" string_kind 1 ∷ [])

abbrev pub ls_refresh_last_activity_timestamp : Schema
ls_refresh_last_activity_timestamp =
    unrecorded "LSRefreshLastActivityTimestamp" (column "ThreadKey" int64_kind 0 ∷ [])

abbrev pub ls_set_pinned_message : Schema
ls_set_pinned_message = unrecorded "LSSetPinnedMessage" (
    column "ThreadKey" int64_kind 0
    ∷ column "MessageId" string_kind 1
    ∷ column "PinnedTimestampMs" int64_kind 2
    ∷ column "AuthorityLevel" int64_kind 3
    ∷ [])

abbrev pub ls_set_forward_score : Schema
ls_set_forward_score = recorded "LSSetForwardScore" (
    column "ThreadKey" int64_kind 0
    ∷ column "MessageId" string_kind 1
    ∷ column "TimestampMs" int64_kind 2
    ∷ column "ForwardScore" int64_kind 3
    ∷ [])

abbrev pub ls_set_message_displayed_content_types : Schema
ls_set_message_displayed_content_types = recorded "LSSetMessageDisplayedContentTypes" (
    column "ThreadKey" int64_kind 0
    ∷ column "MessageId" string_kind 1
    ∷ column "TimestampMs" int64_kind 2
    ∷ column "Text" string_kind 3
    ∷ column "Calc1" bool_kind 4
    ∷ column "Calc2" bool_kind 5
    ∷ [])
