-- ===== src/Tables/Reactions.antt =====
-- pkg/messagix/table/messages.go: the rows of messages, from LSUpsertReaction to LSDeleteThenInsertMessage.
use meta_matrix_bridge.Prelude.{[], ◌∷◌}
use meta_matrix_bridge.Lightspeed.{Schema, int64_kind, string_kind, bool_kind, interface_kind}
use meta_matrix_bridge.Tables.{column, recorded, unrecorded}

abbrev pub ls_upsert_reaction : Schema
ls_upsert_reaction = recorded "LSUpsertReaction" (
    column "ThreadKey" int64_kind 0
    ∷ column "TimestampMs" int64_kind 1
    ∷ column "MessageId" string_kind 2
    ∷ column "ActorId" int64_kind 3
    ∷ column "Reaction" string_kind 4
    ∷ column "AuthorityLevel" int64_kind 5
    ∷ [])

abbrev pub ls_update_or_insert_reaction_v2 : Schema
ls_update_or_insert_reaction_v2 = recorded "LSUpdateOrInsertReactionV2" (
    column "ThreadKey" int64_kind 0
    ∷ column "MessageID" string_kind 1
    ∷ column "ReactionFBID" int64_kind 2
    ∷ column "ReactionLiteral" string_kind 3
    ∷ column "Count" int64_kind 4
    ∷ column "AuthorityLevel" int64_kind 5
    ∷ column "ViewerIsReactor" bool_kind 6
    ∷ column "ViewerReactionTimestampMS" int64_kind 7
    ∷ column "LastUpdatedTimestampMS" int64_kind 8
    ∷ [])

abbrev pub ls_delete_reaction_v2 : Schema
ls_delete_reaction_v2 = recorded "LSDeleteReactionV2" (
    column "ThreadKey" int64_kind 0
    ∷ column "MessageID" string_kind 1
    ∷ column "ReactionFBID" int64_kind 2
    ∷ column "LastUpdatedTimestampMS" int64_kind 3
    ∷ [])

abbrev pub ls_delete_then_insert_reactions_v2_detail : Schema
ls_delete_then_insert_reactions_v2_detail = unrecorded "LSDeleteThenInsertReactionsV2Detail" (
    column "ThreadID" int64_kind 0
    ∷ column "MessageID" string_kind 1
    ∷ column "ReactorID" int64_kind 2
    ∷ column "ReactionFBID" int64_kind 3
    ∷ column "FullName" string_kind 4
    ∷ column "ProfilePictureURL" string_kind 5
    ∷ column "ProfilePictureFallbackURL" string_kind 6
    ∷ column "ProfilePictureURLExpirationTimestampMS" int64_kind 7
    ∷ column "TimestampMS" int64_kind 8
    ∷ column "SecondaryName" string_kind 9
    ∷ [])

abbrev pub ls_delete_reaction : Schema
ls_delete_reaction = recorded "LSDeleteReaction" (
    column "ThreadKey" int64_kind 0
    ∷ column "MessageId" string_kind 1
    ∷ column "ActorId" int64_kind 2
    ∷ [])

abbrev pub ls_handle_replies_on_unsend : Schema
ls_handle_replies_on_unsend =
    recorded "LSHandleRepliesOnUnsend"
      (column "ThreadKey" int64_kind 0 ∷ column "MessageId" string_kind 1 ∷ [])

abbrev pub ls_handle_replies_on_message_edit : Schema
ls_handle_replies_on_message_edit =
    recorded "LSHandleRepliesOnMessageEdit"
      (column "ThreadKey" int64_kind 0 ∷ column "MessageId" string_kind 1 ∷ [])

abbrev pub ls_update_for_roll_call_message_deleted : Schema
ls_update_for_roll_call_message_deleted =
    recorded "LSUpdateForRollCallMessageDeleted"
      (column "MessageId" string_kind 0 ∷ column "ContributorId" int64_kind 1 ∷ [])

abbrev pub ls_update_unsent_message_collapsed_status : Schema
ls_update_unsent_message_collapsed_status = recorded "LSUpdateUnsentMessageCollapsedStatus" (
    column "ThreadKey" int64_kind 0
    ∷ column "MessageId" string_kind 1
    ∷ column "TimestampMs" int64_kind 2
    ∷ [])

abbrev pub ls_update_or_insert_edit_message_history : Schema
ls_update_or_insert_edit_message_history = unrecorded "LSUpdateOrInsertEditMessageHistory" (
    column "OriginalMessageID" string_kind 0
    ∷ column "ThreadKey" int64_kind 1
    ∷ column "ServerAdjustedEditTimestampMS" int64_kind 2
    ∷ column "MessageContent" string_kind 3
    ∷ column "SendStatus" int64_kind 4
    ∷ [])

abbrev pub ls_delete_then_insert_message : Schema
ls_delete_then_insert_message = recorded "LSDeleteThenInsertMessage" (
    column "Text" string_kind 0
    ∷ column "SubscriptErrorMessage" string_kind 1
    ∷ column "AuthorityLevel" int64_kind 2
    ∷ column "ThreadKey" int64_kind 3
    ∷ column "TimestampMs" int64_kind 5
    ∷ column "PrimarySortKey" int64_kind 6
    ∷ column "SecondarySortKey" int64_kind 7
    ∷ column "MessageId" string_kind 8
    ∷ column "OfflineThreadingId" string_kind 9
    ∷ column "SenderId" int64_kind 10
    ∷ column "StickerId" int64_kind 11
    ∷ column "IsAdminMessage" bool_kind 12
    ∷ column "MessageRenderingType" int64_kind 13
    ∷ column "SendStatus" int64_kind 15
    ∷ column "SendStatusV2" int64_kind 16
    ∷ column "IsUnsent" bool_kind 17
    ∷ column "UnsentTimestampMs" int64_kind 18
    ∷ column "MentionOffsets" string_kind 19
    ∷ column "MentionLengths" string_kind 20
    ∷ column "MentionIds" string_kind 21
    ∷ column "MentionTypes" string_kind 22
    ∷ column "ReplySourceId" string_kind 23
    ∷ column "ReplySourceType" int64_kind 24
    ∷ column "ReplySourceTypeV2" int64_kind 25
    ∷ column "ReplyStatus" int64_kind 26
    ∷ column "ReplySnippet" string_kind 27
    ∷ column "ReplyMessageText" string_kind 28
    ∷ column "ReplyToUserId" int64_kind 29
    ∷ column "ReplyMediaExpirationTimestampMs" int64_kind 30
    ∷ column "ReplyMediaUrl" string_kind 31
    ∷ column "ReplyMediaUnknownTimestampS" int64_kind 32
    ∷ column "ReplyMediaPreviewWidth" int64_kind 33
    ∷ column "ReplyMediaPreviewHeight" int64_kind 34
    ∷ column "ReplyMediaUrlMimeType" string_kind 35
    ∷ column "ReplyMediaUrlFallback" string_kind 36
    ∷ column "ReplyCtaId" int64_kind 37
    ∷ column "ReplyCtaTitle" string_kind 38
    ∷ column "ReplyAttachmentType" int64_kind 39
    ∷ column "ReplyAttachmentId" int64_kind 40
    ∷ column "ReplyAttachmentExtra" string_kind 41
    ∷ column "IsForwarded" bool_kind 42
    ∷ column "ForwardScore" int64_kind 43
    ∷ column "HasQuickReplies" bool_kind 44
    ∷ column "AdminMsgCtaId" int64_kind 45
    ∷ column "AdminMsgCtaTitle" string_kind 46
    ∷ column "AdminMsgCtaType" string_kind 47
    ∷ column "CannotUnsendReason" int64_kind 48
    ∷ column "TextHasLinks" bool_kind 49
    ∷ column "ViewFlags" int64_kind 50
    ∷ column "DisplayedContentTypes" int64_kind 51
    ∷ column "ViewedPluginKey" int64_kind 52
    ∷ column "ViewedPluginContext" int64_kind 53
    ∷ column "QuickReplyType" int64_kind 54
    ∷ column "HotEmojiSize" int64_kind 55
    ∷ column "PlatformXmdEncoded" interface_kind 56
    ∷ column "SendAttributionXmd" interface_kind 57
    ∷ column "ReplySourceTimestampMs" int64_kind 58
    ∷ column "EphemeralDurationInSec" int64_kind 59
    ∷ column "MsUntilExpirationTs" int64_kind 60
    ∷ column "EphemeralExpirationTs" int64_kind 61
    ∷ column "TakedownState" interface_kind 62
    ∷ column "IsCollapsed" bool_kind 63
    ∷ column "SubthreadKey" int64_kind 64
    ∷ column "BotResponseID" int64_kind 65
    ∷ column "MetadataDataclass" interface_kind 66
    ∷ column "EditCount" int64_kind 67
    ∷ column "IsPaidPartnership" interface_kind 68
    ∷ column "AdminSignatureName" interface_kind 69
    ∷ column "AdminSignatureProfileURL" string_kind 70
    ∷ column "AdminSignatureCreatorType" interface_kind 71
    ∷ column "ReplyMessageHiddenState" interface_kind 72
    ∷ column "TranslatedText" string_kind 73
    ∷ column "TextDialect" interface_kind 74
    ∷ column "TranslatedTextDialect" interface_kind 75
    ∷ column "ScheduledTimestamp" int64_kind 76
    ∷ column "IsVideoQuickSend" bool_kind 77
    ∷ column "SubthreadParentMessageID" string_kind 78
    ∷ column "IsExclusiveToSubthread" bool_kind 79
    ∷ [])
