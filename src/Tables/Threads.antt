-- ===== src/Tables/Threads.antt =====
-- pkg/messagix/table/threads.go: the rows of threads, to LSUpdateTypingIndicator.
use meta_matrix_bridge.Prelude.{[], ◌∷◌}
use meta_matrix_bridge.Lightspeed.{Schema, int64_kind, string_kind, bool_kind, interface_kind}
use meta_matrix_bridge.Tables.{column, chosen_column, recorded, unrecorded}

abbrev pub ls_truncate_metadata_threads : Schema
ls_truncate_metadata_threads = unrecorded "LSTruncateMetadataThreads" []

abbrev pub ls_upsert_inbox_threads_range : Schema
ls_upsert_inbox_threads_range = recorded "LSUpsertInboxThreadsRange" (
    column "SyncGroup" int64_kind 0
    ∷ column "MinLastActivityTimestampMs" int64_kind 1
    ∷ column "HasMoreBefore" bool_kind 2
    ∷ column "IsLoadingBefore" bool_kind 3
    ∷ column "MinThreadKey" int64_kind 4
    ∷ [])

abbrev pub ls_update_threads_ranges_v2 : Schema
ls_update_threads_ranges_v2 = recorded "LSUpdateThreadsRangesV2" (
    column "FolderName" string_kind 0
    ∷ column "ParentThreadKey" int64_kind 1
    ∷ column "MinLastActivityTimestampMs" int64_kind 2
    ∷ column "MinThreadKey" int64_kind 3
    ∷ column "IsLoadingBefore" int64_kind 4
    ∷ [])

abbrev pub ls_delete_then_insert_thread : Schema
ls_delete_then_insert_thread = recorded "LSDeleteThenInsertThread" (
    column "LastActivityTimestampMs" int64_kind 0
    ∷ column "LastReadWatermarkTimestampMs" int64_kind 1
    ∷ column "Snippet" string_kind 2
    ∷ column "ThreadName" string_kind 3
    ∷ column "ThreadPictureUrl" string_kind 4
    ∷ column "NeedsAdminApprovalForNewParticipant" bool_kind 5
    ∷ column "AuthorityLevel" int64_kind 6
    ∷ column "ThreadKey" int64_kind 7
    ∷ column "MailboxType" int64_kind 8
    ∷ column "ThreadType" int64_kind 9
    ∷ column "FolderName" string_kind 10
    ∷ column "ThreadPictureUrlFallback" string_kind 11
    ∷ column "ThreadPictureUrlExpirationTimestampMs" int64_kind 12
    ∷ column "RemoveWatermarkTimestampMs" int64_kind 13
    ∷ column "MuteExpireTimeMs" int64_kind 14
    ∷ column "MuteCallsExpireTimeMs" int64_kind 15
    ∷ column "GroupNotificationSettings" int64_kind 16
    ∷ column "IsAdminSnippet" bool_kind 17
    ∷ column "SnippetSenderContactId" int64_kind 18
    ∷ column "SnippetStringHash" int64_kind 21
    ∷ column "SnippetStringArgument1" int64_kind 22
    ∷ column "SnippetAttribution" int64_kind 23
    ∷ column "SnippetAttributionStringHash" int64_kind 24
    ∷ column "DisappearingSettingTtl" int64_kind 25
    ∷ column "DisappearingSettingUpdatedTs" int64_kind 26
    ∷ column "DisappearingSettingUpdatedBy" int64_kind 27
    ∷ column "OngoingCallState" int64_kind 29
    ∷ column "CannotReplyReason" int64_kind 30
    ∷ column "CustomEmoji" string_kind 31
    ∷ column "CustomEmojiImageUrl" string_kind 32
    ∷ column "OutgoingBubbleColor" int64_kind 33
    ∷ column "ThemeFbid" int64_kind 34
    ∷ column "ParentThreadKey" int64_kind 35
    ∷ column "NullstateDescriptionText1" string_kind 36
    ∷ column "NullstateDescriptionType1" int64_kind 37
    ∷ column "NullstateDescriptionText2" string_kind 38
    ∷ column "NullstateDescriptionType2" int64_kind 39
    ∷ column "NullstateDescriptionText3" string_kind 40
    ∷ column "NullstateDescriptionType3" int64_kind 41
    ∷ column "SnippetHasEmoji" bool_kind 42
    ∷ column "HasPersistentMenu" bool_kind 43
    ∷ column "DisableComposerInput" bool_kind 44
    ∷ column "CannotUnsendReason" int64_kind 45
    ∷ column "ViewedPluginKey" int64_kind 46
    ∷ column "ViewedPluginContext" int64_kind 47
    ∷ column "ClientThreadKey" int64_kind 48
    ∷ column "Capabilities" int64_kind 49
    ∷ column "ShouldRoundThreadPicture" int64_kind 50
    ∷ column "ProactiveWarningDismissTime" int64_kind 51
    ∷ column "IsCustomThreadPicture" bool_kind 52
    ∷ column "OtidOfFirstMessage" int64_kind 53
    ∷ column "NormalizedSearchTerms" string_kind 54
    ∷ column "AdditionalThreadContext" string_kind 55
    ∷ column "DisappearingThreadKey" int64_kind 56
    ∷ column "IsDisappearingMode" bool_kind 57
    ∷ column "DisappearingModeInitiator" int64_kind 58
    ∷ column "UnreadDisappearingMessageCount" int64_kind 59
    ∷ column "LastMessageCtaId" int64_kind 61
    ∷ column "LastMessageCtaType" string_kind 62
    ∷ column "ConsistentThreadFbid" int64_kind 63
    ∷ column "ThreadDescription" string_kind 64
    ∷ column "UnsendLimitMs" int64_kind 65
    ∷ column "SyncGroup" int64_kind 66
    ∷ column "ThreadInvitesEnabled" int64_kind 67
    ∷ column "ThreadInviteLink" string_kind 68
    ∷ column "NumUnreadSubthreads" int64_kind 69
    ∷ column "SubthreadCount" int64_kind 70
    ∷ column "ThreadInvitesEnabledV2" int64_kind 71
    ∷ column "JoinRequestApprovalSetting" int64_kind 72
    ∷ column "PendingJoinRequestsCount" int64_kind 73
    ∷ column "EventStartTimestampMs" int64_kind 74
    ∷ column "EventEndTimestampMs" int64_kind 75
    ∷ column "TakedownState" int64_kind 76
    ∷ column "MemberCount" int64_kind 77
    ∷ column "AdmodCount" int64_kind 78
    ∷ column "SecondaryParentThreadKey" int64_kind 79
    ∷ column "IgFolder" int64_kind 80
    ∷ column "InviterId" int64_kind 81
    ∷ column "ThreadTags" int64_kind 82
    ∷ column "ReadReceiptsDisabledV2" interface_kind 83
    ∷ column "ThreadStatus" int64_kind 84
    ∷ column "ThreadSubtype" int64_kind 85
    ∷ column "PauseThreadTimestamp" int64_kind 86
    ∷ column "Metadata" interface_kind 87
    ∷ column "SyncSource" interface_kind 88
    ∷ [])

abbrev pub ls_add_participant_id_to_group_thread : Schema
ls_add_participant_id_to_group_thread = recorded "LSAddParticipantIdToGroupThread" (
    column "ThreadKey" int64_kind 0
    ∷ column "ContactId" int64_kind 1
    ∷ column "ReadWatermarkTimestampMs" int64_kind 2
    ∷ column "ReadActionTimestampMs" int64_kind 3
    ∷ column "DeliveredWatermarkTimestampMs" int64_kind 4
    ∷ column "Nickname" string_kind 5
    ∷ column "IsAdmin" bool_kind 6
    ∷ column "SubscribeSource" string_kind 7
    ∷ column "AuthorityLevel" int64_kind 9
    ∷ column "NormalizedSearchTerms" string_kind 10
    ∷ column "GroupParticipantJoinState" int64_kind 11
    ∷ column "IsModerator" bool_kind 12
    ∷ column "IsSuperAdmin" bool_kind 13
    ∷ column "ThreadRoles" int64_kind 14
    ∷ [])

abbrev pub ls_write_thread_capabilities : Schema
ls_write_thread_capabilities = recorded "LSWriteThreadCapabilities" (
    column "ThreadKey" int64_kind 0
    ∷ column "Capabilities" int64_kind 1
    ∷ column "Capabilities2" int64_kind 2
    ∷ column "Capabilities3" int64_kind 3
    ∷ [])

abbrev pub ls_update_read_receipt : Schema
ls_update_read_receipt = recorded "LSUpdateReadReceipt" (
    column "ReadWatermarkTimestampMs" int64_kind 0
    ∷ column "ThreadKey" int64_kind 1
    ∷ column "ContactId" int64_kind 2
    ∷ column "ReadActionTimestampMs" int64_kind 3
    ∷ [])

abbrev pub ls_threads_ranges_query : Schema
ls_threads_ranges_query = recorded "LSThreadsRangesQuery" (
    column "ParentThreadKey" int64_kind 0
    ∷ column "Unknown1" bool_kind 1
    ∷ column "IsAfter" bool_kind 2
    ∷ chosen_column "ReferenceThreadKey" int64_kind "IsAfter" "4,3"
    ∷ chosen_column "ReferenceActivityTimestamp" int64_kind "IsAfter" "5,6"
    ∷ column "AdditionalPagesToFetch" int64_kind 7
    ∷ column "Unknown8" bool_kind 8
    ∷ [])

abbrev pub ls_update_typing_indicator : Schema
ls_update_typing_indicator = recorded "LSUpdateTypingIndicator" (
    column "ThreadKey" int64_kind 0
    ∷ column "SenderId" int64_kind 1
    ∷ column "IsTyping" bool_kind 2
    ∷ [])
