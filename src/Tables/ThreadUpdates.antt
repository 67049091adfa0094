-- ===== src/Tables/ThreadUpdates.antt =====
-- pkg/messagix/table/threads.go: the rows of threads, from LSRemoveAllParticipantsForThread to LSUpdateOrInsertThread.
use meta_matrix_bridge.Prelude.{[], ◌∷◌}
use meta_matrix_bridge.Lightspeed.{Schema, int64_kind, string_kind, bool_kind}
use meta_matrix_bridge.Tables.{column, recorded}

abbrev pub ls_remove_all_participants_for_thread : Schema
ls_remove_all_participants_for_thread =
    recorded "LSRemoveAllParticipantsForThread" (column "ThreadKey" int64_kind 0 ∷ [])

abbrev pub ls_update_thread_invite_links_info : Schema
ls_update_thread_invite_links_info = recorded "LSUpdateThreadInviteLinksInfo" (
    column "ThreadKey" int64_kind 0
    ∷ column "ThreadInvitesEnabled" int64_kind 1
    ∷ column "ThreadInviteLink" string_kind 2
    ∷ [])

abbrev pub ls_update_thread_participant_admin_status : Schema
ls_update_thread_participant_admin_status = recorded "LSUpdateThreadParticipantAdminStatus" (
    column "ThreadKey" int64_kind 0
    ∷ column "ContactId" int64_kind 1
    ∷ column "IsAdmin" bool_kind 2
    ∷ [])

abbrev pub ls_update_participant_subscribe_source_text : Schema
ls_update_participant_subscribe_source_text = recorded "LSUpdateParticipantSubscribeSourceText" (
    column "ThreadKey" int64_kind 0
    ∷ column "ContactId" int64_kind 1
    ∷ column "SubscribeSource" string_kind 2
    ∷ [])

abbrev pub ls_overwrite_all_thread_participants_admin_status : Schema
ls_overwrite_all_thread_participants_admin_status =
    recorded "LSOverwriteAllThreadParticipantsAdminStatus"
      (column "ThreadKey" int64_kind 0 ∷ column "IsAdmin" bool_kind 1 ∷ [])

abbrev pub ls_update_participant_capabilities : Schema
ls_update_participant_capabilities =
    recorded "LSUpdateParticipantCapabilities"
      (column "ContactId" int64_kind 0 ∷ column "ThreadKey" int64_kind 1 ∷ [])

abbrev pub ls_change_viewer_status : Schema
ls_change_viewer_status =
    recorded "LSChangeViewerStatus"
      (column "ThreadKey" int64_kind 0 ∷ column "CannotReplyReason" string_kind 1 ∷ [])

abbrev pub ls_sync_update_thread_name : Schema
ls_sync_update_thread_name = recorded "LSSyncUpdateThreadName" (
    column "ThreadName" string_kind 0
    ∷ column "ThreadKey" int64_kind 1
    ∷ column "ThreadName1" string_kind 2
    ∷ [])

abbrev pub ls_set_thread_image_url : Schema
ls_set_thread_image_url = recorded "LSSetThreadImageURL" (
    column "ThreadKey" int64_kind 0
    ∷ column "ImageURL" string_kind 1
    ∷ column "ImageFallbackURL" string_kind 2
    ∷ column "ImageURLExpiryTimeMS" int64_kind 3
    ∷ column "IsCustomThreadPicture" bool_kind 4
    ∷ column "ShouldRoundThreadPicture" bool_kind 5
    ∷ [])

abbrev pub ls_write_cta_id_to_threads_table : Schema
ls_write_cta_id_to_threads_table = recorded "LSWriteCTAIdToThreadsTable" (
    column "ThreadKey" int64_kind 0
    ∷ column "LastMessageCtaType" string_kind 1
    ∷ column "LastMessageCtaTimestampMs" int64_kind 2
    ∷ [])

abbrev pub ls_query_additional_group_threads : Schema
ls_query_additional_group_threads = recorded "LSQueryAdditionalGroupThreads" (
    column "NumThreads" int64_kind 0
    ∷ column "NumMessages" int64_kind 1
    ∷ column "AdditionalPagesToFetch" int64_kind 2
    ∷ [])

abbrev pub ls_delete_then_insert_ig_thread_info : Schema
ls_delete_then_insert_ig_thread_info =
    recorded "LSDeleteThenInsertIgThreadInfo"
      (column "ThreadKey" int64_kind 0 ∷ column "IgThreadId" string_kind 1 ∷ [])

abbrev pub ls_mark_thread_read : Schema
ls_mark_thread_read =
    recorded "LSMarkThreadRead"
      (column "LastReadWatermarkTimestampMs" int64_kind 0 ∷ column "ThreadKey" int64_kind 1 ∷ [])

abbrev pub ls_mark_thread_read_v2 : Schema
ls_mark_thread_read_v2 =
    recorded "LSMarkThreadReadV2"
      (column "ThreadKey" int64_kind 0 ∷ column "LastReadWatermarkTimestampMs" int64_kind 1 ∷ [])

abbrev pub ls_update_parent_folder_read_watermark : Schema
ls_update_parent_folder_read_watermark =
    recorded "LSUpdateParentFolderReadWatermark" (column "ThreadKey" int64_kind 0 ∷ [])

abbrev pub ls_update_or_insert_thread : Schema
ls_update_or_insert_thread = recorded "LSUpdateOrInsertThread" (
    column "LastActivityTimestampMs" int64_kind 0
    ∷ column "LastReadWatermarkTimestampMs" int64_kind 1
    ∷ column "Snippet" string_kind 2
    ∷ column "ThreadName" string_kind 3
    ∷ column "ThreadPictureUrl" string_kind 4
    ∷ column "NeedsAdminApprovalForNewParticipant" bool_kind 5
    ∷ column "AuthorityLevel" int64_kind 6
    ∷ column "ThreadKey" int64_kind 7
    ∷ column "MailboxType" int64_kind 8
    ∷ column "ThreadType" int64_kind 9
    ∷ column "FolderName" string_kind 10
    ∷ column "ThreadPictureUrlFallback" string_kind 11
    ∷ column "ThreadPictureUrlExpirationTimestampMs" int64_kind 12
    ∷ column "RemoveWatermarkTimestampMs" int64_kind 13
    ∷ column "MuteExpireTimeMs" int64_kind 14
    ∷ column "MuteMentionExpireTimeMs" int64_kind 15
    ∷ column "MuteCallsExpireTimeMs" int64_kind 16
    ∷ column "GroupNotificationSettings" int64_kind 19
    ∷ column "IsAdminSnippet" bool_kind 20
    ∷ column "SnippetSenderContactId" int64_kind 21
    ∷ column "SnippetStringHash" int64_kind 24
    ∷ column "SnippetStringArgument1" int64_kind 25
    ∷ column "SnippetAttribution" int64_kind 26
    ∷ column "SnippetAttributionStringHash" int64_kind 27
    ∷ column "DisappearingSettingTtl" int64_kind 28
    ∷ column "DisappearingSettingUpdatedTs" int64_kind 29
    ∷ column "DisappearingSettingUpdatedBy" int64_kind 30
    ∷ column "OngoingCallState" int64_kind 32
    ∷ column "CannotReplyReason" int64_kind 33
    ∷ column "CustomEmoji" string_kind 34
    ∷ column "CustomEmojiImageUrl" string_kind 35
    ∷ column "OutgoingBubbleColor" int64_kind 36
    ∷ column "ThemeFbid" int64_kind 37
    ∷ column "ParentThreadKey" int64_kind 38
    ∷ column "NullstateDescriptionText1" string_kind 39
    ∷ column "NullstateDescriptionType1" int64_kind 40
    ∷ column "NullstateDescriptionText2" string_kind 41
    ∷ column "NullstateDescriptionType2" int64_kind 42
    ∷ column "NullstateDescriptionText3" string_kind 43
    ∷ column "NullstateDescriptionType3" int64_kind 44
    ∷ column "SnippetHasEmoji" bool_kind 45
    ∷ column "HasPersistentMenu" bool_kind 46
    ∷ column "DisableComposerInput" bool_kind 47
    ∷ column "CannotUnsendReason" int64_kind 48
    ∷ column "ViewedPluginKey" int64_kind 49
    ∷ column "ViewedPluginContext" int64_kind 50
    ∷ column "ClientThreadKey" int64_kind 51
    ∷ column "Capabilities" int64_kind 52
    ∷ column "ShouldRoundThreadPicture" int64_kind 53
    ∷ column "ProactiveWarningDismissTime" int64_kind 54
    ∷ column "IsCustomThreadPicture" bool_kind 55
    ∷ column "OtidOfFirstMessage" int64_kind 56
    ∷ column "NormalizedSearchTerms" string_kind 57
    ∷ column "AdditionalThreadContext" string_kind 58
    ∷ column "DisappearingThreadKey" int64_kind 59
    ∷ column "IsDisappearingMode" bool_kind 60
    ∷ column "DisappearingModeInitiator" int64_kind 61
    ∷ column "UnreadDisappearingMessageCount" int64_kind 62
    ∷ column "LastMessageCtaId" int64_kind 64
    ∷ column "LastMessageCtaType" string_kind 65
    ∷ column "LastMessageCtaTimestampMs" int64_kind 66
    ∷ column "ConsistentThreadFbid" int64_kind 67
    ∷ column "ThreadDescription" string_kind 69
    ∷ column "UnsendLimitMs" int64_kind 70
    ∷ column "Capabilities2" int64_kind 78
    ∷ column "Capabilities3" int64_kind 79
    ∷ column "SyncGroup" int64_kind 82
    ∷ column "ThreadInvitesEnabled" int64_kind 83
    ∷ column "ThreadInviteLink" string_kind 84
    ∷ column "IsAllUnreadMessageMissedCallXma" bool_kind 85
    ∷ column "NumUnreadSubthreads" int64_kind 86
    ∷ column "SubthreadCount" int64_kind 87
    ∷ column "LastNonMissedCallXmaMessageTimestampMs" int64_kind 88
    ∷ column "ThreadInvitesEnabledV2" int64_kind 90
    ∷ column "JoinRequestApprovalSetting" int64_kind 93
    ∷ column "HasPendingInvitation" int64_kind 94
    ∷ column "EventStartTimestampMs" int64_kind 95
    ∷ column "EventEndTimestampMs" int64_kind 96
    ∷ column "TakedownState" int64_kind 97
    ∷ column "SecondaryParentThreadKey" int64_kind 98
    ∷ column "IgFolder" int64_kind 99
    ∷ column "InviterId" int64_kind 100
    ∷ column "ThreadTags" int64_kind 101
    ∷ column "IsReadReceiptsDisabled" bool_kind 102
    ∷ column "ReadReceiptsDisabledV2" int64_kind 103
    ∷ column "ThreadStatus" int64_kind 104
    ∷ column "ThreadSubtype" int64_kind 105
    ∷ column "PauseThreadTimestamp" int64_kind 106
    ∷ column "Capabilities4" string_kind 107
    ∷ [])
