-- ===== src/Tables/Procedures.antt =====
-- pkg/messagix/table/table.go: SPTable and SPToDepMap.
use meta_matrix_bridge.Prelude.{List, [], ◌∷◌, Option, none, some}
use meta_matrix_bridge.Tables.Registry.{lookup}
use Prim.Native.String.{String}

unfoldable pub sp_table : List (String × String)
sp_table =
    ("removeAllRequestsFromAdminApprovalQueue", "LSRemoveAllRequestsFromAdminApprovalQueue")
    ∷ ("updateThreadApprovalMode", "LSUpdateThreadApprovalMode")
    ∷ ("updateThreadTheme", "LSUpdateThreadTheme")
    ∷ ("deleteRtcRoomOnThread", "LSDeleteRtcRoomOnThread")
    ∷ ("removeParticipantFromThread", "LSRemoveParticipantFromThread")
    ∷ ("moveThreadToArchivedFolder", "LSMoveThreadToArchivedFolder")
    ∷ ("setThreadCannotUnsendReason", "LSSetThreadCannotUnsendReason")
    ∷ ("clearLocalThreadPictureUrl", "LSClearLocalThreadPictureUrl")
    ∷ ("updateInviterId", "LSUpdateInviterId")
    ∷ ("addToMemberCount", "LSAddToMemberCount")
    ∷ ("updateOrInsertThread", "LSUpdateOrInsertThread")
    ∷ ("issueNewTask", "LSIssueNewTask")
    ∷ ("deleteThenInsertIGContactInfo", "LSDeleteThenInsertIGContactInfo")
    ∷ ("hasMatchingAttachmentCTA", "LSHasMatchingAttachmentCTA")
    ∷ (
      "updateAttachmentCtaAtIndexIgnoringAuthority",
      "LSUpdateAttachmentCtaAtIndexIgnoringAuthority",
    )
    ∷ ("updateAttachmentItemCtaAtIndex", "LSUpdateAttachmentItemCtaAtIndex")
    ∷ ("insertAttachmentCta", "LSInsertAttachmentCta")
    ∷ ("getFirstAvailableAttachmentCTAID", "LSGetFirstAvailableAttachmentCTAID")
    ∷ ("insertAttachmentItem", "LSInsertAttachmentItem")
    ∷ ("updateParentFolderReadWatermark", "LSUpdateParentFolderReadWatermark")
    ∷ ("markThreadRead", "LSMarkThreadRead")
    ∷ ("markThreadReadV2", "LSMarkThreadReadV2")
    ∷ ("truncatePresenceDatabase", "LSTruncatePresenceDatabase")
    ∷ ("deleteThenInsertContactPresence", "LSDeleteThenInsertContactPresence")
    ∷ ("deleteThenInsertIgThreadInfo", "LSDeleteThenInsertIgThreadInfo")
    ∷ ("deleteThenInsertMessageRequest", "LSDeleteThenInsertMessageRequest")
    ∷ ("replaceOptimisticReaction", "LSReplaceOptimisticReaction")
    ∷ ("queryAdditionalGroupThreads", "LSQueryAdditionalGroupThreads")
    ∷ ("writeCTAIdToThreadsTable", "LSWriteCTAIdToThreadsTable")
    ∷ ("mailboxTaskCompletionApiOnTaskCompletion", "LSMailboxTaskCompletionApiOnTaskCompletion")
    ∷ ("updateMessagesOptimisticContext", "LSUpdateMessagesOptimisticContext")
    ∷ ("setMessageTextHasLinks", "LSSetMessageTextHasLinks")
    ∷ ("syncUpdateThreadName", "LSSyncUpdateThreadName")
    ∷ ("setThreadImageURL", "LSSetThreadImageURL")
    ∷ ("insertSearchSection", "LSInsertSearchSection")
    ∷ ("insertSearchResult", "LSInsertSearchResult")
    ∷ ("updateSearchQueryStatus", "LSUpdateSearchQueryStatus")
    ∷ ("changeViewerStatus", "LSChangeViewerStatus")
    ∷ ("updateParticipantCapabilities", "LSUpdateParticipantCapabilities")
    ∷ ("overwriteAllThreadParticipantsAdminStatus", "LSOverwriteAllThreadParticipantsAdminStatus")
    ∷ ("updateParticipantSubscribeSourceText", "LSUpdateParticipantSubscribeSourceText")
    ∷ ("updateThreadParticipantAdminStatus", "LSUpdateThreadParticipantAdminStatus")
    ∷ ("updateThreadInviteLinksInfo", "LSUpdateThreadInviteLinksInfo")
    ∷ ("appendDataTraceAddon", "LSAppendDataTraceAddon")
    ∷ ("removeAllParticipantsForThread", "LSRemoveAllParticipantsForThread")
    ∷ ("applyNewGroupThread", "LSApplyNewGroupThread")
    ∷ ("replaceOptimisticThread", "LSReplaceOptimisticThread")
    ∷ ("updateOptimisticContextThreadKeys", "LSUpdateOptimisticContextThreadKeys")
    ∷ ("replaceOptimsiticMessage", "LSReplaceOptimsiticMessage")
    ∷ ("updateTaskQueueName", "LSUpdateTaskQueueName")
    ∷ ("updateTaskValue", "LSUpdateTaskValue")
    ∷ ("updateDeliveryReceipt", "LSUpdateDeliveryReceipt")
    ∷ ("deleteBannersByIds", "LSDeleteBannersByIds")
    ∷ ("truncateTablesForSyncGroup", "LSTruncateTablesForSyncGroup")
    ∷ ("insertXmaAttachment", "LSInsertXmaAttachment")
    ∷ ("insertNewMessageRange", "LSInsertNewMessageRange")
    ∷ ("updateExistingMessageRange", "LSUpdateExistingMessageRange")
    ∷ ("threadsRangesQuery", "LSThreadsRangesQuery")
    ∷ ("updateThreadSnippetFromLastMessage", "LSUpdateThreadSnippetFromLastMessage")
    ∷ ("upsertInboxThreadsRange", "LSUpsertInboxThreadsRange")
    ∷ ("deleteThenInsertThread", "LSDeleteThenInsertThread")
    ∷ ("addParticipantIdToGroupThread", "LSAddParticipantIdToGroupThread")
    ∷ ("upsertMessage", "LSUpsertMessage")
    ∷ ("clearPinnedMessages", "LSClearPinnedMessages")
    ∷ ("mciTraceLog", "LSMciTraceLog")
    ∷ ("insertBlobAttachment", "LSInsertBlobAttachment")
    ∷ ("updateUnsentMessageCollapsedStatus", "LSUpdateUnsentMessageCollapsedStatus")
    ∷ ("executeFirstBlockForSyncTransaction", "LSExecuteFirstBlockForSyncTransaction")
    ∷ ("updateThreadsRangesV2", "LSUpdateThreadsRangesV2")
    ∷ ("upsertSyncGroupThreadsRange", "LSUpsertSyncGroupThreadsRange")
    ∷ ("upsertFolder", "LSUpsertFolder")
    ∷ ("upsertFolderSeenTimestamp", "LSUpsertFolderSeenTimestamp")
    ∷ ("setHMPSStatus", "LSSetHMPSStatus")
    ∷ ("handleRepliesOnUnsend", "LSHandleRepliesOnUnsend")
    ∷ ("deleteExistingMessageRanges", "LSDeleteExistingMessageRanges")
    ∷ ("writeThreadCapabilities", "LSWriteThreadCapabilities")
    ∷ ("upsertSequenceId", "LSUpsertSequenceId")
    ∷ ("executeFinallyBlockForSyncTransaction", "LSExecuteFinallyBlockForSyncTransaction")
    ∷ ("verifyContactRowExists", "LSVerifyContactRowExists")
    ∷ ("taskExists", "LSTaskExists")
    ∷ ("removeTask", "LSRemoveTask")
    ∷ ("deleteThenInsertMessage", "LSDeleteThenInsertMessage")
    ∷ ("deleteThenInsertContact", "LSDeleteThenInsertContact")
    ∷ ("updateTypingIndicator", "LSUpdateTypingIndicator")
    ∷ ("checkAuthoritativeMessageExists", "LSCheckAuthoritativeMessageExists")
    ∷ ("moveThreadToInboxAndUpdateParent", "LSMoveThreadToInboxAndUpdateParent")
    ∷ ("updateThreadSnippet", "LSUpdateThreadSnippet")
    ∷ ("setMessageDisplayedContentTypes", "LSSetMessageDisplayedContentTypes")
    ∷ ("verifyThreadExists", "LSVerifyThreadExists")
    ∷ ("updateReadReceipt", "LSUpdateReadReceipt")
    ∷ ("setForwardScore", "LSSetForwardScore")
    ∷ ("upsertReaction", "LSUpsertReaction")
    ∷ ("updateOrInsertReactionV2", "LSUpdateOrInsertReactionV2")
    ∷ ("deleteReactionV2", "LSDeleteReactionV2")
    ∷ ("deleteThenInsertReactionsV2Detail", "LSDeleteThenInsertReactionsV2Detail")
    ∷ ("bumpThread", "LSBumpThread")
    ∷ ("updateParticipantLastMessageSendTimestamp", "LSUpdateParticipantLastMessageSendTimestamp")
    ∷ ("insertMessage", "LSInsertMessage")
    ∷ ("upsertTheme", "LSUpsertTheme")
    ∷ ("upsertGradientColor", "LSUpsertGradientColor")
    ∷ ("insertStickerAttachment", "LSInsertStickerAttachment")
    ∷ ("updateForRollCallMessageDeleted", "LSUpdateForRollCallMessageDeleted")
    ∷ ("updateLastSyncCompletedTimestampMsToNow", "LSUpdateLastSyncCompletedTimestampMsToNow")
    ∷ ("deleteMessage", "LSDeleteMessage")
    ∷ ("handleRepliesOnRemove", "LSHandleRepliesOnRemove")
    ∷ ("refreshLastActivityTimestamp", "LSRefreshLastActivityTimestamp")
    ∷ ("setPinnedMessage", "LSSetPinnedMessage")
    ∷ ("storyContactSyncFromBucket", "LSStoryContactSyncFromBucket")
    ∷ ("upsertLiveLocationSharer", "LSUpsertLiveLocationSharer")
    ∷ ("deleteLiveLocationSharer", "LSDeleteLiveLocationSharer")
    ∷ ("updateSharedAlbumOnMessageRecall", "LSUpdateSharedAlbumOnMessageRecall")
    ∷ ("editMessage", "LSEditMessage")
    ∷ ("handleRepliesOnMessageEdit", "LSHandleRepliesOnMessageEdit")
    ∷ ("updateThreadSnippetFromLastMessageV2", "LSUpdateThreadSnippetFromLastMessageV2")
    ∷ ("markOptimisticMessageFailed", "LSMarkOptimisticMessageFailed")
    ∷ ("updateSubscriptErrorMessage", "LSUpdateSubscriptErrorMessage")
    ∷ ("deleteThenInsertBotProfileInfoCategoryV2", "LSDeleteThenInsertBotProfileInfoCategoryV2")
    ∷ ("deleteThenInsertBotProfileInfoV2", "LSDeleteThenInsertBotProfileInfoV2")
    ∷ ("handleSyncFailure", "LSHandleSyncFailure")
    ∷ ("deleteThread", "LSDeleteThread")
    ∷ ("addPollOption", "LSAddPollOption")
    ∷ ("addPollOptionV2", "LSAddPollOptionV2")
    ∷ ("addPollVote", "LSAddPollVote")
    ∷ ("addPollVoteV2", "LSAddPollVoteV2")
    ∷ ("addPollForThread", "LSAddPollForThread")
    ∷ ("deleteReaction", "LSDeleteReaction")
    ∷ ("updateThreadMuteSetting", "LSUpdateThreadMuteSetting")
    ∷ ("insertAttachment", "LSInsertAttachment")
    ∷ ("updateExtraAttachmentColumns", "LSUpdateExtraAttachmentColumns")
    ∷ ("moveThreadToE2EECutoverFolder", "LSMoveThreadToE2EECutoverFolder")
    ∷ ("handleFailedTask", "LSHandleFailedTask")
    ∷ ("issueNewError", "LSIssueNewError")
    ∷ ("removeOptimisticGroupThread", "LSRemoveOptimisticGroupThread")
    ∷ ("updateOrInsertEditMessageHistory", "LSUpdateOrInsertEditMessageHistory")
    ∷ ("verifyHybridThreadExists", "LSVerifyHybridThreadExists")
    ∷ (
      "updateThreadAuthorityAndMappingWithOTIDFromJID",
      "LSUpdateThreadAuthorityAndMappingWithOTIDFromJID",
    )
    ∷ ("verifyContactParticipantExist", "LSVerifyContactParticipantExist")
    ∷ (
      "verifyCommunityMemberContextualProfileExists",
      "LSVerifyCommunityMemberContextualProfileExists",
    )
    ∷ ("insertCommunityMember", "LSInsertCommunityMember")
    ∷ ("updateOrInsertCommunityMember", "LSUpdateOrInsertCommunityMember")
    ∷ ("upsertCommunityMemberRanges", "LSUpsertCommunityMemberRanges")
    ∷ ("updateSubThreadXMA", "LSUpdateSubThreadXMA")
    ∷ ("setNumUnreadSubthreads", "LSSetNumUnreadSubthreads")
    ∷ []

-- The map is a list with the last key in front.
abbrev pub add_dependency : String → Option String → List (String × String) → List (String × String)
add_dependency d none m = m
add_dependency d (some dep_name) m = (d, dep_name) ∷ m

unfoldable pub add_dependencies : List String → List (String × String) → List (String × String)
add_dependencies [] m = m
add_dependencies (d ∷ ds) m = add_dependencies ds (add_dependency d (lookup d sp_table) m)

unfoldable pub sp_to_dep_map : List String → List (String × String)
sp_to_dep_map sp = add_dependencies sp []
