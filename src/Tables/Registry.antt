-- ===== src/Tables/Registry.antt =====
-- pkg/messagix/table/table.go: the tables of LSTable.
use meta_matrix_bridge.Prelude.{List, [], ◌∷◌, if◌then◌else◌, Option, none, some}
use meta_matrix_bridge.Lightspeed.{Schema}
use Prim.Native.String.{String}
use text.Mathlib.Text.{◌==◌ as str_eq}
use meta_matrix_bridge.Tables.Threads.{
  ls_add_participant_id_to_group_thread, ls_delete_then_insert_thread, ls_threads_ranges_query,
  ls_truncate_metadata_threads, ls_update_read_receipt, ls_update_threads_ranges_v2,
  ls_update_typing_indicator, ls_upsert_inbox_threads_range, ls_write_thread_capabilities,
}
use meta_matrix_bridge.Tables.ThreadSnippets.{
  ls_apply_new_group_thread, ls_bump_thread, ls_delete_banners_by_ids,
  ls_move_thread_to_inbox_and_update_parent, ls_replace_optimistic_thread,
  ls_update_delivery_receipt, ls_update_optimistic_context_thread_keys, ls_update_thread_snippet,
  ls_update_thread_snippet_from_last_message, ls_update_thread_snippet_from_last_message_v2,
  ls_verify_thread_exists,
}
use meta_matrix_bridge.Tables.ThreadUpdates.{
  ls_change_viewer_status, ls_delete_then_insert_ig_thread_info, ls_mark_thread_read,
  ls_mark_thread_read_v2, ls_overwrite_all_thread_participants_admin_status,
  ls_query_additional_group_threads, ls_remove_all_participants_for_thread, ls_set_thread_image_url,
  ls_sync_update_thread_name, ls_update_or_insert_thread, ls_update_parent_folder_read_watermark,
  ls_update_participant_capabilities, ls_update_participant_subscribe_source_text,
  ls_update_thread_invite_links_info, ls_update_thread_participant_admin_status,
  ls_write_cta_id_to_threads_table,
}
use meta_matrix_bridge.Tables.ThreadMoves.{
  ls_add_to_member_count, ls_clear_local_thread_picture_url, ls_delete_rtc_room_on_thread,
  ls_delete_thread, ls_move_thread_to_archived_folder, ls_move_thread_to_e2_ee_cutover_folder,
  ls_remove_all_requests_from_admin_approval_queue, ls_remove_participant_from_thread,
  ls_set_thread_cannot_unsend_reason, ls_update_inviter_id, ls_update_thread_approval_mode,
  ls_update_thread_authority_and_mapping_with_otid_from_jid, ls_update_thread_mute_setting,
  ls_update_thread_theme, ls_verify_hybrid_thread_exists,
}
use meta_matrix_bridge.Tables.Messages.{
  ls_clear_pinned_messages, ls_delete_message, ls_handle_replies_on_remove,
  ls_refresh_last_activity_timestamp, ls_set_forward_score, ls_set_message_displayed_content_types,
  ls_set_pinned_message, ls_upsert_message,
}
use meta_matrix_bridge.Tables.MessageRanges.{
  ls_check_authoritative_message_exists, ls_delete_existing_message_ranges, ls_insert_message,
  ls_insert_new_message_range, ls_update_existing_message_range,
  ls_update_participant_last_message_send_timestamp,
}
use meta_matrix_bridge.Tables.Reactions.{
  ls_delete_reaction, ls_delete_reaction_v2, ls_delete_then_insert_message,
  ls_delete_then_insert_reactions_v2_detail, ls_handle_replies_on_message_edit,
  ls_handle_replies_on_unsend, ls_update_for_roll_call_message_deleted,
  ls_update_or_insert_edit_message_history, ls_update_or_insert_reaction_v2,
  ls_update_unsent_message_collapsed_status, ls_upsert_reaction,
}
use meta_matrix_bridge.Tables.MessageUpdates.{
  ls_delete_then_insert_message_request, ls_edit_message, ls_handle_failed_task, ls_issue_new_error,
  ls_mark_optimistic_message_failed, ls_remove_optimistic_group_thread,
  ls_replace_optimistic_reaction, ls_replace_optimsitic_message, ls_set_message_text_has_links,
  ls_set_num_unread_subthreads, ls_update_messages_optimistic_context, ls_update_sub_thread_xma,
  ls_update_subscript_error_message,
}
use meta_matrix_bridge.Tables.Attachments.{
  ls_insert_attachment, ls_insert_sticker_attachment, ls_update_extra_attachment_columns,
}
use meta_matrix_bridge.Tables.XmaAttachments.{ls_insert_xma_attachment}
use meta_matrix_bridge.Tables.AttachmentItems.{
  ls_add_poll_for_thread, ls_add_poll_option, ls_add_poll_vote, ls_delete_live_location_sharer,
  ls_get_first_available_attachment_ctaid, ls_has_matching_attachment_cta, ls_insert_attachment_cta,
  ls_insert_attachment_item, ls_insert_blob_attachment,
  ls_update_attachment_cta_at_index_ignoring_authority, ls_update_attachment_item_cta_at_index,
  ls_update_shared_album_on_message_recall, ls_upsert_live_location_sharer,
}
use meta_matrix_bridge.Tables.Contacts.{
  ls_delete_then_insert_contact, ls_delete_then_insert_contact_presence,
  ls_delete_then_insert_ig_contact_info, ls_insert_community_member,
  ls_update_or_insert_community_member, ls_upsert_community_member_ranges,
  ls_verify_community_member_contextual_profile_exists, ls_verify_contact_participant_exist,
  ls_verify_contact_row_exists,
}
use meta_matrix_bridge.Tables.SyncGroups.{
  ls_append_data_trace_addon, ls_delete_then_insert_bot_profile_info_category_v2,
  ls_delete_then_insert_bot_profile_info_v2, ls_execute_finally_block_for_sync_transaction,
  ls_execute_first_block_for_sync_transaction, ls_handle_sync_failure, ls_mci_trace_log,
  ls_set_hmps_status, ls_set_region_hint, ls_story_contact_sync_from_bucket,
  ls_truncate_presence_database, ls_truncate_tables_for_sync_group,
  ls_truncate_thread_range_tables_for_sync_group, ls_update_last_sync_completed_timestamp_ms_to_now,
  ls_upsert_gradient_color, ls_upsert_sequence_id, ls_upsert_sync_group_threads_range,
  ls_upsert_theme,
}
use meta_matrix_bridge.Tables.Search.{
  ls_insert_search_result, ls_insert_search_section, ls_update_search_query_status,
}
use meta_matrix_bridge.Tables.Folders.{ls_upsert_folder, ls_upsert_folder_seen_timestamp}
use meta_matrix_bridge.Tables.Tasks.{
  ls_issue_new_task, ls_mailbox_task_completion_api_on_task_completion, ls_remove_task,
  ls_task_exists, ls_update_task_queue_name, ls_update_task_value,
}

-- The fields of LSTable in their order, each a name with the rows that it lists.
unfoldable pub ls_table : List (String × Schema)
ls_table =
    ("LSMciTraceLog", ls_mci_trace_log)
    ∷ ("LSExecuteFirstBlockForSyncTransaction", ls_execute_first_block_for_sync_transaction)
    ∷ ("LSTruncateMetadataThreads", ls_truncate_metadata_threads)
    ∷ ("LSTruncateThreadRangeTablesForSyncGroup", ls_truncate_thread_range_tables_for_sync_group)
    ∷ ("LSUpsertSyncGroupThreadsRange", ls_upsert_sync_group_threads_range)
    ∷ ("LSUpsertInboxThreadsRange", ls_upsert_inbox_threads_range)
    ∷ ("LSUpdateThreadsRangesV2", ls_update_threads_ranges_v2)
    ∷ ("LSUpsertFolder", ls_upsert_folder)
    ∷ ("LSUpsertFolderSeenTimestamp", ls_upsert_folder_seen_timestamp)
    ∷ ("LSSetHMPSStatus", ls_set_hmps_status)
    ∷ ("LSTruncateTablesForSyncGroup", ls_truncate_tables_for_sync_group)
    ∷ ("LSDeleteThenInsertThread", ls_delete_then_insert_thread)
    ∷ ("LSAddParticipantIdToGroupThread", ls_add_participant_id_to_group_thread)
    ∷ ("LSClearPinnedMessages", ls_clear_pinned_messages)
    ∷ ("LSWriteThreadCapabilities", ls_write_thread_capabilities)
    ∷ ("LSUpsertMessage", ls_upsert_message)
    ∷ ("LSSetForwardScore", ls_set_forward_score)
    ∷ ("LSSetMessageDisplayedContentTypes", ls_set_message_displayed_content_types)
    ∷ ("LSUpdateReadReceipt", ls_update_read_receipt)
    ∷ ("LSInsertNewMessageRange", ls_insert_new_message_range)
    ∷ ("LSUpdateExistingMessageRange", ls_update_existing_message_range)
    ∷ ("LSDeleteExistingMessageRanges", ls_delete_existing_message_ranges)
    ∷ ("LSUpsertSequenceId", ls_upsert_sequence_id)
    ∷ ("LSVerifyContactRowExists", ls_verify_contact_row_exists)
    ∷ ("LSThreadsRangesQuery", ls_threads_ranges_query)
    ∷ ("LSSetRegionHint", ls_set_region_hint)
    ∷ ("LSExecuteFinallyBlockForSyncTransaction", ls_execute_finally_block_for_sync_transaction)
    ∷ ("LSRemoveTask", ls_remove_task)
    ∷ ("LSTaskExists", ls_task_exists)
    ∷ ("LSDeleteThenInsertContact", ls_delete_then_insert_contact)
    ∷ ("LSUpdateTypingIndicator", ls_update_typing_indicator)
    ∷ ("LSCheckAuthoritativeMessageExists", ls_check_authoritative_message_exists)
    ∷ ("LSMoveThreadToInboxAndUpdateParent", ls_move_thread_to_inbox_and_update_parent)
    ∷ ("LSUpdateThreadSnippet", ls_update_thread_snippet)
    ∷ ("LSVerifyThreadExists", ls_verify_thread_exists)
    ∷ ("LSBumpThread", ls_bump_thread)
    ∷ (
      "LSUpdateParticipantLastMessageSendTimestamp",
      ls_update_participant_last_message_send_timestamp,
    )
    ∷ ("LSInsertMessage", ls_insert_message)
    ∷ ("LSUpsertGradientColor", ls_upsert_gradient_color)
    ∷ ("LSUpsertTheme", ls_upsert_theme)
    ∷ ("LSInsertStickerAttachment", ls_insert_sticker_attachment)
    ∷ ("LSUpsertReaction", ls_upsert_reaction)
    ∷ ("LSDeleteReaction", ls_delete_reaction)
    ∷ ("LSUpdateOrInsertReactionV2", ls_update_or_insert_reaction_v2)
    ∷ ("LSDeleteReactionV2", ls_delete_reaction_v2)
    ∷ ("LSDeleteThenInsertReactionsV2Detail", ls_delete_then_insert_reactions_v2_detail)
    ∷ ("LSHandleRepliesOnUnsend", ls_handle_replies_on_unsend)
    ∷ ("LSInsertXmaAttachment", ls_insert_xma_attachment)
    ∷ ("LSUpdateUnsentMessageCollapsedStatus", ls_update_unsent_message_collapsed_status)
    ∷ ("LSDeleteThenInsertMessage", ls_delete_then_insert_message)
    ∷ ("LSUpdateThreadSnippetFromLastMessage", ls_update_thread_snippet_from_last_message)
    ∷ ("LSUpdateForRollCallMessageDeleted", ls_update_for_roll_call_message_deleted)
    ∷ ("LSInsertBlobAttachment", ls_insert_blob_attachment)
    ∷ ("LSDeleteBannersByIds", ls_delete_banners_by_ids)
    ∷ ("LSUpdateDeliveryReceipt", ls_update_delivery_receipt)
    ∷ ("LSUpdateTaskQueueName", ls_update_task_queue_name)
    ∷ ("LSUpdateTaskValue", ls_update_task_value)
    ∷ ("LSReplaceOptimsiticMessage", ls_replace_optimsitic_message)
    ∷ ("LSUpdateOptimisticContextThreadKeys", ls_update_optimistic_context_thread_keys)
    ∷ ("LSReplaceOptimisticThread", ls_replace_optimistic_thread)
    ∷ ("LSApplyNewGroupThread", ls_apply_new_group_thread)
    ∷ ("LSRemoveAllParticipantsForThread", ls_remove_all_participants_for_thread)
    ∷ ("LSAppendDataTraceAddon", ls_append_data_trace_addon)
    ∷ ("LSUpdateThreadInviteLinksInfo", ls_update_thread_invite_links_info)
    ∷ ("LSUpdateThreadParticipantAdminStatus", ls_update_thread_participant_admin_status)
    ∷ ("LSUpdateParticipantSubscribeSourceText", ls_update_participant_subscribe_source_text)
    ∷ (
      "LSOverwriteAllThreadParticipantsAdminStatus",
      ls_overwrite_all_thread_participants_admin_status,
    )
    ∷ ("LSUpdateParticipantCapabilities", ls_update_participant_capabilities)
    ∷ ("LSChangeViewerStatus", ls_change_viewer_status)
    ∷ ("LSUpdateSearchQueryStatus", ls_update_search_query_status)
    ∷ ("LSInsertSearchResult", ls_insert_search_result)
    ∷ ("LSInsertSearchSection", ls_insert_search_section)
    ∷ ("LSSyncUpdateThreadName", ls_sync_update_thread_name)
    ∷ ("LSSetThreadImageURL", ls_set_thread_image_url)
    ∷ ("LSSetMessageTextHasLinks", ls_set_message_text_has_links)
    ∷ ("LSUpdateMessagesOptimisticContext", ls_update_messages_optimistic_context)
    ∷ (
      "LSMailboxTaskCompletionApiOnTaskCompletion",
      ls_mailbox_task_completion_api_on_task_completion,
    )
    ∷ ("LSWriteCTAIdToThreadsTable", ls_write_cta_id_to_threads_table)
    ∷ ("LSQueryAdditionalGroupThreads", ls_query_additional_group_threads)
    ∷ ("LSReplaceOptimisticReaction", ls_replace_optimistic_reaction)
    ∷ ("LSDeleteThenInsertMessageRequest", ls_delete_then_insert_message_request)
    ∷ ("LSDeleteThenInsertIgThreadInfo", ls_delete_then_insert_ig_thread_info)
    ∷ ("LSDeleteThenInsertContactPresence", ls_delete_then_insert_contact_presence)
    ∷ ("LSTruncatePresenceDatabase", ls_truncate_presence_database)
    ∷ ("LSMarkThreadRead", ls_mark_thread_read)
    ∷ ("LSMarkThreadReadV2", ls_mark_thread_read_v2)
    ∷ ("LSUpdateParentFolderReadWatermark", ls_update_parent_folder_read_watermark)
    ∷ ("LSInsertAttachmentItem", ls_insert_attachment_item)
    ∷ ("LSGetFirstAvailableAttachmentCTAID", ls_get_first_available_attachment_ctaid)
    ∷ ("LSInsertAttachmentCta", ls_insert_attachment_cta)
    ∷ ("LSUpdateAttachmentItemCtaAtIndex", ls_update_attachment_item_cta_at_index)
    ∷ (
      "LSUpdateAttachmentCtaAtIndexIgnoringAuthority",
      ls_update_attachment_cta_at_index_ignoring_authority,
    )
    ∷ ("LSHasMatchingAttachmentCTA", ls_has_matching_attachment_cta)
    ∷ ("LSDeleteThenInsertIGContactInfo", ls_delete_then_insert_ig_contact_info)
    ∷ ("LSIssueNewTask", ls_issue_new_task)
    ∷ ("LSUpdateOrInsertThread", ls_update_or_insert_thread)
    ∷ ("LSSetThreadCannotUnsendReason", ls_set_thread_cannot_unsend_reason)
    ∷ ("LSClearLocalThreadPictureUrl", ls_clear_local_thread_picture_url)
    ∷ ("LSUpdateInviterId", ls_update_inviter_id)
    ∷ ("LSAddToMemberCount", ls_add_to_member_count)
    ∷ ("LSMoveThreadToArchivedFolder", ls_move_thread_to_archived_folder)
    ∷ ("LSRemoveParticipantFromThread", ls_remove_participant_from_thread)
    ∷ ("LSDeleteRtcRoomOnThread", ls_delete_rtc_room_on_thread)
    ∷ ("LSUpdateThreadTheme", ls_update_thread_theme)
    ∷ ("LSUpdateThreadApprovalMode", ls_update_thread_approval_mode)
    ∷ (
      "LSRemoveAllRequestsFromAdminApprovalQueue", ls_remove_all_requests_from_admin_approval_queue,
    )
    ∷ (
      "LSUpdateLastSyncCompletedTimestampMsToNow",
      ls_update_last_sync_completed_timestamp_ms_to_now,
    )
    ∷ ("LSDeleteMessage", ls_delete_message)
    ∷ ("LSHandleRepliesOnRemove", ls_handle_replies_on_remove)
    ∷ ("LSRefreshLastActivityTimestamp", ls_refresh_last_activity_timestamp)
    ∷ ("LSSetPinnedMessage", ls_set_pinned_message)
    ∷ ("LSStoryContactSyncFromBucket", ls_story_contact_sync_from_bucket)
    ∷ ("LSUpsertLiveLocationSharer", ls_upsert_live_location_sharer)
    ∷ ("LSDeleteLiveLocationSharer", ls_delete_live_location_sharer)
    ∷ ("LSUpdateSharedAlbumOnMessageRecall", ls_update_shared_album_on_message_recall)
    ∷ ("LSEditMessage", ls_edit_message)
    ∷ ("LSHandleRepliesOnMessageEdit", ls_handle_replies_on_message_edit)
    ∷ ("LSUpdateThreadSnippetFromLastMessageV2", ls_update_thread_snippet_from_last_message_v2)
    ∷ ("LSMarkOptimisticMessageFailed", ls_mark_optimistic_message_failed)
    ∷ ("LSUpdateSubscriptErrorMessage", ls_update_subscript_error_message)
    ∷ (
      "LSDeleteThenInsertBotProfileInfoCategoryV2",
      ls_delete_then_insert_bot_profile_info_category_v2,
    )
    ∷ ("LSDeleteThenInsertBotProfileInfoV2", ls_delete_then_insert_bot_profile_info_v2)
    ∷ ("LSHandleSyncFailure", ls_handle_sync_failure)
    ∷ ("LSDeleteThread", ls_delete_thread)
    ∷ ("LSAddPollForThread", ls_add_poll_for_thread)
    ∷ ("LSAddPollOption", ls_add_poll_option)
    ∷ ("LSAddPollOptionV2", ls_add_poll_option)
    ∷ ("LSAddPollVote", ls_add_poll_vote)
    ∷ ("LSAddPollVoteV2", ls_add_poll_vote)
    ∷ ("LSUpdateThreadMuteSetting", ls_update_thread_mute_setting)
    ∷ ("LSInsertAttachment", ls_insert_attachment)
    ∷ ("LSUpdateExtraAttachmentColumns", ls_update_extra_attachment_columns)
    ∷ ("LSMoveThreadToE2EECutoverFolder", ls_move_thread_to_e2_ee_cutover_folder)
    ∷ ("LSHandleFailedTask", ls_handle_failed_task)
    ∷ ("LSIssueNewError", ls_issue_new_error)
    ∷ ("LSRemoveOptimisticGroupThread", ls_remove_optimistic_group_thread)
    ∷ ("LSUpdateOrInsertEditMessageHistory", ls_update_or_insert_edit_message_history)
    ∷ ("LSVerifyHybridThreadExists", ls_verify_hybrid_thread_exists)
    ∷ (
      "LSUpdateThreadAuthorityAndMappingWithOTIDFromJID",
      ls_update_thread_authority_and_mapping_with_otid_from_jid,
    )
    ∷ ("LSVerifyContactParticipantExist", ls_verify_contact_participant_exist)
    ∷ (
      "LSVerifyCommunityMemberContextualProfileExists",
      ls_verify_community_member_contextual_profile_exists,
    )
    ∷ ("LSInsertCommunityMember", ls_insert_community_member)
    ∷ ("LSUpdateOrInsertCommunityMember", ls_update_or_insert_community_member)
    ∷ ("LSUpsertCommunityMemberRanges", ls_upsert_community_member_ranges)
    ∷ ("LSUpdateSubThreadXMA", ls_update_sub_thread_xma)
    ∷ ("LSSetNumUnreadSubthreads", ls_set_num_unread_subthreads)
    ∷ []

unfoldable pub lookup {ℓ} : {A : Type ℓ} → String → List (String × A) → Option A
lookup name [] = none
lookup name ((key, a) ∷ table) =
    let rest = lookup name table in if str_eq key name then some a else rest

-- FieldByName of the table.
unfoldable pub field_by_name : String → Option Schema
field_by_name name = lookup name ls_table
