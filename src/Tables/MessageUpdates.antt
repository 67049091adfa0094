-- ===== src/Tables/MessageUpdates.antt =====
-- pkg/messagix/table/messages.go: the rows of messages after LSDeleteThenInsertMessage.
use meta_matrix_bridge.Prelude.{[], ◌∷◌}
use meta_matrix_bridge.Lightspeed.{Schema, int64_kind, string_kind}
use meta_matrix_bridge.Tables.{column, recorded, unrecorded}

abbrev pub ls_edit_message : Schema
ls_edit_message = recorded "LSEditMessage" (
    column "MessageID" string_kind 0
    ∷ column "AuthorityLevel" int64_kind 1
    ∷ column "Text" string_kind 2
    ∷ column "EditCount" int64_kind 3
    ∷ [])

abbrev pub ls_replace_optimsitic_message : Schema
ls_replace_optimsitic_message =
    recorded "LSReplaceOptimsiticMessage"
      (column "OfflineThreadingId" string_kind 0 ∷ column "MessageId" string_kind 1 ∷ [])

abbrev pub ls_set_message_text_has_links : Schema
ls_set_message_text_has_links = recorded "LSSetMessageTextHasLinks" (
    column "ThreadKey" int64_kind 0
    ∷ column "MessageId" string_kind 1
    ∷ column "TimestampMs" int64_kind 2
    ∷ [])

abbrev pub ls_update_messages_optimistic_context : Schema
ls_update_messages_optimistic_context = recorded "LSUpdateMessagesOptimisticContext" []

abbrev pub ls_replace_optimistic_reaction : Schema
ls_replace_optimistic_reaction = recorded "LSReplaceOptimisticReaction" (
    column "ThreadKey" int64_kind 0
    ∷ column "ActorId" int64_kind 1
    ∷ column "MessageId" string_kind 2
    ∷ [])

abbrev pub ls_delete_then_insert_message_request : Schema
ls_delete_then_insert_message_request = recorded "LSDeleteThenInsertMessageRequest" (
    column "ThreadKey" int64_kind 0
    ∷ column "Unknown" int64_kind 1
    ∷ column "MessageRequestStatus" int64_kind 2
    ∷ [])

abbrev pub ls_mark_optimistic_message_failed : Schema
ls_mark_optimistic_message_failed =
    recorded "LSMarkOptimisticMessageFailed"
      (column "OTID" string_kind 0 ∷ column "Message" string_kind 1 ∷ [])

abbrev pub ls_handle_failed_task : Schema
ls_handle_failed_task = recorded "LSHandleFailedTask" (
    column "TaskID" int64_kind 0
    ∷ column "OTID" string_kind 1
    ∷ column "Message" string_kind 2
    ∷ [])

abbrev pub ls_update_subscript_error_message : Schema
ls_update_subscript_error_message = recorded "LSUpdateSubscriptErrorMessage" (
    column "ThreadKey" int64_kind 0
    ∷ column "OTID" string_kind 1
    ∷ column "Message" string_kind 2
    ∷ [])

abbrev pub ls_issue_new_error : Schema
ls_issue_new_error = recorded "LSIssueNewError" (
    column "TaskID" int64_kind 0
    ∷ column "ErrorCode" int64_kind 1
    ∷ column "ErrorTitle" string_kind 2
    ∷ column "ErrorMessage" string_kind 3
    ∷ [])

abbrev pub ls_remove_optimistic_group_thread : Schema
ls_remove_optimistic_group_thread =
    recorded "LSRemoveOptimisticGroupThread" (column "ThreadKey" int64_kind 0 ∷ [])

abbrev pub ls_update_sub_thread_xma : Schema
ls_update_sub_thread_xma = unrecorded "LSUpdateSubThreadXMA" (
    column "ParentThreadKey" int64_kind 0
    ∷ column "ThreadKey" int64_kind 1
    ∷ column "ReplyCount" int64_kind 2
    ∷ [])

abbrev pub ls_set_num_unread_subthreads : Schema
ls_set_num_unread_subthreads =
    unrecorded "LSSetNumUnreadSubthreads"
      (column "ThreadKey" int64_kind 0 ∷ column "NumUnread" int64_kind 1 ∷ [])
