-- ===== src/Tables/ThreadSnippets.antt =====
-- pkg/messagix/table/threads.go: the rows of threads, from LSMoveThreadToInboxAndUpdateParent to LSApplyNewGroupThread.
use meta_matrix_bridge.Prelude.{[], ◌∷◌}
use meta_matrix_bridge.Lightspeed.{Schema, int64_kind, string_kind, bool_kind}
use meta_matrix_bridge.Tables.{column, recorded}

abbrev pub ls_move_thread_to_inbox_and_update_parent : Schema
ls_move_thread_to_inbox_and_update_parent =
    recorded "LSMoveThreadToInboxAndUpdateParent"
      (column "ThreadKey" int64_kind 0 ∷ column "ParentThreadKey" int64_kind 1 ∷ [])

abbrev pub ls_update_thread_snippet : Schema
ls_update_thread_snippet = recorded "LSUpdateThreadSnippet" (
    column "ThreadKey" int64_kind 0
    ∷ column "Snippet" string_kind 1
    ∷ column "IsAdminSnippet" bool_kind 2
    ∷ column "SnippetSenderContactId" int64_kind 3
    ∷ column "SnippetHasEmoji" bool_kind 4
    ∷ column "ViewedPluginKey" string_kind 5
    ∷ column "ViewedPluginContext" string_kind 6
    ∷ [])

abbrev pub ls_verify_thread_exists : Schema
ls_verify_thread_exists = recorded "LSVerifyThreadExists" (
    column "ThreadKey" int64_kind 0
    ∷ column "ThreadType" int64_kind 1
    ∷ column "FolderName" string_kind 2
    ∷ column "ParentThreadKey" int64_kind 3
    ∷ column "AuthorityLevel" int64_kind 4
    ∷ column "SyncGroup" int64_kind 5
    ∷ [])

abbrev pub ls_bump_thread : Schema
ls_bump_thread = recorded "LSBumpThread" (
    column "LastReadWatermarkTimestampMs" int64_kind 0
    ∷ column "BumpStatus" int64_kind 1
    ∷ column "ThreadKey" int64_kind 2
    ∷ [])

abbrev pub ls_update_thread_snippet_from_last_message : Schema
ls_update_thread_snippet_from_last_message = recorded "LSUpdateThreadSnippetFromLastMessage" (
    column "AccountId" int64_kind 0
    ∷ column "ThreadKey" int64_kind 1
    ∷ column "Snippet1" string_kind 2
    ∷ column "Snippet2" string_kind 3
    ∷ column "Snippet3" string_kind 4
    ∷ column "Snippet4" string_kind 5
    ∷ column "Snippet5" string_kind 6
    ∷ column "Snippet6" string_kind 7
    ∷ column "Snippet7" string_kind 8
    ∷ column "Snippet8" string_kind 9
    ∷ column "Snippet9" string_kind 10
    ∷ column "IsAdminSnippet" bool_kind 11
    ∷ [])

abbrev pub ls_update_thread_snippet_from_last_message_v2 : Schema
ls_update_thread_snippet_from_last_message_v2 =
    recorded "LSUpdateThreadSnippetFromLastMessageV2" (column "ThreadKey" int64_kind 0 ∷ [])

abbrev pub ls_delete_banners_by_ids : Schema
ls_delete_banners_by_ids = recorded "LSDeleteBannersByIds" (column "ThreadKey" int64_kind 0 ∷ [])

abbrev pub ls_update_delivery_receipt : Schema
ls_update_delivery_receipt = recorded "LSUpdateDeliveryReceipt" (
    column "DeliveredWatermarkTimestampMs" int64_kind 0
    ∷ column "ThreadKey" int64_kind 1
    ∷ column "ContactId" int64_kind 2
    ∷ [])

abbrev pub ls_update_optimistic_context_thread_keys : Schema
ls_update_optimistic_context_thread_keys =
    recorded "LSUpdateOptimisticContextThreadKeys"
      (column "ThreadKey1" int64_kind 0 ∷ column "ThreadKey2" int64_kind 1 ∷ [])

abbrev pub ls_replace_optimistic_thread : Schema
ls_replace_optimistic_thread =
    recorded "LSReplaceOptimisticThread"
      (column "ThreadKey1" int64_kind 0 ∷ column "ThreadKey2" int64_kind 1 ∷ [])

abbrev pub ls_apply_new_group_thread : Schema
ls_apply_new_group_thread = recorded "LSApplyNewGroupThread" (
    column "OtidOfFirstMessage" string_kind 0
    ∷ column "ThreadKey" int64_kind 1
    ∷ column "ThreadType" int64_kind 2
    ∷ column "FolderName" string_kind 3
    ∷ column "ParentThreadKey" int64_kind 4
    ∷ column "ThreadPictureUrlFallback" string_kind 5
    ∷ column "LastActivityTimestampMs" int64_kind 6
    ∷ column "LastReadWatermarkTimestampMs" int64_kind 6
    ∷ column "NullstateDescriptionText1" string_kind 8
    ∷ column "NullstateDescriptionType1" int64_kind 9
    ∷ column "NullstateDescriptionText2" string_kind 10
    ∷ column "NullstateDescriptionType2" int64_kind 11
    ∷ column "CannotUnsendReason" int64_kind 12
    ∷ column "Capabilities" int64_kind 13
    ∷ column "InviterId" int64_kind 14
    ∷ column "IgFolder" int64_kind 15
    ∷ column "ThreadSubtype" int64_kind 16
    ∷ [])
