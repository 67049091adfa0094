-- ===== src/Tables/ThreadMoves.antt =====
-- pkg/messagix/table/threads.go: the rows of threads after LSUpdateOrInsertThread.
use meta_matrix_bridge.Prelude.{[], ◌∷◌}
use meta_matrix_bridge.Lightspeed.{Schema, int64_kind, bool_kind}
use meta_matrix_bridge.Tables.{column, recorded}

abbrev pub ls_set_thread_cannot_unsend_reason : Schema
ls_set_thread_cannot_unsend_reason =
    recorded "LSSetThreadCannotUnsendReason"
      (column "ThreadKey" int64_kind 0 ∷ column "CannotUnsendReason" int64_kind 1 ∷ [])

abbrev pub ls_clear_local_thread_picture_url : Schema
ls_clear_local_thread_picture_url =
    recorded "LSClearLocalThreadPictureUrl" (column "ThreadKey" int64_kind 0 ∷ [])

abbrev pub ls_update_inviter_id : Schema
ls_update_inviter_id =
    recorded "LSUpdateInviterId"
      (column "ThreadKey" int64_kind 0 ∷ column "InviterId" int64_kind 1 ∷ [])

abbrev pub ls_add_to_member_count : Schema
ls_add_to_member_count =
    recorded "LSAddToMemberCount"
      (column "ThreadKey" int64_kind 0 ∷ column "IncrementCount" int64_kind 1 ∷ [])

abbrev pub ls_move_thread_to_archived_folder : Schema
ls_move_thread_to_archived_folder =
    recorded "LSMoveThreadToArchivedFolder" (column "ThreadKey" int64_kind 0 ∷ [])

abbrev pub ls_move_thread_to_e2_ee_cutover_folder : Schema
ls_move_thread_to_e2_ee_cutover_folder =
    recorded "LSMoveThreadToE2EECutoverFolder" (column "ThreadKey" int64_kind 0 ∷ [])

abbrev pub ls_remove_participant_from_thread : Schema
ls_remove_participant_from_thread =
    recorded "LSRemoveParticipantFromThread"
      (column "ThreadKey" int64_kind 0 ∷ column "ParticipantId" int64_kind 1 ∷ [])

abbrev pub ls_delete_rtc_room_on_thread : Schema
ls_delete_rtc_room_on_thread =
    recorded "LSDeleteRtcRoomOnThread" (column "ThreadKey" int64_kind 0 ∷ [])

abbrev pub ls_update_thread_theme : Schema
ls_update_thread_theme = recorded "LSUpdateThreadTheme" (
    column "ThreadKey" int64_kind 0
    ∷ column "Unknown1" int64_kind 1
    ∷ column "Unknown2" int64_kind 2
    ∷ [])

abbrev pub ls_update_thread_approval_mode : Schema
ls_update_thread_approval_mode =
    recorded "LSUpdateThreadApprovalMode"
      (column "ThreadKey" int64_kind 0 ∷ column "Value" bool_kind 1 ∷ [])

abbrev pub ls_remove_all_requests_from_admin_approval_queue : Schema
ls_remove_all_requests_from_admin_approval_queue =
    recorded "LSRemoveAllRequestsFromAdminApprovalQueue" (column "ThreadKey" int64_kind 0 ∷ [])

abbrev pub ls_delete_thread : Schema
ls_delete_thread =
    recorded "LSDeleteThread"
      (column "ThreadKey" int64_kind 0 ∷ column "UnknownBool1" bool_kind 1 ∷ [])

abbrev pub ls_update_thread_mute_setting : Schema
ls_update_thread_mute_setting =
    recorded "LSUpdateThreadMuteSetting"
      (column "ThreadKey" int64_kind 0 ∷ column "MuteExpireTimeMS" int64_kind 1 ∷ [])

abbrev pub ls_verify_hybrid_thread_exists : Schema
ls_verify_hybrid_thread_exists = recorded "LSVerifyHybridThreadExists" (
    column "ThreadKey" int64_kind 0
    ∷ column "ThreadJID" int64_kind 1
    ∷ column "ThreadType" int64_kind 2
    ∷ column "IsGroupThread" bool_kind 5
    ∷ column "LastActivityTimestampMS" int64_kind 6
    ∷ column "LastReadWatermarkTimestampMS" int64_kind 7
    ∷ [])

abbrev pub ls_update_thread_authority_and_mapping_with_otid_from_jid : Schema
ls_update_thread_authority_and_mapping_with_otid_from_jid =
    recorded "LSUpdateThreadAuthorityAndMappingWithOTIDFromJID"
      (column "ThreadJID" int64_kind 0 ∷ column "ThreadKey" int64_kind 1 ∷ [])
