-- ===== src/Tables/SyncGroups.antt =====
-- pkg/messagix/table/sync_groups.go: the rows of sync groups.
use meta_matrix_bridge.Prelude.{[], ◌∷◌}
use meta_matrix_bridge.Lightspeed.{
  Schema, int64_kind, string_kind, bool_kind, interface_kind, float64_kind,
}
use meta_matrix_bridge.Tables.{column, recorded}

abbrev pub ls_truncate_tables_for_sync_group : Schema
ls_truncate_tables_for_sync_group =
    recorded "LSTruncateTablesForSyncGroup" (column "SyncGroup" int64_kind 0 ∷ [])

abbrev pub ls_truncate_thread_range_tables_for_sync_group : Schema
ls_truncate_thread_range_tables_for_sync_group =
    recorded "LSTruncateThreadRangeTablesForSyncGroup" (column "ParentThreadKey" int64_kind 0 ∷ [])

abbrev pub ls_upsert_sync_group_threads_range : Schema
ls_upsert_sync_group_threads_range = recorded "LSUpsertSyncGroupThreadsRange" (
    column "SyncGroup" int64_kind 0
    ∷ column "ParentThreadKey" int64_kind 1
    ∷ column "MinLastActivityTimestampMS" int64_kind 2
    ∷ column "HasMoreBefore" bool_kind 3
    ∷ column "IsLoadingBefore" bool_kind 4
    ∷ column "MinThreadKey" int64_kind 5
    ∷ [])

abbrev pub ls_mci_trace_log : Schema
ls_mci_trace_log = recorded "LSMciTraceLog" (
    column "SomeInt0" int64_kind 0
    ∷ column "MCITraceUnsampledEventTraceID" string_kind 1
    ∷ column "Unknown2" interface_kind 2
    ∷ column "SomeInt3" int64_kind 3
    ∷ column "Unknown4" interface_kind 4
    ∷ column "DatascriptExecute" string_kind 5
    ∷ column "SomeInt6" int64_kind 6
    ∷ [])

abbrev pub ls_execute_first_block_for_sync_transaction : Schema
ls_execute_first_block_for_sync_transaction = recorded "LSExecuteFirstBlockForSyncTransaction" (
    column "DatabaseID" int64_kind 0
    ∷ column "EpochID" int64_kind 1
    ∷ column "CurrentCursor" string_kind 2
    ∷ column "NextCursor" string_kind 3
    ∷ column "SyncStatus" int64_kind 4
    ∷ column "SendSyncParams" bool_kind 5
    ∷ column "MinTimeToSyncTimestampMS" int64_kind 6
    ∷ column "CanIgnoreTimestamp" bool_kind 7
    ∷ column "SyncChannel" int64_kind 8
    ∷ [])

abbrev pub ls_execute_finally_block_for_sync_transaction : Schema
ls_execute_finally_block_for_sync_transaction = recorded "LSExecuteFinallyBlockForSyncTransaction" (
    column "ShouldFlush" bool_kind 0
    ∷ column "SyncDatabaseID" int64_kind 1
    ∷ column "EpochID" int64_kind 2
    ∷ [])

abbrev pub ls_set_hmps_status : Schema
ls_set_hmps_status = recorded "LSSetHMPSStatus" (
    column "AccountId" int64_kind 0
    ∷ column "Unknown1" int64_kind 1
    ∷ column "Timestamp" int64_kind 2
    ∷ [])

abbrev pub ls_upsert_sequence_id : Schema
ls_upsert_sequence_id =
    recorded "LSUpsertSequenceID" (column "LastAppliedMailboxSequenceId" int64_kind 0 ∷ [])

abbrev pub ls_set_region_hint : Schema
ls_set_region_hint =
    recorded "LSSetRegionHint"
      (column "Unknown0" int64_kind 0 ∷ column "RegionHint" string_kind 1 ∷ [])

abbrev pub ls_upsert_gradient_color : Schema
ls_upsert_gradient_color = recorded "LSUpsertGradientColor" (
    column "ThemeFbid" int64_kind 0
    ∷ column "GradientIndex" int64_kind 1
    ∷ column "Color" int64_kind 2
    ∷ column "Type" int64_kind 3
    ∷ [])

abbrev pub ls_upsert_theme : Schema
ls_upsert_theme = recorded "LSUpsertTheme" (
    column "Fbid" int64_kind 0
    ∷ column "NormalThemeId" int64_kind 0
    ∷ column "ThemeIdx" int64_kind 1
    ∷ column "FallbackColor" int64_kind 2
    ∷ column "ReverseGradiantsForRadial" bool_kind 3
    ∷ column "AccessibilityLabel" string_kind 4
    ∷ column "IconUrl" string_kind 5
    ∷ column "IconUrlFallback" string_kind 6
    ∷ column "BackgroundUrl" string_kind 8
    ∷ column "IsDeprecated" bool_kind 11
    ∷ column "AppColorMode" int64_kind 13
    ∷ column "TitlebarBackgroundColor" int64_kind 14
    ∷ column "TitlebarButtonTintColor" int64_kind 15
    ∷ column "TitlebarTextColor" int64_kind 16
    ∷ column "ComposerTintColor" int64_kind 17
    ∷ column "ComposerUnselectedTintColor" int64_kind 18
    ∷ column "ComposerInputTextPlaceholderColor" int64_kind 19
    ∷ column "ComposerInputBackgroundColor" int64_kind 20
    ∷ column "ComposerInputBorderColor" int64_kind 21
    ∷ column "ComposerInputBorderWidth" int64_kind 22
    ∷ column "ComposerBackgroundColor" int64_kind 23
    ∷ column "MessageTextColor" int64_kind 24
    ∷ column "MessageBorderColor" int64_kind 25
    ∷ column "MessageBorderWidth" int64_kind 26
    ∷ column "IncomingMessageTextColor" int64_kind 27
    ∷ column "IncomingMessageBorderColor" int64_kind 28
    ∷ column "IncomingMessageBorderWidth" int64_kind 29
    ∷ column "DeliveryReceiptColor" int64_kind 30
    ∷ column "TertiaryTextColor" int64_kind 31
    ∷ column "PrimaryButtonBackgroundColor" int64_kind 32
    ∷ column "HotLikeColor" int64_kind 33
    ∷ column "SecondaryTextColor" int64_kind 34
    ∷ column "QuotedIncomingMessageBubbleColor" int64_kind 35
    ∷ column "CornerRadius" int64_kind 36
    ∷ column "BlurredComposerBackgroundColor" int64_kind 37
    ∷ column "ComposerSecondaryButtonColor" int64_kind 38
    ∷ column "ComposerPlaceholderTextColor" int64_kind 39
    ∷ [])

abbrev pub ls_append_data_trace_addon : Schema
ls_append_data_trace_addon = recorded "LSAppendDataTraceAddon" (
    column "TraceId" string_kind 0
    ∷ column "CheckPointId" int64_kind 1
    ∷ column "SyncChannel" int64_kind 2
    ∷ column "ErrorMessage" string_kind 3
    ∷ column "Tags" string_kind 4
    ∷ [])

abbrev pub ls_truncate_presence_database : Schema
ls_truncate_presence_database =
    recorded "LSTruncatePresenceDatabase" (column "ShouldTruncate" bool_kind 0 ∷ [])

abbrev pub ls_update_last_sync_completed_timestamp_ms_to_now : Schema
ls_update_last_sync_completed_timestamp_ms_to_now =
    recorded "LSUpdateLastSyncCompletedTimestampMsToNow" (column "Unknown0" int64_kind 0 ∷ [])

abbrev pub ls_story_contact_sync_from_bucket : Schema
ls_story_contact_sync_from_bucket = recorded "LSStoryContactSyncFromBucket" []

abbrev pub ls_delete_then_insert_bot_profile_info_category_v2 : Schema
ls_delete_then_insert_bot_profile_info_category_v2 =
    recorded "LSDeleteThenInsertBotProfileInfoCategoryV2" (
      column "Category" string_kind 0
      ∷ column "BotID" int64_kind 1
      ∷ column "UnknownFloat2" float64_kind 2
      ∷ [])

abbrev pub ls_delete_then_insert_bot_profile_info_v2 : Schema
ls_delete_then_insert_bot_profile_info_v2 = recorded "LSDeleteThenInsertBotProfileInfoV2" (
    column "BotID" int64_kind 0
    ∷ column "IsCreatedByViewer" bool_kind 1
    ∷ column "TintColor" int64_kind 2
    ∷ column "ShortDescription" string_kind 3
    ∷ column "Description" string_kind 4
    ∷ [])

abbrev pub ls_handle_sync_failure : Schema
ls_handle_sync_failure =
    recorded "LSHandleSyncFailure"
      (column "DatabaseID" int64_kind 0 ∷ column "ErrorMessage" string_kind 1 ∷ [])
