-- ===== src/Tables/Folders.antt =====
-- pkg/messagix/table/folders.go: the rows of folders.
use meta_matrix_bridge.Prelude.{[], ◌∷◌}
use meta_matrix_bridge.Lightspeed.{Schema, int64_kind, string_kind}
use meta_matrix_bridge.Tables.{column, recorded}

abbrev pub ls_upsert_folder : Schema
ls_upsert_folder = recorded "LSUpsertFolder" (
    column "ThreadKey" int64_kind 0
    ∷ column "ThreadName" string_kind 1
    ∷ column "ThreadPictureURL" string_kind 2
    ∷ column "LastActivityTimestampMS" int64_kind 3
    ∷ column "LastReadWatermarkTimestampMS" int64_kind 4
    ∷ [])

abbrev pub ls_upsert_folder_seen_timestamp : Schema
ls_upsert_folder_seen_timestamp =
    recorded "LSUpsertFolderSeenTimestamp" (
      column "ParentThreadKey" int64_kind 0 ∷ column "LastSeenRequestTimestampMs" int64_kind 1 ∷ [])
