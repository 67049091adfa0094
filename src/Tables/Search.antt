-- ===== src/Tables/Search.antt =====
-- pkg/messagix/table/search.go: the rows of searches.
use meta_matrix_bridge.Prelude.{[], ◌∷◌}
use meta_matrix_bridge.Lightspeed.{Schema, int64_kind, string_kind, bool_kind}
use meta_matrix_bridge.Tables.{column, recorded}

abbrev pub ls_update_search_query_status : Schema
ls_update_search_query_status = recorded "LSUpdateSearchQueryStatus" (
    column "Query" string_kind 0
    ∷ column "Unknown" int64_kind 1
    ∷ column "StatusSecondary" int64_kind 2
    ∷ column "EndTimeMs" int64_kind 3
    ∷ column "ResultCount" int64_kind 4
    ∷ [])

abbrev pub ls_insert_search_result : Schema
ls_insert_search_result = recorded "LSInsertSearchResult" (
    column "Query" string_kind 0
    ∷ column "ResultId" string_kind 1
    ∷ column "GlobalIndex" int64_kind 2
    ∷ column "Type_" int64_kind 3
    ∷ column "ThreadType" int64_kind 4
    ∷ column "DisplayName" string_kind 5
    ∷ column "ProfilePicUrl" string_kind 6
    ∷ column "SecondaryProfilePicUrl" string_kind 7
    ∷ column "ContextLine" string_kind 8
    ∷ column "MessageId" string_kind 9
    ∷ column "MessageTimestampMs" int64_kind 10
    ∷ column "BlockedByViewerStatus" int64_kind 11
    ∷ column "IsVerified" bool_kind 12
    ∷ column "IsInteropEligible" bool_kind 13
    ∷ column "RestrictionType" int64_kind 14
    ∷ column "IsGroupsXacEligible" bool_kind 15
    ∷ column "IsInvitedToCmChannel" bool_kind 16
    ∷ column "IsEligibleForCmInvite" bool_kind 17
    ∷ column "CanViewerMessage" bool_kind 18
    ∷ column "IsWaAddressable" bool_kind 19
    ∷ column "WaEligibility" int64_kind 20
    ∷ column "IsArmadilloTlcEligible" bool_kind 21
    ∷ column "CommunityId" int64_kind 22
    ∷ column "OtherUserId" int64_kind 23
    ∷ column "ThreadJoinLinkHash" int64_kind 24
    ∷ column "SupportsE2eeSpamdStorage" bool_kind 25
    ∷ column "DefaultE2eeThreads" bool_kind 26
    ∷ column "IsRestrictedByViewer" bool_kind 27
    ∷ column "DefaultE2eeThreadOneToOne" bool_kind 28
    ∷ column "HasCutoverThread" bool_kind 29
    ∷ column "IsViewerUnconnected" bool_kind 30
    ∷ column "ResultIgid" string_kind 31
    ∷ column "SecondaryContextLine" string_kind 32
    ∷ column "IsInstamadilloCutover" bool_kind 33
    ∷ column "IsDisappearingModeSettingOn" bool_kind 34
    ∷ [])

abbrev pub ls_insert_search_section : Schema
ls_insert_search_section = recorded "LSInsertSearchSection" (
    column "Query" string_kind 0
    ∷ column "GlobalIndex" int64_kind 1
    ∷ column "DisplayName" string_kind 2
    ∷ column "AnalyticsName" string_kind 3
    ∷ column "StartIndex" int64_kind 4
    ∷ column "EndIndex" int64_kind 5
    ∷ [])
