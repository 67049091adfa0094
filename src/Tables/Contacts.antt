-- ===== src/Tables/Contacts.antt =====
-- pkg/messagix/table/contacts.go: the rows of contacts.
use meta_matrix_bridge.Prelude.{[], ◌∷◌}
use meta_matrix_bridge.Lightspeed.{Schema, int64_kind, string_kind, bool_kind, float64_kind}
use meta_matrix_bridge.Tables.{column, recorded}

abbrev pub ls_verify_contact_row_exists : Schema
ls_verify_contact_row_exists = recorded "LSVerifyContactRowExists" (
    column "ContactId" int64_kind 0
    ∷ column "ContactIdType" int64_kind 1
    ∷ column "ProfilePictureUrl" string_kind 2
    ∷ column "Name" string_kind 3
    ∷ column "ContactType" int64_kind 4
    ∷ column "ProfilePictureFallbackUrl" string_kind 5
    ∷ column "ProfilePictureUrlExpirationTimestampMs" int64_kind 6
    ∷ column "UrlExpirationTimestampMs" int64_kind 7
    ∷ column "NormalizedNameForSearch" string_kind 8
    ∷ column "IsMemorialized" bool_kind 9
    ∷ column "IsBlocked" bool_kind 10
    ∷ column "BlockedByViewerStatus" int64_kind 11
    ∷ column "CanViewerMessage" bool_kind 12
    ∷ column "IsSelf" bool_kind 13
    ∷ column "AuthorityLevel" int64_kind 14
    ∷ column "Capabilities" int64_kind 15
    ∷ column "Capabilities2" int64_kind 16
    ∷ column "WorkForeignEntityType" int64_kind 17
    ∷ column "Gender" int64_kind 18
    ∷ column "ContactViewerRelationship" int64_kind 19
    ∷ column "SecondaryName" string_kind 20
    ∷ column "FirstName" string_kind 21
    ∷ [])

abbrev pub ls_delete_then_insert_contact : Schema
ls_delete_then_insert_contact = recorded "LSDeleteThenInsertContact" (
    column "Id" int64_kind 0
    ∷ column "ProfilePictureUrl" string_kind 2
    ∷ column "ProfilePictureFallbackUrl" string_kind 3
    ∷ column "ProfilePictureUrlExpirationTimestampMs" int64_kind 4
    ∷ column "ProfilePictureLargeUrl" string_kind 5
    ∷ column "ProfilePictureLargeFallbackUrl" string_kind 6
    ∷ column "ProfilePictureLargeUrlExpirationTimestampMs" int64_kind 7
    ∷ column "Name" string_kind 9
    ∷ column "NormalizedNameForSearch" string_kind 10
    ∷ column "IsMessengerUser" bool_kind 11
    ∷ column "IsMemorialized" bool_kind 12
    ∷ column "BlockedByViewerStatus" int64_kind 14
    ∷ column "Rank" float64_kind 17
    ∷ column "FirstName" string_kind 18
    ∷ column "ContactType" int64_kind 19
    ∷ column "ContactTypeExact" int64_kind 20
    ∷ column "AuthorityLevel" int64_kind 21
    ∷ column "MessengerCallLogThirdPartyId" string_kind 22
    ∷ column "ProfileRingColor" int64_kind 23
    ∷ column "RequiresMultiway" bool_kind 24
    ∷ column "BlockedSinceTimestampMs" int64_kind 25
    ∷ column "CanViewerMessage" bool_kind 26
    ∷ column "ProfileRingColorExpirationTimestampMs" int64_kind 27
    ∷ column "PhoneNumber" int64_kind 28
    ∷ column "EmailAddress" string_kind 29
    ∷ column "WorkCompanyId" int64_kind 30
    ∷ column "WorkCompanyName" string_kind 31
    ∷ column "WorkJobTitle" string_kind 32
    ∷ column "NormalizedSearchTerms" string_kind 33
    ∷ column "DeviceContactId" int64_kind 34
    ∷ column "IsManagedByViewer" bool_kind 35
    ∷ column "WorkForeignEntityType" int64_kind 36
    ∷ column "Capabilities" int64_kind 37
    ∷ column "Capabilities2" int64_kind 38
    ∷ column "ContactViewerRelationship" int64_kind 39
    ∷ column "Gender" int64_kind 40
    ∷ column "SecondaryName" string_kind 41
    ∷ column "Username" string_kind 43
    ∷ column "ContactReachabilityStatusType" int64_kind 44
    ∷ column "RestrictionType" int64_kind 45
    ∷ column "WaConnectStatus" int64_kind 46
    ∷ column "FbUnblockedSinceTimestampMs" int64_kind 47
    ∷ column "PageType" int64_kind 48
    ∷ [])

abbrev pub ls_delete_then_insert_contact_presence : Schema
ls_delete_then_insert_contact_presence = recorded "LSDeleteThenInsertContactPresence" (
    column "ContactId" int64_kind 0
    ∷ column "Status" int64_kind 1
    ∷ column "LastActiveTimestampMs" int64_kind 2
    ∷ column "ExpirationTimestampMs" int64_kind 3
    ∷ column "Capabilities" int64_kind 4
    ∷ column "PublishId" string_kind 5
    ∷ [])

abbrev pub ls_delete_then_insert_ig_contact_info : Schema
ls_delete_then_insert_ig_contact_info = recorded "LSDeleteThenInsertIGContactInfo" (
    column "ContactId" int64_kind 0
    ∷ column "IgId" string_kind 1
    ∷ column "LinkedFbid" int64_kind 2
    ∷ column "IgFollowStatus" int64_kind 4
    ∷ column "VerificationStatus" int64_kind 5
    ∷ column "E2eeEligibility" int64_kind 6
    ∷ column "SupportsE2eeSpamdStorage" bool_kind 7
    ∷ [])

abbrev pub ls_verify_contact_participant_exist : Schema
ls_verify_contact_participant_exist = recorded "LSVerifyContactParticipantExist" (
    column "ContactID" int64_kind 0
    ∷ column "ThreadKey" int64_kind 1
    ∷ column "Name" string_kind 2
    ∷ [])

abbrev pub ls_verify_community_member_contextual_profile_exists : Schema
ls_verify_community_member_contextual_profile_exists =
    recorded "LSVerifyCommunityMemberContextualProfileExists"
      (column "ContactID" int64_kind 0 ∷ column "CommunityID" int64_kind 1 ∷ [])

abbrev pub ls_insert_community_member : Schema
ls_insert_community_member = recorded "LSInsertCommunityMember" (
    column "CommunityID" int64_kind 0
    ∷ column "ContactID" int64_kind 1
    ∷ column "Name" string_kind 2
    ∷ column "ProfilePictureURL" string_kind 3
    ∷ column "IsAdmin" bool_kind 4
    ∷ column "IsBlocked" bool_kind 5
    ∷ column "ProfilePictureURLFallback" string_kind 6
    ∷ column "ProfilePictureURLExpirationTimestampMS" int64_kind 7
    ∷ column "FirstName" string_kind 8
    ∷ column "IsModerator" bool_kind 9
    ∷ column "IsMuted" bool_kind 10
    ∷ column "IsBlockedFromCommunity" bool_kind 11
    ∷ column "Source" int64_kind 12
    ∷ column "Subtitle" string_kind 13
    ∷ column "IsEligibleForCMInvite" bool_kind 14
    ∷ column "Nickname" string_kind 15
    ∷ column "ThreadRole" int64_kind 16
    ∷ column "ContactCapabilities" int64_kind 17
    ∷ column "ThreadRoles" int64_kind 18
    ∷ [])

abbrev pub ls_update_or_insert_community_member : Schema
ls_update_or_insert_community_member = recorded "LSUpdateOrInsertCommunityMember" (
    column "CommunityID" int64_kind 0
    ∷ column "ContactID" int64_kind 1
    ∷ column "Name" string_kind 2
    ∷ column "FirstName" string_kind 3
    ∷ column "ProfilePictureURL" string_kind 4
    ∷ column "ProfilePictureURLExpirationTimestampMS" int64_kind 5
    ∷ column "ProfilePictureURLFallback" string_kind 6
    ∷ column "IsBlocked" bool_kind 7
    ∷ column "IsAdmin" bool_kind 8
    ∷ column "IsBlockedFromCommunity" bool_kind 9
    ∷ column "IsMuted" bool_kind 10
    ∷ column "IsCommunityMember" bool_kind 11
    ∷ column "IsModerator" bool_kind 13
    ∷ column "FetchingInfoTaskID" int64_kind 14
    ∷ column "AdminActions" int64_kind 15
    ∷ column "Source" int64_kind 16
    ∷ column "Nickname" string_kind 17
    ∷ column "ContactCapabilities" int64_kind 18
    ∷ column "ThreadRoles" int64_kind 19
    ∷ [])

abbrev pub ls_upsert_community_member_ranges : Schema
ls_upsert_community_member_ranges = recorded "LSUpsertCommunityMemberRanges" (
    column "CommunityID" int64_kind 0
    ∷ column "HasMoreAfter" bool_kind 3
    ∷ column "IsLoadingAfter" bool_kind 4
    ∷ column "NextPageCursor" string_kind 5
    ∷ column "MaxName" string_kind 6
    ∷ column "Source" int64_kind 7
    ∷ [])
