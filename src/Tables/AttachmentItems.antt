-- ===== src/Tables/AttachmentItems.antt =====
-- pkg/messagix/table/attachments.go: the rows of attachments after LSInsertXmaAttachment.
use meta_matrix_bridge.Prelude.{[], ◌∷◌}
use meta_matrix_bridge.Lightspeed.{Schema, int64_kind, string_kind, bool_kind, float64_kind}
use meta_matrix_bridge.Tables.{column, recorded, unrecorded}

abbrev pub ls_add_poll_for_thread : Schema
ls_add_poll_for_thread = recorded "LSAddPollForThread" (
    column "PollID" int64_kind 0
    ∷ column "ThreadKey" int64_kind 1
    ∷ column "LastUpdateMessageID" string_kind 2
    ∷ column "LastUpdateMessageTimestampMS" int64_kind 3
    ∷ column "LastUpdateMessageEventType" int64_kind 4
    ∷ [])

abbrev pub ls_add_poll_option : Schema
ls_add_poll_option = recorded "LSAddPollOption" (
    column "OptionID" int64_kind 0
    ∷ column "PollID" int64_kind 1
    ∷ column "OptionText" string_kind 2
    ∷ column "SortKeyVotingTimestamp" int64_kind 3
    ∷ column "SortKeyCreationTimestamp" int64_kind 4
    ∷ [])

abbrev pub ls_add_poll_vote : Schema
ls_add_poll_vote = unrecorded "LSAddPollVote" (
    column "OptionID" int64_kind 0
    ∷ column "PollID" int64_kind 1
    ∷ column "ContactID" int64_kind 2
    ∷ column "TimestampMS" int64_kind 3
    ∷ column "VoteCount" int64_kind 4
    ∷ column "ThreadKey" int64_kind 5
    ∷ column "MessageID" string_kind 6
    ∷ column "UnknownInt" int64_kind 7
    ∷ [])

abbrev pub ls_insert_blob_attachment : Schema
ls_insert_blob_attachment = recorded "LSInsertBlobAttachment" (
    column "Filename" string_kind 0
    ∷ column "Filesize" int64_kind 1
    ∷ column "HasMedia" bool_kind 2
    ∷ column "PlayableUrl" string_kind 3
    ∷ column "PlayableUrlFallback" string_kind 4
    ∷ column "PlayableUrlExpirationTimestampMs" int64_kind 5
    ∷ column "PlayableUrlMimeType" string_kind 6
    ∷ column "DashManifest" string_kind 7
    ∷ column "PreviewUrl" string_kind 8
    ∷ column "PreviewUrlFallback" string_kind 9
    ∷ column "PreviewUrlExpirationTimestampMs" int64_kind 10
    ∷ column "PreviewUrlMimeType" string_kind 11
    ∷ column "UnknownExpirationTimestamp" int64_kind 12
    ∷ column "MiniPreview" int64_kind 13
    ∷ column "PreviewWidth" int64_kind 14
    ∷ column "PreviewHeight" int64_kind 15
    ∷ column "AttributionAppId" int64_kind 16
    ∷ column "AttributionAppName" string_kind 17
    ∷ column "AttributionAppIcon" string_kind 18
    ∷ column "AttributionAppIconFallback" int64_kind 19
    ∷ column "AttributionAppIconUrlExpirationTimestampMs" int64_kind 20
    ∷ column "LocalPlayableUrl" int64_kind 21
    ∷ column "PlayableDurationMs" int64_kind 22
    ∷ column "AttachmentIndex" int64_kind 23
    ∷ column "AccessibilitySummaryText" int64_kind 24
    ∷ column "IsPreviewImage" bool_kind 25
    ∷ column "OriginalFileHash" string_kind 26
    ∷ column "ThreadKey" int64_kind 27
    ∷ column "AttachmentType" int64_kind 29
    ∷ column "AttachmentMimeType" string_kind 30
    ∷ column "TimestampMs" int64_kind 31
    ∷ column "MessageId" string_kind 32
    ∷ column "OfflineAttachmentId" string_kind 33
    ∷ column "AttachmentFbid" string_kind 34
    ∷ column "HasXma" bool_kind 35
    ∷ column "XmaLayoutType" int64_kind 36
    ∷ column "XmasTemplateType" int64_kind 37
    ∷ column "TitleText" string_kind 38
    ∷ column "SubtitleText" string_kind 39
    ∷ column "DescriptionText" string_kind 40
    ∷ column "SourceText" string_kind 41
    ∷ column "FaviconUrlExpirationTimestampMs" int64_kind 42
    ∷ column "IsBorderless" bool_kind 44
    ∷ column "PreviewUrlLarge" string_kind 45
    ∷ column "SamplingFrequencyHz" int64_kind 46
    ∷ column "WaveformData" string_kind 47
    ∷ column "AuthorityLevel" int64_kind 48
    ∷ [])

abbrev pub ls_insert_attachment_item : Schema
ls_insert_attachment_item = recorded "LSInsertAttachmentItem" (
    column "AttachmentFbid" string_kind 0
    ∷ column "AttachmentIndex" int64_kind 1
    ∷ column "ThreadKey" int64_kind 2
    ∷ column "MessageId" string_kind 4
    ∷ column "OriginalPageSenderId" int64_kind 7
    ∷ column "TitleText" string_kind 8
    ∷ column "SubtitleText" string_kind 9
    ∷ column "PlayableUrl" string_kind 13
    ∷ column "PlayableUrlFallback" string_kind 14
    ∷ column "PlayableUrlExpirationTimestampMs" int64_kind 15
    ∷ column "PlayableUrlMimeType" string_kind 16
    ∷ column "DashManifest" string_kind 17
    ∷ column "PreviewUrl" string_kind 18
    ∷ column "PreviewUrlFallback" string_kind 19
    ∷ column "PreviewUrlExpirationTimestampMs" int64_kind 20
    ∷ column "PreviewUrlMimeType" string_kind 21
    ∷ column "PreviewWidth" int64_kind 22
    ∷ column "PreviewHeight" int64_kind 23
    ∷ column "ImageUrl" string_kind 24
    ∷ column "DefaultCtaId" int64_kind 25
    ∷ column "DefaultCtaTitle" string_kind 26
    ∷ column "DefaultCtaType" int64_kind 27
    ∷ column "DefaultButtonType" int64_kind 29
    ∷ column "DefaultActionUrl" string_kind 30
    ∷ column "DefaultActionEnableExtensions" bool_kind 31
    ∷ column "DefaultWebviewHeightRatio" int64_kind 33
    ∷ column "AttachmentCta1Id" int64_kind 35
    ∷ column "Cta1Title" string_kind 36
    ∷ column "Cta1IconType" int64_kind 37
    ∷ column "Cta1Type" string_kind 38
    ∷ column "AttachmentCta2Id" int64_kind 40
    ∷ column "Cta2Title" string_kind 41
    ∷ column "Cta2IconType" int64_kind 42
    ∷ column "Cta2Type" string_kind 43
    ∷ column "AttachmentCta3Id" int64_kind 45
    ∷ column "Cta3Title" string_kind 46
    ∷ column "Cta3IconType" int64_kind 47
    ∷ column "Cta3Type" string_kind 48
    ∷ column "FaviconUrl" string_kind 49
    ∷ column "FaviconUrlFallback" string_kind 50
    ∷ column "FaviconUrlExpirationTimestampMs" int64_kind 51
    ∷ column "PreviewUrlLarge" string_kind 52
    ∷ [])

abbrev pub ls_get_first_available_attachment_ctaid : Schema
ls_get_first_available_attachment_ctaid = recorded "LSGetFirstAvailableAttachmentCTAID" []

abbrev pub ls_insert_attachment_cta : Schema
ls_insert_attachment_cta = recorded "LSInsertAttachmentCta" (
    column "CtaId" int64_kind 0
    ∷ column "AttachmentFbid" string_kind 1
    ∷ column "AttachmentIndex" int64_kind 2
    ∷ column "ThreadKey" int64_kind 3
    ∷ column "MessageId" string_kind 5
    ∷ column "Title" string_kind 6
    ∷ column "Type_" string_kind 7
    ∷ column "PlatformToken" string_kind 8
    ∷ column "ActionUrl" string_kind 9
    ∷ column "NativeUrl" string_kind 10
    ∷ column "UrlWebviewType" int64_kind 11
    ∷ column "ActionContentBlob" string_kind 12
    ∷ column "EnableExtensions" bool_kind 13
    ∷ column "ExtensionHeightType" int64_kind 14
    ∷ column "TargetId" int64_kind 15
    ∷ [])

abbrev pub ls_update_attachment_item_cta_at_index : Schema
ls_update_attachment_item_cta_at_index = recorded "LSUpdateAttachmentItemCtaAtIndex" (
    column "AttachmentFbid" string_kind 0
    ∷ column "Unknown" int64_kind 1
    ∷ column "AttachmentCtaId" int64_kind 2
    ∷ column "CtaTitle" string_kind 3
    ∷ column "CtaType" string_kind 4
    ∷ column "Index" int64_kind 5
    ∷ [])

abbrev pub ls_update_attachment_cta_at_index_ignoring_authority : Schema
ls_update_attachment_cta_at_index_ignoring_authority =
    recorded "LSUpdateAttachmentCtaAtIndexIgnoringAuthority" (
      column "ThreadKey" int64_kind 0
      ∷ column "MessageId" string_kind 1
      ∷ column "AttachmentFbid" string_kind 2
      ∷ column "AttachmentCtaId" int64_kind 3
      ∷ column "CtaTitle" string_kind 4
      ∷ column "CtaType" string_kind 5
      ∷ column "Index" int64_kind 6
      ∷ [])

abbrev pub ls_has_matching_attachment_cta : Schema
ls_has_matching_attachment_cta =
    recorded "LSHasMatchingAttachmentCTA"
      (column "ThreadKey" int64_kind 0 ∷ column "AttachmentFbid" string_kind 1 ∷ [])

abbrev pub ls_upsert_live_location_sharer : Schema
ls_upsert_live_location_sharer = recorded "LSUpsertLiveLocationSharer" (
    column "ThreadKey" int64_kind 0
    ∷ column "Sender" int64_kind 1
    ∷ column "Latitude" float64_kind 2
    ∷ column "Longitude" float64_kind 3
    ∷ column "StartTimestampMS" int64_kind 4
    ∷ column "EndTimestampMS" int64_kind 5
    ∷ [])

abbrev pub ls_delete_live_location_sharer : Schema
ls_delete_live_location_sharer =
    recorded "LSDeleteLiveLocationSharer"
      (column "ThreadKey" int64_kind 0 ∷ column "Sender" int64_kind 1 ∷ [])

abbrev pub ls_update_shared_album_on_message_recall : Schema
ls_update_shared_album_on_message_recall =
    recorded "LSUpdateSharedAlbumOnMessageRecall"
      (column "ThreadKey" int64_kind 0 ∷ column "MessageId" string_kind 1 ∷ [])
