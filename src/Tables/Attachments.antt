-- ===== src/Tables/Attachments.antt =====
-- pkg/messagix/table/attachments.go: the rows of attachments, to LSInsertStickerAttachment.
use meta_matrix_bridge.Prelude.{[], ◌∷◌}
use meta_matrix_bridge.Lightspeed.{Schema, int64_kind, string_kind, bool_kind, interface_kind}
use meta_matrix_bridge.Tables.{column, recorded}

abbrev pub ls_insert_attachment : Schema
ls_insert_attachment = recorded "LSInsertAttachment" (
    column "Filename" string_kind 1
    ∷ column "Filesize" int64_kind 2
    ∷ column "HasMedia" bool_kind 3
    ∷ column "IsSharable" bool_kind 4
    ∷ column "PlayableUrl" string_kind 5
    ∷ column "PlayableUrlFallback" string_kind 6
    ∷ column "PlayableUrlExpirationTimestampMs" int64_kind 7
    ∷ column "PlayableUrlMimeType" string_kind 8
    ∷ column "DashManifest" interface_kind 9
    ∷ column "PreviewUrl" string_kind 10
    ∷ column "PreviewUrlFallback" string_kind 11
    ∷ column "PreviewUrlExpirationTimestampMs" int64_kind 12
    ∷ column "PreviewUrlMimeType" string_kind 13
    ∷ column "UnknownExpirationTimestamp" int64_kind 14
    ∷ column "MiniPreview" interface_kind 15
    ∷ column "PreviewWidth" int64_kind 16
    ∷ column "PreviewHeight" int64_kind 17
    ∷ column "ImageUrlMimeType" string_kind 18
    ∷ column "AttributionAppId" int64_kind 19
    ∷ column "AttributionAppName" string_kind 20
    ∷ column "AttributionAppIcon" string_kind 21
    ∷ column "AttributionAppIconFallback" string_kind 22
    ∷ column "AttributionAppIconUrlExpirationTimestampMs" int64_kind 23
    ∷ column "LocalPlayableUrl" string_kind 24
    ∷ column "PlayableDurationMs" int64_kind 25
    ∷ column "AttachmentIndex" int64_kind 26
    ∷ column "DecryptionKey" string_kind 27
    ∷ column "AccessibilitySummaryText" string_kind 28
    ∷ column "IsPreviewImage" bool_kind 29
    ∷ column "OriginalFileHash" string_kind 30
    ∷ column "ShouldRespectServerPreviewSize" bool_kind 31
    ∷ column "ThreadKey" int64_kind 32
    ∷ column "UnknownInt64_33" int64_kind 33
    ∷ column "AttachmentType" int64_kind 34
    ∷ column "AttachmentMimeType" string_kind 35
    ∷ column "TimestampMs" int64_kind 36
    ∷ column "MessageId" string_kind 37
    ∷ column "OfflineAttachmentId" string_kind 38
    ∷ column "AttachmentFbid" string_kind 39
    ∷ column "HasXma" bool_kind 40
    ∷ column "XmaLayoutType" int64_kind 41
    ∷ column "XmasTemplateType" int64_kind 42
    ∷ column "CollapsibleId" int64_kind 43
    ∷ column "DefaultCtaId" int64_kind 44
    ∷ column "DefaultCtaTitle" string_kind 45
    ∷ column "DefaultCtaType" int64_kind 46
    ∷ column "AttachmentCta1Id" int64_kind 48
    ∷ column "Cta1Title" string_kind 49
    ∷ column "Cta1IconType" int64_kind 50
    ∷ column "Cta1Type" string_kind 51
    ∷ column "AttachmentCta2Id" int64_kind 53
    ∷ column "Cta2Title" string_kind 54
    ∷ column "Cta2IconType" int64_kind 55
    ∷ column "Cta2Type" string_kind 56
    ∷ column "AttachmentCta3Id" int64_kind 58
    ∷ column "Cta3Title" string_kind 59
    ∷ column "Cta3IconType" int64_kind 60
    ∷ column "Cta3Type" string_kind 61
    ∷ column "ImageUrl" string_kind 62
    ∷ column "ImageUrlFallback" string_kind 63
    ∷ column "ImageUrlExpirationTimestampMs" int64_kind 64
    ∷ column "ActionUrl" string_kind 65
    ∷ column "TitleText" string_kind 66
    ∷ column "SubtitleText" string_kind 67
    ∷ column "MaxTitleNumOfLines" int64_kind 68
    ∷ column "MaxSubtitleNumOfLines" int64_kind 69
    ∷ column "DescriptionText" string_kind 70
    ∷ column "SourceText" string_kind 71
    ∷ column "FaviconUrl" string_kind 72
    ∷ column "FaviconUrlFallback" string_kind 73
    ∷ column "FaviconUrlExpirationTimestampMs" int64_kind 74
    ∷ column "OriginalPageSenderId" int64_kind 75
    ∷ column "UnknownInt64_76" int64_kind 76
    ∷ column "ListItemsId" int64_kind 77
    ∷ column "ListItemsDescriptionText" string_kind 78
    ∷ column "ListItemsSecondaryDescriptionText" string_kind 79
    ∷ column "ListItemId1" int64_kind 80
    ∷ column "ListItemTitleText1" string_kind 81
    ∷ column "ListItemContactUrlList1" interface_kind 82
    ∷ column "ListItemProgressBarFilledPercentage1" interface_kind 83
    ∷ column "ListItemContactUrlExpirationTimestampList1" interface_kind 84
    ∷ column "ListItemContactUrlFallbackList1" interface_kind 85
    ∷ column "ListItemTotalCount1" int64_kind 86
    ∷ column "ListItemId2" int64_kind 87
    ∷ column "ListItemTitleText2" string_kind 88
    ∷ column "ListItemContactUrlList2" interface_kind 89
    ∷ column "ListItemProgressBarFilledPercentage2" interface_kind 90
    ∷ column "ListItemContactUrlExpirationTimestampList2" interface_kind 91
    ∷ column "ListItemContactUrlFallbackList2" interface_kind 92
    ∷ column "ListItemTotalCount2" int64_kind 93
    ∷ column "ListItemId3" int64_kind 94
    ∷ column "ListItemTitleText3" string_kind 95
    ∷ column "ListItemContactUrlList3" interface_kind 96
    ∷ column "ListItemProgressBarFilledPercentage3" interface_kind 97
    ∷ column "ListItemContactUrlExpirationTimestampList3" interface_kind 98
    ∷ column "ListItemContactUrlFallbackList3" interface_kind 99
    ∷ column "ListItemTotalCount3" int64_kind 100
    ∷ column "IsBorderless" bool_kind 101
    ∷ column "HeaderImageUrlMimeType" string_kind 102
    ∷ column "HeaderTitle" string_kind 103
    ∷ column "HeaderSubtitleText" string_kind 104
    ∷ column "HeaderImageUrl" string_kind 105
    ∷ column "HeaderImageUrlFallback" string_kind 106
    ∷ column "HeaderImageUrlExpirationTimestampMs" int64_kind 107
    ∷ column "PreviewImageDecorationType" int64_kind 108
    ∷ column "ShouldHighlightHeaderTitleInTitle" bool_kind 109
    ∷ column "TargetId" int64_kind 110
    ∷ column "EphemeralMediaState" int64_kind 114
    ∷ column "EphemeralMediaViewMode" int64_kind 115
    ∷ column "ViewerSeenTimestampMs" int64_kind 116
    ∷ column "BodyText" string_kind 117
    ∷ column "GatingType" int64_kind 118
    ∷ column "GatingTitle" string_kind 119
    ∷ column "TargetExpiryTimestampMs" int64_kind 120
    ∷ column "CountdownTimestampMs" int64_kind 121
    ∷ column "ShouldBlurSubattachments" bool_kind 122
    ∷ column "FooterTitle" string_kind 123
    ∷ column "VerifiedType" int64_kind 124
    ∷ column "IgStoryReplyType" int64_kind 125
    ∷ column "IsAttachmentConsumed" bool_kind 126
    ∷ column "PlayableAudioURL" string_kind 127
    ∷ column "StickerType" interface_kind 128
    ∷ column "LoggingGenericXMAContentType" string_kind 129
    ∷ column "LoggingGenericXMAContentIDV2" string_kind 130
    ∷ column "GIFPlayback" bool_kind 131
    ∷ column "AuthorityLevel" int64_kind 132
    ∷ [])

abbrev pub ls_update_extra_attachment_columns : Schema
ls_update_extra_attachment_columns = recorded "LSUpdateExtraAttachmentColumns" (
    column "ThreadKey" int64_kind 0
    ∷ column "UnknownInt64" int64_kind 1
    ∷ column "MessageID" string_kind 2
    ∷ column "AttachmentFBID" string_kind 3
    ∷ column "ListItemAccessibilityText1" string_kind 4
    ∷ column "ListItemAccessibilityText2" string_kind 5
    ∷ column "ListItemAccessibilityText3" string_kind 6
    ∷ column "AvatarViewURLList" interface_kind 10
    ∷ column "AvatarViewURLExpirationTimestampList" interface_kind 11
    ∷ column "AvatarViewURLFallbackList" interface_kind 12
    ∷ column "AvatarViewTitleList" interface_kind 13
    ∷ column "AvatarViewSize" int64_kind 14
    ∷ column "AvatarCount" int64_kind 15
    ∷ column "AvatarViewContentText" string_kind 16
    ∷ column "SubtitleIconURL" string_kind 17
    ∷ column "AttachmentLoggingType" int64_kind 18
    ∷ column "PreheaderText" string_kind 19
    ∷ column "ShouldAutoplayVideo" bool_kind 20
    ∷ column "PreviewURLLarge" string_kind 21
    ∷ column "PreviewWidthLarge" int64_kind 24
    ∷ column "PreviewHeightLarge" int64_kind 25
    ∷ [])

abbrev pub ls_insert_sticker_attachment : Schema
ls_insert_sticker_attachment = recorded "LSInsertStickerAttachment" (
    column "PlayableUrl" string_kind 0
    ∷ column "PlayableUrlFallback" string_kind 1
    ∷ column "PlayableUrlExpirationTimestampMs" int64_kind 2
    ∷ column "PlayableUrlMimeType" string_kind 3
    ∷ column "PreviewUrl" string_kind 4
    ∷ column "PreviewUrlFallback" string_kind 5
    ∷ column "PreviewUrlExpirationTimestampMs" int64_kind 6
    ∷ column "PreviewUrlMimeType" string_kind 7
    ∷ column "PreviewWidth" int64_kind 9
    ∷ column "PreviewHeight" int64_kind 10
    ∷ column "ImageUrlMimeType" string_kind 11
    ∷ column "AttachmentIndex" int64_kind 12
    ∷ column "AccessibilitySummaryText" string_kind 13
    ∷ column "ThreadKey" int64_kind 14
    ∷ column "TimestampMs" int64_kind 17
    ∷ column "MessageId" string_kind 18
    ∷ column "AttachmentFbid" string_kind 19
    ∷ column "ImageUrl" string_kind 20
    ∷ column "ImageUrlFallback" string_kind 21
    ∷ column "ImageUrlExpirationTimestampMs" int64_kind 22
    ∷ column "FaviconUrlExpirationTimestampMs" int64_kind 23
    ∷ column "AvatarViewSize" int64_kind 25
    ∷ column "AvatarCount" int64_kind 26
    ∷ column "TargetId" int64_kind 27
    ∷ column "MustacheText" string_kind 30
    ∷ column "AuthorityLevel" int64_kind 31
    ∷ [])
