-- ===== src/Tables/XmaAttachments.antt =====
-- pkg/messagix/table/attachments.go: LSInsertXmaAttachment.
use meta_matrix_bridge.Prelude.{[], ◌∷◌}
use meta_matrix_bridge.Lightspeed.{Schema, int64_kind, string_kind, bool_kind, interface_kind}
use meta_matrix_bridge.Tables.{column, recorded}

abbrev pub ls_insert_xma_attachment : Schema
ls_insert_xma_attachment = recorded "LSInsertXmaAttachment" (
    column "Filename" string_kind 1
    ∷ column "Filesize" int64_kind 2
    ∷ column "IsSharable" bool_kind 3
    ∷ column "PlayableUrl" string_kind 4
    ∷ column "PlayableUrlFallback" string_kind 5
    ∷ column "PlayableUrlExpirationTimestampMs" int64_kind 6
    ∷ column "PlayableUrlMimeType" string_kind 7
    ∷ column "PreviewUrl" string_kind 8
    ∷ column "PreviewUrlFallback" string_kind 9
    ∷ column "PreviewUrlExpirationTimestampMs" int64_kind 10
    ∷ column "PreviewUrlMimeType" string_kind 11
    ∷ column "PreviewWidth" int64_kind 13
    ∷ column "PreviewHeight" int64_kind 14
    ∷ column "AttributionAppId" int64_kind 15
    ∷ column "AttributionAppName" string_kind 16
    ∷ column "AttributionAppIcon" int64_kind 17
    ∷ column "AttributionAppIconFallback" string_kind 18
    ∷ column "AttributionAppIconUrlExpirationTimestampMs" int64_kind 19
    ∷ column "AttachmentIndex" int64_kind 20
    ∷ column "AccessibilitySummaryText" string_kind 21
    ∷ column "ShouldRespectServerPreviewSize" bool_kind 22
    ∷ column "SubtitleIconUrl" string_kind 23
    ∷ column "ShouldAutoplayVideo" bool_kind 24
    ∷ column "ThreadKey" int64_kind 25
    ∷ column "AttachmentType" int64_kind 27
    ∷ column "TimestampMs" int64_kind 29
    ∷ column "MessageId" string_kind 30
    ∷ column "OfflineAttachmentId" int64_kind 31
    ∷ column "AttachmentFbid" string_kind 32
    ∷ column "XmaLayoutType" int64_kind 33
    ∷ column "XmasTemplateType" int64_kind 34
    ∷ column "CollapsibleId" int64_kind 35
    ∷ column "DefaultCtaId" int64_kind 36
    ∷ column "DefaultCtaTitle" string_kind 37
    ∷ column "DefaultCtaType" int64_kind 38
    ∷ column "AttachmentCta1Id" int64_kind 40
    ∷ column "Cta1Title" string_kind 41
    ∷ column "Cta1IconType" int64_kind 42
    ∷ column "Cta1Type" string_kind 43
    ∷ column "AttachmentCta2Id" int64_kind 45
    ∷ column "Cta2Title" string_kind 46
    ∷ column "Cta2IconType" int64_kind 47
    ∷ column "Cta2Type" string_kind 48
    ∷ column "AttachmentCta3Id" int64_kind 50
    ∷ column "Cta3Title" string_kind 51
    ∷ column "Cta3IconType" int64_kind 52
    ∷ column "Cta3Type" string_kind 53
    ∷ column "ImageUrl" string_kind 54
    ∷ column "ImageUrlFallback" string_kind 55
    ∷ column "ImageUrlExpirationTimestampMs" int64_kind 56
    ∷ column "ActionUrl" string_kind 57
    ∷ column "TitleText" string_kind 58
    ∷ column "SubtitleText" string_kind 59
    ∷ column "SubtitleDecorationType" int64_kind 60
    ∷ column "MaxTitleNumOfLines" int64_kind 61
    ∷ column "MaxSubtitleNumOfLines" int64_kind 62
    ∷ column "DescriptionText" string_kind 63
    ∷ column "SourceText" string_kind 64
    ∷ column "FaviconUrl" string_kind 65
    ∷ column "FaviconUrlFallback" string_kind 66
    ∷ column "FaviconUrlExpirationTimestampMs" int64_kind 67
    ∷ column "ListItemsId" int64_kind 69
    ∷ column "ListItemsDescriptionText" string_kind 70
    ∷ column "ListItemsDescriptionSubtitleText" string_kind 71
    ∷ column "ListItemsSecondaryDescriptionText" string_kind 72
    ∷ column "ListItemId1" int64_kind 73
    ∷ column "ListItemTitleText1" string_kind 74
    ∷ column "ListItemContactUrlList1" string_kind 75
    ∷ column "ListItemProgressBarFilledPercentage1" int64_kind 76
    ∷ column "ListItemContactUrlExpirationTimestampList1" string_kind 77
    ∷ column "ListItemContactUrlFallbackList1" string_kind 78
    ∷ column "ListItemAccessibilityText1" string_kind 79
    ∷ column "ListItemTotalCount1" int64_kind 80
    ∷ column "ListItemId2" int64_kind 81
    ∷ column "ListItemTitleText2" string_kind 82
    ∷ column "ListItemContactUrlList2" string_kind 83
    ∷ column "ListItemProgressBarFilledPercentage2" int64_kind 84
    ∷ column "ListItemContactUrlExpirationTimestampList2" string_kind 85
    ∷ column "ListItemContactUrlFallbackList2" string_kind 86
    ∷ column "ListItemAccessibilityText2" string_kind 87
    ∷ column "ListItemTotalCount2" int64_kind 88
    ∷ column "ListItemId3" int64_kind 89
    ∷ column "ListItemTitleText3" string_kind 90
    ∷ column "ListItemContactUrlList3" string_kind 91
    ∷ column "ListItemProgressBarFilledPercentage3" int64_kind 92
    ∷ column "ListItemContactUrlExpirationTimestampList3" string_kind 93
    ∷ column "ListItemContactUrlFallbackList3" string_kind 94
    ∷ column "ListItemAccessibilityText3" string_kind 95
    ∷ column "ListItemTotalCount3" int64_kind 96
    ∷ column "IsBorderless" bool_kind 100
    ∷ column "HeaderImageUrlMimeType" string_kind 101
    ∷ column "HeaderTitle" string_kind 102
    ∷ column "HeaderSubtitleText" string_kind 103
    ∷ column "HeaderImageUrl" string_kind 104
    ∷ column "HeaderImageUrlFallback" string_kind 105
    ∷ column "HeaderImageUrlExpirationTimestampMs" int64_kind 106
    ∷ column "PreviewImageDecorationType" int64_kind 107
    ∷ column "ShouldHighlightHeaderTitleInTitle" bool_kind 108
    ∷ column "TargetId" int64_kind 109
    ∷ column "XMATypeOne" string_kind 110
    ∷ column "XMATypeTwo" string_kind 111
    ∷ column "AttachmentLoggingType" int64_kind 112
    ∷ column "PreviewUrlLarge" string_kind 114
    ∷ column "BodyText" string_kind 115
    ∷ column "GatingType" int64_kind 116
    ∷ column "GatingTitle" string_kind 117
    ∷ column "TargetExpiryTimestampMs" int64_kind 118
    ∷ column "CountdownTimestampMs" int64_kind 119
    ∷ column "ShouldBlurSubattachments" int64_kind 120
    ∷ column "FooterTitle" string_kind 121
    ∷ column "VerifiedType" int64_kind 122
    ∷ column "CaptionBodyText" string_kind 123
    ∷ column "IsPublicXma" bool_kind 124
    ∷ column "ReplyCount" int64_kind 125
    ∷ column "PlayableAudioURL" string_kind 126
    ∷ column "XmaDataclass" string_kind 127
    ∷ column "PreviewOverlayCountdownExpiry" string_kind 128
    ∷ column "StickerType" interface_kind 129
    ∷ column "LoggingGenericXMAContentType" string_kind 130
    ∷ column "LoggingGenericXMAContentIDV2" string_kind 131
    ∷ column "AuthorityLevel" int64_kind 132
    ∷ [])
