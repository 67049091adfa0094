-- ===== src/Tables.antt =====
-- pkg/messagix/table: the rows that the server sends, as the decoder of the steps reads them from the tags of their
-- structs. Every struct is a schema: its fields with their kinds and indices, and whether it has the field
-- `Unrecognized`. An enumeration of enums.go has the kind int64.
pub mod Threads
pub mod ThreadSnippets
pub mod ThreadUpdates
pub mod ThreadMoves
pub mod Messages
pub mod MessageRanges
pub mod Reactions
pub mod MessageUpdates
pub mod Attachments
pub mod XmaAttachments
pub mod AttachmentItems
pub mod Contacts
pub mod SyncGroups
pub mod Search
pub mod Folders
pub mod Tasks
pub mod Registry
pub mod Procedures
pub mod Lookup
use meta_matrix_bridge.Prelude.{ℕ, List, true, false}
use meta_matrix_bridge.Lightspeed.{GoKind, at, condition, FieldInfo, Schema}
use Prim.Native.String.{String}

-- A field with the tag `index`, and one with the tags `conditionField` and `indexes`.
abbrev pub column : String → GoKind → ℕ → FieldInfo
column name kind i = record { name = name; kind = kind; index = at i }

abbrev pub chosen_column : String → GoKind → String → String → FieldInfo
chosen_column name kind field indexes = record {
  name = name;
  kind = kind;
  index = condition field indexes;
}

-- A struct with the field `Unrecognized`, and one without.
abbrev pub recorded : String → List FieldInfo → Schema
recorded name fields = record { name = name; fields = fields; unrecognized = true }

abbrev pub unrecorded : String → List FieldInfo → Schema
unrecorded name fields = record { name = name; fields = fields; unrecognized = false }
