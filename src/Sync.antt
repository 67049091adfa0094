-- ===== src/Sync.antt =====
-- pkg/messagix/syncManager.go: the cursors of the databases. A 64-bit integer stands here as its
-- pattern of bits, a number below 2^64: the code only compares it for equality. A text is the list
-- of its bytes. Both maps hold pointers, so an entry that is changed is changed in place.
pub mod Cursors
pub mod Socket
pub mod Follow
use meta_matrix_bridge.Prelude.{
  ℕ, ◌+◌, ◌-◌, ◌^◌, List, [], ◌∷◌, ◌++◌, Bool, true, false, not, ◌&&◌, ◌||◌, Option, none, some,
  if◌then◌else◌, ◌==◌,
}
use meta_matrix_bridge.Prelude.Text.{codes, text_eq}
use meta_matrix_bridge.Prelude.Assoc.{find, alter}

abbrev pub Cursor : Type 0
Cursor = List ℕ

pub record QueryMetadata : Type 0 where
  pub send_sync_params : Bool
  pub last_applied_cursor : Option Cursor
  pub sync_channel : ℕ

pub record KeyStoreData : Type 0 where
  pub parent_thread_key : ℕ
  pub min_last_activity_timestamp_ms : ℕ
  pub has_more_before : Bool
  pub min_thread_key : ℕ

pub record SyncParams : Type 0 where
  pub mailbox : List ℕ
  pub contact : List ℕ
  pub e2ee : List ℕ

pub record SyncManager : Type 0 where
  pub store : List (ℕ × QueryMetadata)
  pub key_store : List (ℕ × KeyStoreData)
  pub sync_params : SyncParams

-- LSExecuteFirstBlockForSyncTransaction
pub record Transaction : Type 0 where
  pub database_id : ℕ
  pub current_cursor : Cursor
  pub next_cursor : Cursor
  pub send_sync_params : Bool
  pub sync_channel : ℕ

-- LSUpsertSyncGroupThreadsRange
pub record ThreadsRange : Type 0 where
  pub sync_group : ℕ
  pub parent_thread_key : ℕ
  pub min_last_activity_timestamp_ms : ℕ
  pub has_more_before : Bool
  pub min_thread_key : ℕ

pub record Table : Type 0 where
  pub ranges : List ThreadsRange
  pub transactions : List Transaction

abbrev pub mail_box : ℕ
mail_box = 1

abbrev pub contact_channel : ℕ
contact_channel = 2

params_only : ℕ → QueryMetadata
params_only channel = record {
  send_sync_params = true;
  last_applied_cursor = none;
  sync_channel = channel;
}

plain : ℕ → QueryMetadata
plain channel = record {
  send_sync_params = false;
  last_applied_cursor = none;
  sync_channel = channel;
}

with_params : List ℕ → List (ℕ × QueryMetadata)
with_params [] = []
with_params (db ∷ dbs) =
    (db, record { send_sync_params = true; last_applied_cursor = none; sync_channel = 0 })
    ∷ with_params dbs

abbrev first_key_store : KeyStoreData
first_key_store = record {
  parent_thread_key = 2 ^ 64 - 1;
  min_last_activity_timestamp_ms = 9999999999999;
  has_more_before = false;
  min_thread_key = 0;
}

unfoldable pub new_sync_manager : SyncManager
unfolding params_only plain with_params
new_sync_manager = record {
  store =
      (1, plain mail_box)
      ∷ (2, params_only contact_channel)
      ∷ (95, plain contact_channel)
      ∷ with_params (
          5 ∷ 6 ∷ 7 ∷ 16 ∷ 26 ∷ 28 ∷ 89 ∷ 104 ∷ 120 ∷ 140 ∷ 141 ∷ 142 ∷ 143 ∷ 145 ∷ 196 ∷ 197 ∷ 198
          ∷ 202 ∷ []);
  key_store = (1, first_key_store) ∷ (95, first_key_store) ∷ [];
  sync_params = record { mailbox = []; contact = []; e2ee = [] };
}

-- What SyncTransactions and SyncSocketData store of a transaction.
unfoldable pub apply_transaction : Transaction → QueryMetadata → QueryMetadata
apply_transaction t m = record m {
  last_applied_cursor = some t.next_cursor;
  send_sync_params = t.send_sync_params;
  sync_channel = t.sync_channel;
}

-- SyncTransactions: the error names the database that is not in the store; what came before it is
-- kept.
unfoldable pub sync_transactions :
    List Transaction → List (ℕ × QueryMetadata) → Option ℕ × List (ℕ × QueryMetadata)
sync_transactions [] store = (none, store)
sync_transactions (t ∷ ts) store = elim (find t.database_id store) [
  | none ↦ (some t.database_id, store)
  | some m ↦ sync_transactions ts (alter t.database_id (apply_transaction t) store)
]

-- UpdateDatabaseSyncParams, on pairs of a database and the settings for it.
unfoldable pub update_database_sync_params :
    List (ℕ × QueryMetadata) → List (ℕ × QueryMetadata) → Option ℕ × List (ℕ × QueryMetadata)
update_database_sync_params [] store = (none, store)
update_database_sync_params ((id, db) ∷ dbs) store = elim (find id store) [
  | none ↦ (some id, store)
  | some m ↦ update_database_sync_params dbs (
      alter id
        (λ (e : QueryMetadata). record e {
          send_sync_params = db.send_sync_params;
          sync_channel = db.sync_channel;
        })
        store)
]

unfoldable pub get_sync_params : SyncParams → ℕ → ℕ → List ℕ
get_sync_params p db channel =
    if db == 7
    then codes "{\"mnet_rank_types\":[44]}"
    else if channel == mail_box
    then p.mailbox
    else if channel == contact_channel
    then p.contact
    else p.e2ee

abbrev cursor_of_metadata : Option Cursor → Cursor
cursor_of_metadata none = []
cursor_of_metadata (some c) = c

abbrev pub cursor_of : Option QueryMetadata → Cursor
cursor_of none = []
cursor_of (some m) = cursor_of_metadata m.last_applied_cursor

-- GetCursor: the empty text where there is none.
unfoldable pub get_cursor : List (ℕ × QueryMetadata) → ℕ → Cursor
get_cursor store db = cursor_of (find db store)

-- updateThreadRanges: the error is that of the last range whose group is not in the key store.
unfoldable pub update_thread_ranges :
    List ThreadsRange → Option ℕ → List (ℕ × KeyStoreData) → Option ℕ × List (ℕ × KeyStoreData)
update_thread_ranges [] error keys = (error, keys)
update_thread_ranges (r ∷ rs) error keys =
    if not r.has_more_before
    then update_thread_ranges rs error keys
    else elim (find r.sync_group keys) [
      | none ↦ update_thread_ranges rs (some r.sync_group) keys
      | some k ↦ update_thread_ranges rs error (
          alter r.sync_group
            (λ (e : KeyStoreData). record {
              parent_thread_key = r.parent_thread_key;
              min_last_activity_timestamp_ms = r.min_last_activity_timestamp_ms;
              has_more_before = r.has_more_before;
              min_thread_key = r.min_thread_key;
            })
            keys)
    ]

-- updateSyncGroupCursors: a table with no transactions leaves the error of the ranges standing.
unfoldable pub update_sync_group_cursors : Table → SyncManager → Option ℕ × SyncManager
update_sync_group_cursors t sm =
    let (range_error, keys) = update_thread_ranges t.ranges none sm.key_store in
    let (error, store) = sync_transactions t.transactions sm.store in
    (
      elim t.transactions [ [] ↦ range_error | x ∷ xs ↦ error ],
      record sm { store = store; key_store = keys },
    )
