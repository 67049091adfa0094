-- ===== src/Sync/Socket.antt =====
-- pkg/messagix/syncManager.go: the synchronisation of one database over the socket, on the replies
-- that the server gives to its requests, in order.
use meta_matrix_bridge.Prelude.{
  ℕ, List, [], ◌∷◌, ◌++◌, Bool, not, ◌||◌, Option, none, some, if◌then◌else◌, ◌==◌,
}
use meta_matrix_bridge.Prelude.Text.{codes, text_eq}
use meta_matrix_bridge.Prelude.Assoc.{find, alter}
use meta_matrix_bridge.Sync.{
  Cursor, QueryMetadata, SyncParams, SyncManager, Transaction, Table, apply_transaction,
  get_sync_params, get_cursor, update_sync_group_cursors,
}

-- shouldRecurseDatabase of socket.go.
abbrev pub should_recurse_database : ℕ → Bool
should_recurse_database db = db == 1 || db == 2 || db == 95 || db == 104

-- The test after which SyncSocketData asks no further.
unfoldable pub stops : ℕ → Cursor → Transaction → Bool
stops db previous b =
    text_eq b.next_cursor b.current_cursor
    || text_eq b.next_cursor previous
    || text_eq b.next_cursor (codes "dummy_cursor")
    || text_eq b.next_cursor []
    || not (should_recurse_database db)

pub record DatabaseQuery : Type 0 where
  pub database : ℕ
  pub kind : ℕ
  pub query_params : Option (List ℕ)
  pub query_cursor : Option Cursor

unfoldable pub query_of : SyncParams → ℕ → QueryMetadata → DatabaseQuery
query_of p db m =
    if m.send_sync_params
    then record {
      database = db;
      kind = 1;
      query_params = some (get_sync_params p db m.sync_channel);
      query_cursor = none;
    }
    else record {
      database = db;
      kind = 2;
      query_params = none;
      query_cursor = m.last_applied_cursor;
    }

-- How a call ends. `awaiting`: the replies that are given are used up, and the call waits for one more.
pub data Synced : Type 0 where
  finished awaiting request_failed not_found : Synced
  cursors_failed : ℕ → Synced

pub record Run : Type 0 where
  pub queries : List DatabaseQuery
  pub result : Synced
  pub manager : SyncManager

unfoldable pub ask_again : List DatabaseQuery → Option ℕ × SyncManager → (SyncManager → Run) → Run
ask_again sent update next = elim update.0 [
  | some e ↦ record { queries = sent; result = cursors_failed e; manager = update.1 }
  | none ↦
      let rest = next update.1 in
      record { queries = sent ++ rest.queries; result = rest.result; manager = rest.manager }
]

unfoldable pub sync_after :
    ℕ → List DatabaseQuery → Transaction → Table → SyncManager → (SyncManager → Run) → Run
unfolding ask_again
sync_after db sent b t sm next =
    let applied = record sm { store = alter db (apply_transaction b) sm.store } in
    ask_again sent (update_sync_group_cursors t applied) next

unfoldable pub sync_reply :
    ℕ → List DatabaseQuery → Cursor → Option Table → SyncManager → (SyncManager → Run) → Run
unfolding sync_after
sync_reply db sent previous none sm next = record {
  queries = sent;
  result = request_failed;
  manager = sm;
}
sync_reply db sent previous (some t) sm next = elim t.transactions [
  | [] ↦ record { queries = sent; result = finished; manager = sm }
  | b ∷ bs ↦
      if stops db previous b
      then record { queries = sent; result = finished; manager = sm }
      else sync_after db sent b t sm next
]

-- SyncSocketData on the server's replies in order; a request that fails is `none`, and a database that
-- the store has not is `not_found`, for which syncSocketData does not call it. The metadata that the source hands on is the pointer that the store holds.
unfoldable pub sync_socket_data : List (Option Table) → ℕ → SyncManager → Run
unfolding sync_reply
sync_socket_data [] db sm = elim (find db sm.store) [
  | none ↦ record { queries = []; result = not_found; manager = sm }
  | some m ↦ record { queries = query_of sm.sync_params db m ∷ []; result = awaiting; manager = sm }
]
sync_socket_data (r ∷ rs) db sm = elim (find db sm.store) [
  | none ↦ record { queries = []; result = not_found; manager = sm }
  | some m ↦
      sync_reply db (query_of sm.sync_params db m ∷ []) (get_cursor sm.store db) r sm
        (λ s. sync_socket_data rs db s)
]
