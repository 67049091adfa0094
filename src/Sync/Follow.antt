-- ===== src/Sync/Follow.antt =====
-- pkg/messagix/syncManager.go: SyncSocketData on replies of one transaction each.
use meta_matrix_bridge.Prelude.{
  ℕ, suc, ◌≡◌, refl, ap, ◌∙◌, List, [], ◌∷◌, true, false, Option, none, some, if◌then◌else◌, arith,
  inl, inr, Bool-cases, length, ltb, lt→ltb, map,
}
use meta_matrix_bridge.Prelude.Assoc.{find, alter}
use meta_matrix_bridge.Sync.{
  Cursor, QueryMetadata, SyncManager, Transaction, Table, apply_transaction, sync_transactions,
  get_cursor, update_thread_ranges, update_sync_group_cursors,
}
use meta_matrix_bridge.Sync.Socket.{
  stops, query_of, finished, awaiting, sync_socket_data, sync_reply, sync_after, ask_again,
}
use meta_matrix_bridge.Sync.Cursors.{Known, Known-alter, get_cursor-apply_same}

-- A transaction of the database, and the reply whose table is that transaction alone.
abbrev pub of_database : ℕ → Transaction → Transaction
of_database db b = record b { database_id = db }

abbrev pub single : ℕ → Transaction → Option Table
single db b = some (record { ranges = []; transactions = of_database db b ∷ [] })

-- The cursors that are followed from the cursor `previous` on.
unfoldable pub followed : ℕ → Cursor → List Transaction → List Cursor
followed db previous [] = []
followed db previous (b ∷ bs) =
    let rest = followed db b.next_cursor bs in
    if stops db previous b then [] else b.next_cursor ∷ rest

unfoldable pub last_of : Cursor → List Cursor → Cursor
last_of c [] = c
last_of c (d ∷ ds) = last_of d ds

abbrev applied : ℕ → Transaction → List (ℕ × QueryMetadata) → List (ℕ × QueryMetadata)
applied db b store = alter db (apply_transaction (of_database db b)) store

sync_transactions-one :
    (t : Transaction) (store : List (ℕ × QueryMetadata)) (m : QueryMetadata)
    → find t.database_id store ≡ some m
    → sync_transactions (t ∷ []) store ≡ (none, alter t.database_id (apply_transaction t) store)
unfolding sync_transactions
sync_transactions-one t store m found = rw (found, sync_transactions) refl

module _ (db : ℕ) (b : Transaction) (sm : SyncManager) (m : QueryMetadata)
    (found : find db sm.store ≡ some m) where
  -- The store after a transaction of the database has been followed: it is written twice.
  stored : SyncManager
  stored = record sm { store = applied db b (applied db b sm.store) }

  again : Known (applied db b sm.store) db
  again = Known-alter sm.store db db (apply_transaction (of_database db b)) (m, found)

  update-single :
      update_sync_group_cursors
        (record { ranges = []; transactions = of_database db b ∷ [] })
        (record sm { store = applied db b sm.store })
      ≡ (none, stored)
  unfolding update_sync_group_cursors update_thread_ranges stored
  update-single =
      ap (λ (r : Option ℕ × List (ℕ × QueryMetadata)). (r.0, record sm { store = r.1 }))
        (sync_transactions-one (of_database db b) (applied db b sm.store) again.0 again.1)

  get_cursor-stored : get_cursor stored.store db ≡ b.next_cursor
  unfolding stored
  get_cursor-stored = get_cursor-apply_same (applied db b sm.store) db (of_database db b) again

  Known-stored : Known stored.store db
  unfolding stored
  Known-stored =
      Known-alter (applied db b sm.store) db db (apply_transaction (of_database db b)) again

  -- One reply that does not stop the call updates the entry and asks again.
  sync_socket_data-step :
      (rs : List (Option Table))
      → stops db (get_cursor sm.store db) b ≡ false
      → sync_socket_data (single db b ∷ rs) db sm ≡ record {
        queries = query_of sm.sync_params db m ∷ (sync_socket_data rs db stored).queries;
        result = (sync_socket_data rs db stored).result;
        manager = (sync_socket_data rs db stored).manager;
      }
  unfolding sync_socket_data sync_reply sync_after ask_again stops
  sync_socket_data-step rs on =
      rw (found, sync_socket_data, on, if◌then◌else◌)
        (ap (λ u. ask_again (query_of sm.sync_params db m ∷ []) u (λ s. sync_socket_data rs db s))
          update-single)

  sync_socket_data-stop :
      (rs : List (Option Table))
      → stops db (get_cursor sm.store db) b ≡ true
      → sync_socket_data (single db b ∷ rs) db sm
        ≡ record { queries = query_of sm.sync_params db m ∷ []; result = finished; manager = sm }
  unfolding sync_socket_data sync_reply stops
  sync_socket_data-stop rs stop = rw (found, sync_socket_data, stop) refl

ltb-suc : (a b : ℕ) → ltb (suc a) (suc b) ≡ ltb a b
ltb-suc a b = ground arith

-- For a database of the store, and replies whose tables are one transaction of it each: the replies
-- are followed until one of them stops the call. There is one query for each cursor that is followed
-- and one more, the cursor that is left is the last one followed, and the call has finished exactly
-- when a reply has stopped it.
pub sync_socket_data-followed :
    (db : ℕ) (bs : List Transaction) (sm : SyncManager)
    → Known sm.store db
    → (length (sync_socket_data (map (single db) bs) db sm).queries
        ≡ suc (length (followed db (get_cursor sm.store db) bs)))
      × (get_cursor (sync_socket_data (map (single db) bs) db sm).manager.store db
          ≡ last_of (get_cursor sm.store db) (followed db (get_cursor sm.store db) bs))
      × ((sync_socket_data (map (single db) bs) db sm).result ≡ (
          if ltb (length (followed db (get_cursor sm.store db) bs)) (length bs)
          then finished
          else awaiting))
unfolding followed last_of
sync_socket_data-followed db [] sm (m, found) =
    unfold sync_socket_data in
    (
      rw (found, sync_socket_data) refl,
      rw (found, sync_socket_data) refl,
      rw (found, sync_socket_data) refl,
    )
sync_socket_data-followed db (b ∷ bs) sm (m, found) =
    elim (Bool-cases (stops db (get_cursor sm.store db) b)) [
      | inl stop ↦
          let e = sync_socket_data-stop db b sm m found (map (single db) bs) stop in
          rw (e, stop) (refl, refl, rw (lt→ltb 0 (suc (length bs)) (omega arith)) refl)
      | inr on ↦
          let e = sync_socket_data-step db b sm m found (map (single db) bs) on in
          let here = get_cursor-stored db b sm m found in
          let (count, last, ended) = rw here at (
            sync_socket_data-followed db bs (stored db b sm m found)
              (Known-stored db b sm m found)) in
          rw (e, on)
            (
              ap suc count,
              last,
              ended ∙ rw (ltb-suc (length (followed db b.next_cursor bs)) (length bs)) refl,
            )
    ]
