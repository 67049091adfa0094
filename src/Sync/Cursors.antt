-- ===== src/Sync/Cursors.antt =====
-- pkg/messagix/syncManager.go: SyncTransactions and updateSyncGroupCursors on a store.
use meta_matrix_bridge.Prelude.{
  ℕ, ◌≡◌, ◌≢◌, refl, ap, ◌∙◌, List, [], ◌∷◌, ◌++◌, none, some, if◌then◌else◌, ◌==◌, All, arith, inl,
  inr, Bool-cases,
}
use meta_matrix_bridge.Prelude.Assoc.{find, alter, changed, find-alter_same, find-alter_other}
use meta_matrix_bridge.Sync.{
  Cursor, QueryMetadata, cursor_of, SyncManager, Transaction, ThreadsRange, apply_transaction,
  sync_transactions, get_cursor, update_sync_group_cursors,
}

-- The database is in the store.
abbrev pub Known : List (ℕ × QueryMetadata) → ℕ → Type 0
Known store db = (m : QueryMetadata) × (find db store ≡ some m)

abbrev pub AllKnown : List (ℕ × QueryMetadata) → List Transaction → Type 0
AllKnown store ts = All (λ (t : Transaction). Known store t.database_id) ts

-- The cursor of the last transaction of the database, or else the cursor before.
unfoldable pub latest : ℕ → List Transaction → Cursor → Cursor
latest db [] c = c
latest db (t ∷ ts) c = if db == t.database_id then latest db ts t.next_cursor else latest db ts c

pub Known-alter :
    (store : List (ℕ × QueryMetadata)) (db i : ℕ) (f : QueryMetadata → QueryMetadata)
    → Known store db
    → Known (alter i f store) db
Known-alter store db i f (m, e) = elim (Bool-cases (db == i)) [
  | inl same ↦
      let q : db ≡ i = ground arith in
      (
        f m,
        rw q (find-alter_same i f store ∙ ap (changed f) (rw q at e) ∙ (unfold changed in refl)),
      )
  | inr other ↦ let n : db ≢ i = λ q. ground arith in (m, find-alter_other db i f store n ∙ e)
]

AllKnown-alter :
    (store : List (ℕ × QueryMetadata)) (i : ℕ) (f : QueryMetadata → QueryMetadata)
    (ts : List Transaction)
    → AllKnown store ts
    → AllKnown (alter i f store) ts
AllKnown-alter store i f [] h = tt
AllKnown-alter store i f (t ∷ ts) h =
    (Known-alter store t.database_id i f h.0, AllKnown-alter store i f ts h.1)

pub get_cursor-apply_same :
    (store : List (ℕ × QueryMetadata)) (db : ℕ) (t : Transaction)
    → Known store db
    → get_cursor (alter db (apply_transaction t) store) db ≡ t.next_cursor
unfolding get_cursor
get_cursor-apply_same store db t (m, e) =
    ap cursor_of
      (find-alter_same db (apply_transaction t) store ∙ ap (changed (apply_transaction t)) e)
    ∙ (unfold changed apply_transaction in refl)

get_cursor-apply_other :
    (store : List (ℕ × QueryMetadata)) (db i : ℕ) (t : Transaction)
    → db ≢ i
    → get_cursor (alter i (apply_transaction t) store) db ≡ get_cursor store db
unfolding get_cursor
get_cursor-apply_other store db i t n =
    ap cursor_of (find-alter_other db i (apply_transaction t) store n)

-- When every transaction names a database of the store, none is refused, and the cursor of each
-- database is that of its last transaction, or else the one it had.
pub get_cursor-sync_transactions :
    (ts : List Transaction) (store : List (ℕ × QueryMetadata)) (db : ℕ)
    → AllKnown store ts
    → ((sync_transactions ts store).0 ≡ none)
      × (get_cursor (sync_transactions ts store).1 db ≡ latest db ts (get_cursor store db))
unfolding sync_transactions latest
get_cursor-sync_transactions [] store db h = (refl, refl)
get_cursor-sync_transactions (t ∷ ts) store db h =
    let known = AllKnown-alter store t.database_id (apply_transaction t) ts h.1 in
    let (fine, rest) =
      get_cursor-sync_transactions ts (alter t.database_id (apply_transaction t) store) db known in
    let found = h.0.1 in
    elim (Bool-cases (db == t.database_id)) [
      | inl same ↦
          let q : db ≡ t.database_id = ground arith in
          let here : get_cursor (alter t.database_id (apply_transaction t) store) db
              ≡ t.next_cursor =
            rw q (get_cursor-apply_same store t.database_id t h.0) in
          rw (found, same, sync_transactions) (fine, rest ∙ rw here refl)
      | inr other ↦
          let n : db ≢ t.database_id = λ q. ground arith in
          rw (found, other, sync_transactions)
            (fine, rest ∙ rw (get_cursor-apply_other store db t.database_id t n) refl)
    ]

-- The first transaction whose database is not in the store ends the update with an error that names
-- it; the transactions before it stay applied.
pub sync_transactions-stops :
    (before after : List Transaction) (t : Transaction) (store : List (ℕ × QueryMetadata))
    → AllKnown store before
    → find t.database_id (sync_transactions before store).1 ≡ none
    → sync_transactions (before ++ (t ∷ after)) store
      ≡ (some t.database_id, (sync_transactions before store).1)
unfolding sync_transactions
sync_transactions-stops [] after t store h absent = rw (absent, sync_transactions) refl
sync_transactions-stops (b ∷ before) after t store h absent =
    let known = AllKnown-alter store b.database_id (apply_transaction b) before h.1 in
    let found = h.0.1 in
    rw (found, sync_transactions)
      (sync_transactions-stops before after t _ known (rw (found, sync_transactions) at absent))

-- The error of a range whose group is unknown is lost when the table also has transactions that
-- all succeed.
pub update_sync_group_cursors-forgets :
    (sm : SyncManager) (ranges : List ThreadsRange) (t : Transaction) (ts : List Transaction)
    → AllKnown sm.store (t ∷ ts)
    → (update_sync_group_cursors (record { ranges = ranges; transactions = t ∷ ts }) sm).0 ≡ none
unfolding update_sync_group_cursors
update_sync_group_cursors-forgets sm ranges t ts h =
    (get_cursor-sync_transactions (t ∷ ts) sm.store 0 h).0
