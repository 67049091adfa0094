-- ===== src/Wrapped/Threads.antt =====
-- WrapMessages of wrappedmessage.go: the threads of the upserted messages.
use meta_matrix_bridge.Prelude.{
  ℕ, suc, ◌≡◌, refl, ap, sym, ◌∙◌, List, [], ◌∷◌, ◌++◌, append-nil, append_assoc, map, true, Option,
  none, some, if◌then◌else◌, inl, inr, Bool-cases, arith, length, length-append, ==_iff, ◌==◌,
  get_elem?,
}
use meta_matrix_bridge.Prelude.Assoc.{find, alter, changed, find-alter_same, find-alter_other}
use meta_matrix_bridge.Lightspeed.{Row}
use meta_matrix_bridge.Wrapped.{
  Wrapping, UpsertMessages, wrapped, to_insert, int_of, wrap_upserts, wrap_reactions, wrap_inserts,
  wrap_bare, add_message, wrap_messages,
}
use meta_matrix_bridge.Wrapped.Attach.{map_option}
use meta_matrix_bridge.Wrapped.Messages.{views, upserted, inserted, get_elem?-middle, views-resolve}
use meta_matrix_bridge.Wrapped.Chats.{
  last_of, receipts, chat, with_messages, not_both, chat-received, find-wrap_chats,
}
use Prim.Native.String.{String}

-- The indices of the rows of a thread, counted from `n`.
unfoldable pub places : {F : Type 0} → ℕ → ℕ → List (Row F) → List ℕ
places thread n [] = []
places thread n (r ∷ rs) =
    let rest = places thread (suc n) rs in if thread == int_of "ThreadKey" r then n ∷ rest else rest

-- The rows of a thread, in their order.
unfoldable pub of_thread : {F : Type 0} → ℕ → List (Row F) → List (Row F)
of_thread thread [] = []
of_thread thread (r ∷ rs) =
    let rest = of_thread thread rs in if thread == int_of "ThreadKey" r then r ∷ rest else rest

module _ {F : Type 0} where
  changed-none_added : (o : Option (UpsertMessages F)) → o ≡ changed (with_messages []) o
  unfolding changed
  changed-none_added none = refl
  changed-none_added (some u) =
      ap (λ l. some (record u { messages = l })) (sym (append-nil u.messages))

  changed-added :
      (j : ℕ) (js : List ℕ) (o : Option (UpsertMessages F))
      → changed (with_messages js) (changed (add_message j) o) ≡ changed (with_messages (j ∷ js)) o
  unfolding changed
  changed-added j js none = refl
  changed-added j js (some u) =
      ap (λ l. some (record u { messages = l })) (append_assoc u.messages (j ∷ []) js)

  wrap_upserts-places :
      (z : F) (thread : ℕ) (rs : List (Row F)) (s : Wrapping F)
      → find thread (wrap_upserts z rs s).upsert
        ≡ changed (with_messages (places thread (length s.heap) rs)) (find thread s.upsert)
  unfolding wrap_upserts places
  wrap_upserts-places z thread [] s = changed-none_added (find thread s.upsert)
  wrap_upserts-places z thread (r ∷ rs) s =
      wrap_upserts-places z thread rs _
      ∙ ap
          (λ n.
            changed (with_messages (places thread n rs))
              (find thread (alter (int_of "ThreadKey" r) (add_message (length s.heap)) s.upsert)))
          (omega (arith, length-append s.heap (wrapped true (to_insert z r) ∷ [])))
      ∙ one_more
    where
      one_more :
          changed
            (with_messages (places thread (suc (length s.heap)) rs))
            (find thread (alter (int_of "ThreadKey" r) (add_message (length s.heap)) s.upsert))
          ≡ changed (with_messages (places thread (length s.heap) (r ∷ rs))) (find thread s.upsert)
      one_more = elim (Bool-cases (thread == int_of "ThreadKey" r)) [
        | inl here ↦ rw here (
            ap (changed (with_messages (places thread (suc (length s.heap)) rs))) (
              ap (λ i. find thread (alter i (add_message (length s.heap)) s.upsert))
                (sym ((==_iff thread (int_of "ThreadKey" r)).0 here))
              ∙ find-alter_same thread (add_message (length s.heap)) s.upsert)
            ∙ changed-added (length s.heap) (places thread (suc (length s.heap)) rs)
                (find thread s.upsert))
        | inr elsewhere ↦ rw elsewhere (
            ap (changed (with_messages (places thread (suc (length s.heap)) rs))) (
              find-alter_other thread (int_of "ThreadKey" r) (add_message (length s.heap)) s.upsert
                (λ same. not_both _ ((==_iff thread (int_of "ThreadKey" r)).1 same) elsewhere)))
      ]

  wrap_inserts-upsert :
      (rs : List (Row F)) (s : Wrapping F) → (wrap_inserts rs s).0.upsert ≡ s.upsert
  unfolding wrap_inserts
  wrap_inserts-upsert [] s = refl
  wrap_inserts-upsert (r ∷ rs) s = wrap_inserts-upsert rs _

  resolve-places :
      {B : Type 0} (thread : ℕ) (f : Row F → B) (before : List B) (rs : List (Row F))
      (after : List B) (n : ℕ)
      → n ≡ length before
      → map (get_elem? (before ++ (map f rs ++ after))) (places thread n rs)
        ≡ map (λ r. some (f r)) (of_thread thread rs)
  unfolding places of_thread
  resolve-places thread f before [] after n h = refl
  resolve-places thread f before (r ∷ rs) after n h =
      let at_n : get_elem? (before ++ (f r ∷ (map f rs ++ after))) n ≡ some (f r) =
        ap (get_elem? (before ++ (f r ∷ (map f rs ++ after)))) h
        ∙ get_elem?-middle before (f r) (map f rs ++ after) in
      let later : map (get_elem? (before ++ (f r ∷ (map f rs ++ after)))) (places thread (suc n) rs)
          ≡ map (λ r. some (f r)) (of_thread thread rs) =
        ap (λ l. map (get_elem? l) (places thread (suc n) rs))
          (sym (append_assoc before (f r ∷ []) (map f rs ++ after)))
        ∙ resolve-places thread f (before ++ (f r ∷ [])) rs after (suc n)
            (omega (arith, length-append before (f r ∷ []))) in
      elim (Bool-cases (thread == int_of "ThreadKey" r)) [
        | inl here ↦ rw here (cc (at_n, later))
        | inr elsewhere ↦ rw elsewhere later
      ]

  -- A thread has an entry in the first result of WrapMessages exactly if LSInsertNewMessageRange has a row of
  -- the thread. The entry then has the last such row as its range; its messages are the upserted messages of
  -- the thread, in their order, each the row that ToInsert makes, as an upsert; and it is to be marked as read
  -- exactly if the last row of the thread in LSMarkThreadRead, LSMarkThreadReadV2 and
  -- LSDeleteThenInsertThread, taken in this order, has a watermark not below the range's MaxTimestampMs.
  pub wrap_messages-places :
      (z : F) (table : String → List (Row F)) (thread : ℕ)
      → (find thread (wrap_messages z table).0.upsert
          ≡ map_option
              (chat (places thread 0 (table "LSUpsertMessage")) (last_of thread (receipts table)))
              (last_of thread (table "LSInsertNewMessageRange")))
        × (views (wrap_messages z table).0.heap (places thread 0 (table "LSUpsertMessage"))
            ≡ map (λ r. some (to_insert z r, true)) (of_thread thread (table "LSUpsertMessage")))
  unfolding wrap_messages wrap_bare wrap_reactions
  wrap_messages-places z table thread = (
    ap (find thread) (wrap_inserts-upsert (table "LSInsertMessage") _)
        ∙ wrap_upserts-places z thread (table "LSUpsertMessage") _
        ∙ ap (changed (with_messages (places thread 0 (table "LSUpsertMessage"))))
            (find-wrap_chats table thread)
        ∙ chat-received (places thread 0 (table "LSUpsertMessage"))
            (last_of thread (receipts table)) (last_of thread (table "LSInsertNewMessageRange")),
    views-resolve z table (places thread 0 (table "LSUpsertMessage"))
        ∙ resolve-places thread (upserted z) [] (table "LSUpsertMessage")
            (map inserted (table "LSInsertMessage")) 0 (omega arith),
  )
