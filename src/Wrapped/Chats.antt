-- ===== src/Wrapped/Chats.antt =====
-- WrapMessages of wrappedmessage.go: the ranges and the read receipts of the threads.
use meta_matrix_bridge.Prelude.{
  ℕ, ◌≡◌, refl, ap, sym, ◌∙◌, List, [], ◌∷◌, ◌++◌, Bool, true, false, Option, none, some,
  if◌then◌else◌, inl, inr, Bool-cases, arith, ==_iff, ◌==◌,
}
use meta_matrix_bridge.Prelude.Assoc.{find, alter, changed, find-alter_same, find-alter_other}
use meta_matrix_bridge.Lightspeed.{Row}
use meta_matrix_bridge.Wrapped.{
  UpsertMessages, int_of, int64_le, wrap_chats, wrap_ranges, mark_reads, mark_read_at,
}
use meta_matrix_bridge.Wrapped.Attach.{map_option}
use meta_matrix_bridge.Wrapped.Maps.{or_else, or_else_if, or_else-none}
use Prim.Native.String.{String}

-- The last row of a thread.
unfoldable pub last_of : {F : Type 0} → ℕ → List (Row F) → Option (Row F)
last_of thread [] = none
last_of thread (r ∷ rs) =
    or_else (last_of thread rs) (if thread == int_of "ThreadKey" r then some r else none)

-- A range is read when the last receipt reaches its newest message.
abbrev pub is_read : {F : Type 0} → Row F → Option (Row F) → Bool
is_read range none = false
is_read range (some receipt) =
    int64_le (int_of "MaxTimestampMs" range) (int_of "LastReadWatermarkTimestampMs" receipt)

pub not_both : (b : Bool) → b ≡ true → b ≡ false → ⊥
not_both b p q = ground arith

module _ {F : Type 0} where
  -- The chat with more messages at its end.
  abbrev pub with_messages : List ℕ → UpsertMessages F → UpsertMessages F
  with_messages js u = record u { messages = u.messages ++ js }

  -- The chat of a range, before any message is added.
  abbrev pub chat_of : Row F → UpsertMessages F
  chat_of r = record { range = r; messages = []; mark_read = false }

  find-wrap_ranges :
      (k : ℕ) (rs : List (Row F)) (m : List (ℕ × UpsertMessages F))
      → find k (wrap_ranges rs m) ≡ or_else (map_option chat_of (last_of k rs)) (find k m)
  unfolding wrap_ranges find last_of
  find-wrap_ranges k [] m = refl
  find-wrap_ranges k (r ∷ rs) m =
      find-wrap_ranges k rs ((int_of "ThreadKey" r, chat_of r) ∷ m)
      ∙ or_else_if (map_option chat_of (last_of k rs)) (find k m) (k == int_of "ThreadKey" r)
          (chat_of r)
      ∙ ap (λ o. or_else o (find k m)) (one_more (last_of k rs) (k == int_of "ThreadKey" r))
    where
      one_more :
          (o : Option (Row F)) (here : Bool)
          → or_else (map_option chat_of o) (if here then some (chat_of r) else none)
            ≡ map_option chat_of (or_else o (if here then some r else none))
      one_more none true = refl
      one_more none false = refl
      one_more (some a) here = refl

  -- What receipts make of a chat: the last one counts.
  abbrev pub received : Option (Row F) → UpsertMessages F → UpsertMessages F
  received none u = u
  received (some receipt) u = mark_read_at (int_of "LastReadWatermarkTimestampMs" receipt) u

  changed-received :
      (later : Option (Row F)) (r : Row F) (o : Option (UpsertMessages F))
      → changed
          (received later)
          (changed (mark_read_at (int_of "LastReadWatermarkTimestampMs" r)) o)
        ≡ changed (received (or_else later (some r))) o
  unfolding changed
  changed-received none r none = refl
  changed-received (some l) r none = refl
  changed-received none r (some u) = refl
  changed-received (some l) r (some u) = refl

  no_receipt_unchanged : (o : Option (UpsertMessages F)) → o ≡ changed (received none) o
  unfolding changed
  no_receipt_unchanged none = refl
  no_receipt_unchanged (some u) = refl

  find-mark_reads :
      (k : ℕ) (rs : List (Row F)) (m : List (ℕ × UpsertMessages F))
      → find k (mark_reads rs m) ≡ changed (received (last_of k rs)) (find k m)
  unfolding mark_reads last_of
  find-mark_reads k [] m = no_receipt_unchanged (find k m)
  find-mark_reads k (r ∷ rs) m = find-mark_reads k rs _ ∙ one_more
    where
      by : ℕ
      by = int_of "LastReadWatermarkTimestampMs" r

      one_more :
          changed
            (received (last_of k rs))
            (find k (alter (int_of "ThreadKey" r) (mark_read_at by) m))
          ≡ changed
              (received
                (or_else (last_of k rs) (if k == int_of "ThreadKey" r then some r else none)))
              (find k m)
      one_more = elim (Bool-cases (k == int_of "ThreadKey" r)) [
        | inl here ↦ rw here (
            ap (changed (received (last_of k rs))) (
              ap (λ i. find k (alter i (mark_read_at by) m))
                (sym ((==_iff k (int_of "ThreadKey" r)).0 here))
              ∙ find-alter_same k (mark_read_at by) m)
            ∙ changed-received (last_of k rs) r (find k m))
        | inr elsewhere ↦ rw elsewhere (
            ap (changed (received (last_of k rs))) (
              find-alter_other k (int_of "ThreadKey" r) (mark_read_at by) m
                (λ same. not_both _ ((==_iff k (int_of "ThreadKey" r)).1 same) elsewhere))
            ∙ ap (λ o. changed (received o) (find k m)) (sym (or_else-none (last_of k rs))))
      ]

  mark_reads-append :
      (xs ys : List (Row F)) (m : List (ℕ × UpsertMessages F))
      → mark_reads (xs ++ ys) m ≡ mark_reads ys (mark_reads xs m)
  unfolding mark_reads
  mark_reads-append [] ys m = refl
  mark_reads-append (x ∷ xs) ys m = mark_reads-append xs ys _

  -- The chat of a thread: its range, read or not, and its messages.
  abbrev pub chat : List ℕ → Option (Row F) → Row F → UpsertMessages F
  chat js receipt r = record { range = r; messages = js; mark_read = is_read r receipt }

  pub chat-received :
      (js : List ℕ) (receipt o : Option (Row F))
      → changed
          (with_messages js)
          (changed (received receipt) (or_else (map_option chat_of o) none))
        ≡ map_option (chat js receipt) o
  unfolding changed
  chat-received js none none = refl
  chat-received js (some t) none = refl
  chat-received js none (some r) = refl
  chat-received js (some t) (some r) = refl

  abbrev pub receipts : (String → List (Row F)) → List (Row F)
  receipts table =
      table "LSMarkThreadRead" ++ (table "LSMarkThreadReadV2" ++ table "LSDeleteThenInsertThread")

  pub find-wrap_chats :
      (table : String → List (Row F)) (k : ℕ)
      → find k (wrap_chats table)
        ≡ changed
            (received (last_of k (receipts table)))
            (or_else (map_option chat_of (last_of k (table "LSInsertNewMessageRange"))) none)
  unfolding wrap_chats find
  find-wrap_chats table k =
      ap (find k) (
        sym (mark_reads-append (table "LSMarkThreadReadV2") (table "LSDeleteThenInsertThread") _)
        ∙ sym (
            mark_reads-append (table "LSMarkThreadRead")
              (table "LSMarkThreadReadV2" ++ table "LSDeleteThenInsertThread") _))
      ∙ find-mark_reads k (receipts table) _
      ∙ ap (changed (received (last_of k (receipts table))))
          (find-wrap_ranges k (table "LSInsertNewMessageRange") [])
