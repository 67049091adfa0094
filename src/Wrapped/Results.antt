-- ===== src/Wrapped/Results.antt =====
-- WrapMessages of wrappedmessage.go, and ToInsert of messages.go: which messages are given back, and what of
-- their rows.
use meta_matrix_bridge.Prelude.{
  ◌≡◌, refl, ap, sym, ◌∙◌, List, [], ◌∷◌, ◌++◌, map, Bool, true, false, ◌&&◌, ◌||◌, some,
  if◌then◌else◌, inl, inr, Bool-cases, arith, length,
}
use meta_matrix_bridge.Prelude.Text.{str_eq-same}
use meta_matrix_bridge.Lightspeed.{Row, Value, FieldInfo}
use meta_matrix_bridge.Tables.MessageRanges.{ls_insert_message}
use meta_matrix_bridge.Wrapped.{
  to_insert, copy_field, copied_fields, is_copied, value_of, wrap_messages,
}
use meta_matrix_bridge.Wrapped.Messages.{
  view, views, count_from, upserted, inserted, map-map, map-same, map-append, length-map,
  resolve-count_from, wrap_messages-view, wrap_messages-indices, views-resolve,
}
use Prim.Native.String.{String}
use text.Mathlib.Text.{◌==◌ as str_eq}

-- The two fields of an inserted message that an upserted one does not hand on.
unfoldable pub is_lost : String → Bool
is_lost name = str_eq name "SendAttributionXmd" || str_eq name "MetadataDataclass"

unfoldable pub has_field : String → List FieldInfo → Bool
has_field name [] = false
has_field name (f ∷ fs) = let rest = has_field name fs in if str_eq f.name name then true else rest

all_kept : List FieldInfo → Bool
all_kept [] = true
all_kept (f ∷ fs) = (is_lost f.name || is_copied f.name copied_fields) && all_kept fs

ls_insert_message-all_kept : all_kept ls_insert_message.fields ≡ true
unfolding all_kept is_lost is_copied copied_fields
ls_insert_message-all_kept = refl

or_false : (a b : Bool) → (a || b) ≡ true → a ≡ false → b ≡ true
or_false a b h n = ground arith

and_left : (a b : Bool) → (a && b) ≡ true → a ≡ true
and_left a b h = ground arith

and_right : (a b : Bool) → (a && b) ≡ true → b ≡ true
and_right a b h = ground arith

module _ {F : Type 0} where
  copy_field-keeps :
      (z : F) (row : Row F) (name : String) (fs : List FieldInfo)
      → all_kept fs ≡ true
      → is_lost name ≡ false
      → has_field name fs ≡ true
      → value_of name (map (copy_field z row) fs) ≡ value_of name row.fields
  unfolding all_kept has_field value_of copy_field
  copy_field-keeps z row name [] kept lost found = ground arith
  copy_field-keeps z row name (f ∷ fs) kept lost found = elim (Bool-cases (str_eq f.name name)) [
    | inl here ↦
        let same : f.name ≡ name = str_eq-same f.name name here in
        let copied : is_copied f.name copied_fields ≡ true =
          or_false (is_lost f.name) (is_copied f.name copied_fields) (and_left _ (all_kept fs) kept)
            (ap is_lost same ∙ lost) in
        rw here (rw copied (ap (λ n. value_of n row.fields) same))
    | inr elsewhere ↦
        let later : has_field name fs ≡ true = rw elsewhere at found in
        rw elsewhere (copy_field-keeps z row name fs (and_right _ (all_kept fs) kept) lost later)
  ]

  to_insert-keeps :
      (z : F) (row : Row F) (name : String)
      → is_lost name ≡ false
      → has_field name ls_insert_message.fields ≡ true
      → value_of name (to_insert z row).fields ≡ value_of name row.fields
  unfolding to_insert
  to_insert-keeps z row name lost found =
      copy_field-keeps z row name ls_insert_message.fields ls_insert_message-all_kept lost found

  -- The second result of WrapMessages is one message for each row of LSInsertMessage, in their order, that
  -- holds the row and is no upsert. And the messages that are made, those of LSUpsertMessage and then those
  -- of LSInsertMessage, in the order of their rows, have in each field of LSInsertMessage other than
  -- SendAttributionXmd and MetadataDataclass what their row has in the field of that name.
  pub wrap_messages-messages :
      (z : F) (table : String → List (Row F)) (name : String)
      → is_lost name ≡ false
      → has_field name ls_insert_message.fields ≡ true
      → (views (wrap_messages z table).0.heap (wrap_messages z table).1
          ≡ map (λ r. some (r, false)) (table "LSInsertMessage"))
        × (map (λ w. value_of name w.message.fields) (wrap_messages z table).0.heap
            ≡ map
                (λ r. value_of name r.fields)
                (table "LSUpsertMessage" ++ table "LSInsertMessage"))
  unfolding view
  wrap_messages-messages z table name lost found = (
    ap (views (wrap_messages z table).0.heap) (wrap_messages-indices z table)
        ∙ views-resolve z table
            (count_from (length (table "LSUpsertMessage")) (table "LSInsertMessage"))
        ∙ resolve-count_from inserted (map (upserted z) (table "LSUpsertMessage"))
            (table "LSInsertMessage") (length (table "LSUpsertMessage"))
            (sym (length-map (upserted z) (table "LSUpsertMessage"))),
    sym (map-map field view (wrap_messages z table).0.heap)
        ∙ ap (map field) (wrap_messages-view z table)
        ∙ map-append field (map (upserted z) (table "LSUpsertMessage"))
            (map inserted (table "LSInsertMessage"))
        ∙ ap (λ l. l ++ map field (map inserted (table "LSInsertMessage")))
            (map-map field (upserted z) (table "LSUpsertMessage")
              ∙ map-same _ _ (table "LSUpsertMessage") (λ r. to_insert-keeps z r name lost found))
        ∙ ap (λ l. map (λ r. value_of name r.fields) (table "LSUpsertMessage") ++ l)
            (map-map field inserted (table "LSInsertMessage"))
        ∙ sym (
            map-append (λ r. value_of name r.fields) (table "LSUpsertMessage")
              (table "LSInsertMessage")),
  )
    where
      field : Row F × Bool → Value F
      field p = value_of name p.0.fields
