-- ===== src/Tests/Steps.antt =====
-- Runs of the decoder of pkg/messagix/lightspeed on the tables of pkg/messagix/table. A float64 of
-- the JSON is a natural number here.
use meta_matrix_bridge.Prelude.{ℕ, ◌≡◌, refl, List, [], ◌∷◌, true, ◌⊎◌, none, some, if◌then◌else◌}
use meta_matrix_bridge.Prelude.Outcome.{ok}
use meta_matrix_bridge.Lightspeed.{
  Json, number, literal, array, Items, nil, cons, Value, undefined, i64, str, bool, Env, Decoder,
  Row, Schema, FieldInfo,
}
use meta_matrix_bridge.Lightspeed.Rows.{new_row}
use meta_matrix_bridge.Lightspeed.Rows.Readable.{is_readable, Fits}
use meta_matrix_bridge.Lightspeed.Rows.Keeps.{In, new_row-Keeps}
use meta_matrix_bridge.Lightspeed.Decode.{decode, step_type}
use meta_matrix_bridge.Lightspeed.Decode.Extends.{Extends}
use meta_matrix_bridge.Lightspeed.Decode.Conditions.{decode-if_equal, decode-if_not}
use meta_matrix_bridge.Strconv.{parse_int}
use meta_matrix_bridge.Tables.Folders.{ls_upsert_folder}
use meta_matrix_bridge.Tables.Registry.{lookup, field_by_name, ls_table}
use meta_matrix_bridge.Tables.Procedures.{sp_table, sp_to_dep_map}
use meta_matrix_bridge.Tables.Lookup.{
  is_listed, sp_table-field_by_name, field_by_name-new_row, lookup-sp_to_dep_map,
}

abbrev listed_env : Env ℕ
listed_env = record {
  float_zero = 0;
  to_int = λ n. n;
  now = λ n. n;
  decode_base64 = λ t. none;
  print_key = λ maps v. "";
  dependencies = λ name. lookup name (sp_to_dep_map ("upsertFolder" ∷ []));
  schemas = field_by_name;
}

abbrev empty_decoder : Decoder ℕ
empty_decoder = record {
  statement_references = λ k. none;
  maps = λ r. [];
  next_map = 0;
  clock_readings = 0;
  tables = λ name. [];
}

-- I64_FROM_STRING of "7", and a block that stores it and calls the procedure of folders with it.
abbrev seven : Json ℕ
seven = array (cons (number 19) (cons (literal "7") nil))

abbrev folder_steps : Json ℕ
folder_steps = array (
    cons (number 1) (
      cons (array (cons (number 3) (cons (number 2) (cons seven nil)))) (
        cons
          (array (
            cons (number 5)
              (cons (literal "upsertFolder") (cons seven (cons (literal "inbox") nil)))))
          nil)))

abbrev folder_data : List (Value ℕ)
folder_data = i64 7 ∷ str "inbox" ∷ undefined ∷ bool true ∷ []

new_row-Keeps_example :
    (row : Row ℕ) × (new_row 0 ls_upsert_folder folder_data ≡ ok row)
    × (In (3, bool true) row.unrecognized ⊎ ((f : FieldInfo) × In (f, bool true) row.fields))
unfolding is_readable
new_row-Keeps_example =
    new_row-Keeps 0 ls_upsert_folder folder_data 3 (bool true) refl refl refl refl refl

field_by_name-new_row_example :
    (row : Row ℕ) × (new_row 0 ls_upsert_folder folder_data ≡ ok row)
    × Fits ls_upsert_folder.fields row.fields
unfolding field_by_name lookup ls_table
field_by_name-new_row_example =
    field_by_name-new_row 0 "LSUpsertFolder" ls_upsert_folder folder_data refl

sp_table-field_by_name_example :
    (schema : Schema) × (field_by_name "LSUpsertFolder" ≡ some schema) × (is_readable schema ≡ true)
unfolding lookup sp_table
sp_table-field_by_name_example = sp_table-field_by_name "upsertFolder" "LSUpsertFolder" refl

lookup-sp_to_dep_map_example :
    lookup "upsertFolder" (sp_to_dep_map ("unknown" ∷ "upsertFolder" ∷ [])) ≡ (
      if is_listed "upsertFolder" ("unknown" ∷ "upsertFolder" ∷ [])
      then lookup "upsertFolder" sp_table
      else none)
lookup-sp_to_dep_map_example = lookup-sp_to_dep_map ("unknown" ∷ "upsertFolder" ∷ []) "upsertFolder"

-- IF (7 = 7) THEN store 7 at reference 2: the reference stays empty.
abbrev branch : Items ℕ
branch = cons (array (cons (number 3) (cons (number 2) (cons seven nil)))) nil

decode-if_equal_example :
    decode listed_env
      (array
        (cons (number 23) (cons (array (cons (number 30) (cons seven (cons seven nil)))) branch)))
      empty_decoder
    ≡ ok (undefined, empty_decoder)
unfolding decode step_type parse_int
decode-if_equal_example =
    decode-if_equal listed_env 23 branch empty_decoder refl 30 (cons seven (cons seven nil))
      (bool true) empty_decoder refl refl

decode-if_not_example :
    decode listed_env
      (array (cons (number 23) (cons (array (cons (number 26) (cons seven nil))) branch)))
      empty_decoder
    ≡ decode listed_env (array (cons (number 23) (cons seven branch))) empty_decoder
unfolding step_type
decode-if_not_example = decode-if_not listed_env 23 branch empty_decoder refl 26 seven nil refl
