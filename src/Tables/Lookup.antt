-- ===== src/Tables/Lookup.antt =====
-- pkg/messagix/table/table.go: what a lookup in SPTable, in a map of SPToDepMap and in LSTable finds.
use meta_matrix_bridge.Prelude.{
  ◌≡◌, refl, ap, List, [], ◌∷◌, Bool, true, false, ◌&&◌, Option, none, some, if◌then◌else◌, inl,
  inr, Bool-cases, arith,
}
use meta_matrix_bridge.Lightspeed.{Schema, Row, Value}
use meta_matrix_bridge.Lightspeed.Rows.{new_row}
use meta_matrix_bridge.Lightspeed.Rows.Readable.{is_readable, Fits}
use meta_matrix_bridge.Lightspeed.Rows.Conforms.{new_row-Fits}
use meta_matrix_bridge.Prelude.Outcome.{ok}
use meta_matrix_bridge.Tables.Registry.{ls_table, lookup, field_by_name}
use meta_matrix_bridge.Tables.Procedures.{add_dependency, sp_table, add_dependencies, sp_to_dep_map}
use meta_matrix_bridge.MetaId.Message.{split_n}
use meta_matrix_bridge.Strconv.{parse_int}
use meta_matrix_bridge.Prelude.Text.{str_eq-same}
use Prim.Native.String.{String}
use text.Mathlib.Text.{◌==◌ as str_eq}

all_values {ℓ} : {A : Type ℓ} → (A → Bool) → List (String × A) → Bool
all_values p [] = true
all_values p ((key, a) ∷ table) = p a && all_values p table

lookup-all_values {ℓ} :
    {A : Type ℓ} (p : A → Bool) (name : String) (table : List (String × A)) (a : A)
    → all_values p table ≡ true
    → lookup name table ≡ some a
    → p a ≡ true
unfolding all_values lookup
lookup-all_values p name [] a h e = ground arith
lookup-all_values p name ((key, b) ∷ table) a h e = elim (Bool-cases (str_eq key name)) [
  | inl here ↦ ground arith
  | inr there ↦ lookup-all_values p name table a (ground arith) (rw there at e)
]

is_some {ℓ} : {A : Type ℓ} → Option A → Bool
is_some none = false
is_some (some a) = true

is_some-witness {ℓ} : {A : Type ℓ} (o : Option A) → is_some o ≡ true → (a : A) × (o ≡ some a)
unfolding is_some
is_some-witness none h = ground arith
is_some-witness (some a) h = (a, refl)

ls_table-readable : all_values is_readable ls_table ≡ true
unfolding all_values is_readable ls_table split_n parse_int
ls_table-readable = refl

sp_table-found : all_values (λ dep. is_some (field_by_name dep)) sp_table ≡ true
unfolding all_values is_some field_by_name sp_table lookup ls_table
sp_table-found = refl

some_or {ℓ} : {A : Type ℓ} → Option A → Option A → Option A
some_or none p = p
some_or (some a) p = some a

unfoldable pub is_listed : String → List String → Bool
is_listed name [] = false
is_listed name (d ∷ ds) = let rest = is_listed name ds in if str_eq d name then true else rest

-- A procedure of SPTable has a table in LSTable, so that the decoder does not skip its calls for want
-- of a type, and the tags of the rows are readable.
pub sp_table-field_by_name :
    (name dep_name : String)
    → lookup name sp_table ≡ some dep_name
    → (schema : Schema) × (field_by_name dep_name ≡ some schema) × (is_readable schema ≡ true)
unfolding field_by_name
sp_table-field_by_name name dep_name e =
    let found : (schema : Schema) × (field_by_name dep_name ≡ some schema) =
      is_some-witness (field_by_name dep_name) (
        lookup-all_values (λ dep. is_some (field_by_name dep)) name sp_table dep_name sp_table-found
          e) in
    (
      found.0,
      found.1,
      lookup-all_values is_readable dep_name ls_table found.0 ls_table-readable found.1,
    )

pub is_readable-field_by_name :
    (name : String) (schema : Schema) → field_by_name name ≡ some schema → is_readable schema ≡ true
unfolding field_by_name
is_readable-field_by_name name schema e =
    lookup-all_values is_readable name ls_table schema ls_table-readable e

-- A row is made of every list of data for every table of LSTable, and it has the fields of the
-- table's rows in their order, each with a value of its kind.
pub field_by_name-new_row :
    {F : Type 0} (z : F) (name : String) (schema : Schema) (d : List (Value F))
    → field_by_name name ≡ some schema
    → (row : Row F) × (new_row z schema d ≡ ok row) × Fits schema.fields row.fields
field_by_name-new_row z name schema d e =
    new_row-Fits z schema d (is_readable-field_by_name name schema e)

lookup-add_dependency :
    (d name : String) (o : Option String) (m : List (String × String))
    → lookup name (add_dependency d o m)
      ≡ (if str_eq d name then some_or o (lookup name m) else lookup name m)
unfolding lookup some_or
lookup-add_dependency d name none m = ground arith
lookup-add_dependency d name (some dep_name) m = refl

some_or-twice {ℓ} :
    {A : Type ℓ} (b : Bool) (o p : Option A)
    → (if b then some_or o (some_or o p) else some_or o p) ≡ some_or o p
unfolding some_or
some_or-twice b none p = ground arith
some_or-twice b (some a) p = ground arith

some_or-none {ℓ} : {A : Type ℓ} (o : Option A) → some_or o none ≡ o
unfolding some_or
some_or-none none = refl
some_or-none (some a) = refl

lookup-add_dependencies :
    (sp : List String) (m : List (String × String)) (name : String)
    → lookup name (add_dependencies sp m) ≡ (
        if is_listed name sp then some_or (lookup name sp_table) (lookup name m) else lookup name m)
unfolding add_dependencies is_listed
lookup-add_dependencies [] m name = refl
lookup-add_dependencies (d ∷ ds) m name =
    rw
      (
        lookup-add_dependencies ds (add_dependency d (lookup d sp_table) m) name,
        lookup-add_dependency d name (lookup d sp_table) m,
      )
      elim (Bool-cases (str_eq d name)) [
        | inl same ↦
            rw (same, str_eq-same d name same)
              (some_or-twice (is_listed name ds) (lookup name sp_table) (lookup name m))
        | inr other ↦ rw other refl
      ]

-- The map of SPToDepMap has the procedures of the list that are in SPTable, each with its table there,
-- and no other.
pub lookup-sp_to_dep_map :
    (sp : List String) (name : String)
    → lookup name (sp_to_dep_map sp) ≡ (if is_listed name sp then lookup name sp_table else none)
unfolding sp_to_dep_map lookup
lookup-sp_to_dep_map sp name =
    rw (lookup-add_dependencies sp [] name)
      (ap (λ o. if is_listed name sp then o else none) (some_or-none (lookup name sp_table)))
