-- ===== src/Lightspeed/Rows/Readable.antt =====
-- handleStoredProcedure of decode.go: the tags of the fields, and the kinds of the values.
use meta_matrix_bridge.Prelude.{
  ℕ, ◌≡◌, refl, List, [], ◌∷◌, ◌++◌, Bool, true, false, ◌&&◌, if◌then◌else◌, inl, inr, Bool-cases,
  arith,
}
use meta_matrix_bridge.Prelude.Outcome.{Yields, Yields-bind}
use meta_matrix_bridge.Prelude.Text.{codes}
use meta_matrix_bridge.Strconv.{ℤ, pos, parse_int}
use meta_matrix_bridge.MetaId.Message.{split_n}
use meta_matrix_bridge.Lightspeed.{
  Value, undefined, i64, int, float, str, bool, GoKind, int64_kind, string_kind, interface_kind,
  bool_kind, int_kind, float64_kind, other_kind, FieldIndex, at, no_index, condition, FieldInfo,
  Schema,
}
use meta_matrix_bridge.Lightspeed.Rows.{
  tag_number, chosen, parse_condition_index, zero_value, zeros, as_bool, condition_value,
  field_index,
}
use Prim.Native.String.{String}
use text.Mathlib.Text.{◌==◌ as str_eq}

-- The tags of a schema that the loop can read: a condition names a Boolean field of the schema and
-- lists two numbers.
is_number : ℤ × Bool → Bool
is_number (pos n, true) = true
is_number _ = false

are_numbers : List (List ℕ) → Bool
unfolding is_number
are_numbers (first ∷ second ∷ rest) = is_number (parse_int first) && is_number (parse_int second)
are_numbers _ = false

is_bool_kind : GoKind → Bool
is_bool_kind bool_kind = true
is_bool_kind _ = false

is_bool_kind-eq : (k : GoKind) → is_bool_kind k ≡ true → k ≡ bool_kind
unfolding is_bool_kind
is_bool_kind-eq bool_kind h = refl
is_bool_kind-eq k h = ground arith

is_bool_field : String → List FieldInfo → Bool
unfolding is_bool_kind
is_bool_field name [] = false
is_bool_field name (f ∷ fs) =
    let rest = is_bool_field name fs in if str_eq f.name name then is_bool_kind f.kind else rest

pub is_readable_index : List FieldInfo → FieldIndex → Bool
unfolding are_numbers is_bool_field
is_readable_index fs (at i) = true
is_readable_index fs no_index = true
is_readable_index fs (condition name indexes) =
    is_bool_field name fs && are_numbers (split_n 3 (codes indexes) b',')

unfoldable pub are_readable : List FieldInfo → List FieldInfo → Bool
unfolding is_readable_index
are_readable all [] = true
are_readable all (f ∷ fs) = is_readable_index all f.index && are_readable all fs

unfoldable pub is_readable : Schema → Bool
unfolding are_readable
is_readable schema = are_readable schema.fields schema.fields

tag_number-Yields : (r : ℤ × Bool) → is_number r ≡ true → Yields (λ o. Unit {0}) (tag_number r)
unfolding is_number tag_number
tag_number-Yields (pos n, true) h = tt
tag_number-Yields _ h = ground arith

chosen-Yields :
    (b : Bool) (parts : List (List ℕ))
    → are_numbers parts ≡ true
    → Yields (λ o. Unit {0}) (chosen b parts)
unfolding are_numbers chosen
chosen-Yields b [] h = ground arith
chosen-Yields b (x ∷ []) h = ground arith
chosen-Yields true (x ∷ y ∷ parts) h = tag_number-Yields (parse_int x) (ground arith)
chosen-Yields false (x ∷ y ∷ parts) h = tag_number-Yields (parse_int y) (ground arith)

parse_condition_index-Yields :
    (b : Bool) (choices : String)
    → are_numbers (split_n 3 (codes choices) b',') ≡ true
    → Yields (λ o. Unit {0}) (parse_condition_index b choices)
unfolding parse_condition_index
parse_condition_index-Yields b choices h = chosen-Yields b (split_n 3 (codes choices) b',') h

module _ {F : Type 0} where
  -- The values that a field of a kind can hold; a field of another kind stays nil.
  abbrev pub has_kind : GoKind → Value F → Bool
  has_kind int64_kind (i64 n) = true
  has_kind string_kind (str s) = true
  has_kind interface_kind v = true
  has_kind bool_kind (bool b) = true
  has_kind int_kind (int n) = true
  has_kind float64_kind (float x) = true
  has_kind other_kind undefined = true
  has_kind _ _ = false

  abbrev pub Fits : List FieldInfo → List (FieldInfo × Value F) → Type 0
  Fits [] [] = Unit
  Fits [] (x ∷ row) = ⊥
  Fits (f ∷ fs) [] = ⊥
  Fits (f ∷ fs) ((g, v) ∷ row) = (g ≡ f) × (has_kind f.kind v ≡ true) × Fits fs row

  pub Fits-append :
      (fs gs : List FieldInfo) (row more : List (FieldInfo × Value F))
      → Fits fs row
      → Fits gs more
      → Fits (fs ++ gs) (row ++ more)
  Fits-append [] gs [] more p q = q
  Fits-append [] gs (x ∷ row) more p q = elim p [ ]
  Fits-append (f ∷ fs) gs [] more p q = elim p [ ]
  Fits-append (f ∷ fs) gs ((g, v) ∷ row) more (e, k, p) q = (e, k, Fits-append fs gs row more p q)

  pub has_kind-zero_value : (z : F) (k : GoKind) → has_kind k (zero_value z k) ≡ true
  has_kind-zero_value z int64_kind = refl
  has_kind-zero_value z string_kind = refl
  has_kind-zero_value z interface_kind = refl
  has_kind-zero_value z bool_kind = refl
  has_kind-zero_value z int_kind = refl
  has_kind-zero_value z float64_kind = refl
  has_kind-zero_value z other_kind = refl

  pub Fits-zeros : (z : F) (fs : List FieldInfo) → Fits fs (zeros z fs)
  Fits-zeros z [] = tt
  Fits-zeros z (f ∷ fs) = (refl, has_kind-zero_value z f.kind, Fits-zeros z fs)

  as_bool-Yields : (v : Value F) → has_kind bool_kind v ≡ true → Yields (λ b. Unit {0}) (as_bool v)
  unfolding as_bool
  as_bool-Yields v =
      elim v as (λ v. has_kind bool_kind v ≡ true → Yields (λ b. Unit {0}) (as_bool v)) [
        | bool b ↦ λ h. tt
        | _ ↦ λ h. ground arith
      ]

  condition_value-Yields :
      (name : String) (fs : List FieldInfo) (row : List (FieldInfo × Value F))
      → Fits fs row
      → is_bool_field name fs ≡ true
      → Yields (λ b. Unit {0}) (condition_value name row)
  unfolding is_bool_field condition_value
  condition_value-Yields name [] row p h = ground arith
  condition_value-Yields name (f ∷ fs) [] p h = elim p [ ]
  condition_value-Yields name (f ∷ fs) ((g, v) ∷ row) (e, k, p) h =
      elim (Bool-cases (str_eq f.name name)) [
        | inl here ↦
            rw (e, here) (as_bool-Yields v (rw (← is_bool_kind-eq f.kind (rw here at h)) k))
        | inr later ↦ rw (e, later) (condition_value-Yields name fs row p (rw later at h))
      ]

  pub field_index-Yields :
      (fs : List FieldInfo) (row : List (FieldInfo × Value F)) (i : FieldIndex)
      → Fits fs row
      → is_readable_index fs i ≡ true
      → Yields (λ o. Unit {0}) (field_index row i)
  unfolding is_readable_index field_index
  field_index-Yields fs row (at i) p h = tt
  field_index-Yields fs row no_index p h = tt
  field_index-Yields fs row (condition name indexes) p h =
      Yields-bind (λ o. Unit {0}) (condition_value name row) (λ b. parse_condition_index b indexes)
        (condition_value-Yields name fs row p (ground arith))
        (λ b _. parse_condition_index-Yields b indexes (ground arith))
