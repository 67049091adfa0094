-- ===== src/Lightspeed/Rows.antt =====
-- handleStoredProcedure of decode.go, from the decoded data to the new row.
pub mod Readable
pub mod Conforms
pub mod Keeps
use meta_matrix_bridge.Prelude.{
  ℕ, zero, suc, ◌+◌, ◌≡◌, List, [], ◌∷◌, ◌++◌, Bool, true, false, not, ◌&&◌, Option, none, some,
  if◌then◌else◌, leb, length, set, get_or, ◌==◌,
}
use meta_matrix_bridge.Prelude.Outcome.{Outcome, ok, err, panic, hang, ◌>>=◌}
use meta_matrix_bridge.Prelude.Text.{codes}
use meta_matrix_bridge.Strconv.{ℤ, pos, negsuc, parse_int}
use meta_matrix_bridge.MetaId.Message.{split_n}
use meta_matrix_bridge.Lightspeed.{
  Value, undefined, i64, int, float, str, bool, Exit, GoKind, int64_kind, string_kind,
  interface_kind, bool_kind, int_kind, float64_kind, other_kind, FieldIndex, at, no_index,
  condition, FieldInfo, Schema, Row,
}
use Prim.Native.String.{String}
use text.Mathlib.Text.{◌==◌ as str_eq}

-- A number that a tag holds: an error of Atoi is `none`, and a negative number panics as an index.
tag_number : ℤ × Bool → Outcome Exit (Option ℕ)
tag_number (pos n, true) = ok (some n)
tag_number (negsuc n, true) = panic
tag_number _ = ok none

-- `indexes[0]` or `indexes[1]`, which panics where there is no comma.
chosen : Bool → List (List ℕ) → Outcome Exit (Option ℕ)
unfolding tag_number
chosen true (first ∷ rest) = tag_number (parse_int first)
chosen false (first ∷ second ∷ rest) = tag_number (parse_int second)
chosen _ _ = panic

unfoldable pub parse_condition_index : Bool → String → Outcome Exit (Option ℕ)
unfolding chosen
parse_condition_index b choices = chosen b (split_n 3 (codes choices) b',')

-- The type switch: the value is set, or has the wrong type and is left, or the kind is unknown and
-- the value is dropped.
pub data Assigned : Type 0 where
  assigned mismatch unknown_kind : Assigned

-- One round of the loop over the fields: what the field holds then, and what is left of the data.
-- `too_short` is the `break`.
pub data Filled (F : Type 0) : Type 0 where
  filled : Value F → List (Value F) → Filled F
  too_short : Filled F

module _ {F : Type 0} where
  abbrev pub is_undefined : Value F → Bool
  is_undefined undefined = true
  is_undefined _ = false

  -- The value of a field of a new struct; a slice and other kinds start as nil.
  abbrev pub zero_value : F → GoKind → Value F
  zero_value z int64_kind = i64 0
  zero_value z string_kind = str ""
  zero_value z bool_kind = bool false
  zero_value z int_kind = int 0
  zero_value z float64_kind = float z
  zero_value z _ = undefined

  abbrev pub zeros : F → List FieldInfo → List (FieldInfo × Value F)
  zeros z [] = []
  zeros z (f ∷ fs) = (f, zero_value z f.kind) ∷ zeros z fs

  -- `FieldByName(conditionField).Bool()`, which panics on anything but a Boolean field.
  as_bool : Value F → Outcome Exit Bool
  as_bool (bool b) = ok b
  as_bool _ = panic

  condition_value : String → List (FieldInfo × Value F) → Outcome Exit Bool
  unfolding as_bool
  condition_value name [] = panic
  condition_value name ((f, v) ∷ row) =
      let rest = condition_value name row in if str_eq f.name name then as_bool v else rest

  -- The index of a field, read from the row as it is so far; `none` is a tag that does not parse. A
  -- missing tag is read by Atoi as 0.
  unfoldable pub field_index : List (FieldInfo × Value F) → FieldIndex → Outcome Exit (Option ℕ)
  unfolding parse_condition_index condition_value
  field_index row (at i) = ok (some i)
  field_index row no_index = ok (some 0)
  field_index row (condition name indexes) =
      condition_value name row >>= λ b. parse_condition_index b indexes

  abbrev pub assign : GoKind → Value F → Assigned
  assign int64_kind (i64 n) = assigned
  assign string_kind (str s) = assigned
  assign interface_kind v = assigned
  assign bool_kind (bool b) = assigned
  assign int_kind (int n) = assigned
  assign float64_kind (float x) = assigned
  assign other_kind v = unknown_kind
  assign _ _ = mismatch

  abbrev pub fill_value : GoKind → Value F → ℕ → Value F → List (Value F) → Assigned → Filled F
  fill_value k zero_v i v d assigned = filled v (set d i undefined)
  fill_value k zero_v i v d mismatch = filled zero_v d
  fill_value k zero_v i v d unknown_kind = filled zero_v (set d i undefined)

  unfoldable pub fill_one : GoKind → Value F → List (Value F) → Option ℕ → Filled F
  fill_one k zero_v d none = filled zero_v d
  fill_one k zero_v d (some i) =
      let v = get_or d i undefined in
      if leb (length d) i
      then too_short
      else (if is_undefined v then filled zero_v d else fill_value k zero_v i v d (assign k v))

  abbrev pub or_break {ℓ} : {A : Type ℓ} → Filled F → (Value F → List (Value F) → A) → A → A
  or_break (filled v d) next stop = next v d
  or_break too_short next stop = stop

  -- The loop over the fields: `before` are the fields that it has passed.
  unfoldable pub fill_fields :
      F
      → List (FieldInfo × Value F)
      → List FieldInfo
      → List (Value F)
      → Outcome Exit (List (FieldInfo × Value F) × List (Value F))
  unfolding field_index
  fill_fields z before [] d = ok (before, d)
  fill_fields z before (f ∷ fs) d = field_index (before ++ zeros z (f ∷ fs)) f.index >>= λ o.
      or_break (fill_one f.kind (zero_value z f.kind) d o)
        (λ v d'. fill_fields z (before ++ ((f, v) ∷ [])) fs d') (ok (before ++ zeros z (f ∷ fs), d))

  -- The data that no field has taken, with their places.
  unfoldable pub left_over : ℕ → List (Value F) → List (ℕ × Value F)
  left_over i [] = []
  left_over i (v ∷ d) =
      let rest = left_over (suc i) d in if is_undefined v then rest else (i, v) ∷ rest

  unfoldable pub new_row : F → Schema → List (Value F) → Outcome Exit (Row F)
  unfolding fill_fields left_over
  new_row z schema d = fill_fields z [] schema.fields d >>= λ r.
      ok (record {
        fields = r.0;
        unrecognized = if schema.unrecognized then left_over 0 r.1 else [];
      })
