-- ===== src/Lightspeed.antt =====
-- pkg/messagix/lightspeed: the values, the types of rows and the state of the decoder of the steps that
-- the server sends. A float64 of the JSON is an element of the parameter `F`. An int64 and an int are
-- held by their 64-bit patterns, numbers below 2 ^ 64. A map of Go is a reference into the decoder's
-- heap of maps; an array is its list of items, so that an append leaves the array that it
-- was made from alone.
pub mod Rows
pub mod Decode
use meta_matrix_bridge.Prelude.{
  ℕ, ◌+◌, List, [], ◌∷◌, ◌++◌, Bool, true, false, Option, none, some, if◌then◌else◌, ◌==◌,
}
use meta_matrix_bridge.Prelude.Outcome.{Outcome, ok, err, panic, hang}
use Prim.Native.String.{String}
use text.Mathlib.Text.{◌==◌ as str_eq}

-- What encoding/json makes of the steps.
mutual
  pub data Json (F : Type 0) : Type 0 where
    null : Json F
    boolean : Bool → Json F
    number : F → Json F
    literal : String → Json F
    array : Items F → Json F
    object : Json F

  pub data Items (F : Type 0) : Type 0 where
    nil : Items F
    cons : Json F → Items F → Items F

-- The values of the interpreter; `undefined` is nil.
mutual
  pub data Value (F : Type 0) : Type 0 where
    undefined : Value F
    i64 : ℕ → Value F
    int : ℕ → Value F
    float : F → Value F
    str : String → Value F
    bool : Bool → Value F
    blob : List ℕ → Value F
    values : Values F → Value F
    map_ref : ℕ → Value F
    json_object : Value F

  pub data Values (F : Type 0) : Type 0 where
    no_values : Values F
    value : Value F → Values F → Values F

-- The kinds that reflect reports for the fields of the rows.
pub data GoKind : Type 0 where
  int64_kind string_kind interface_kind bool_kind int_kind float64_kind other_kind : GoKind

-- The tags of a field: the index, if there is one, or a condition with the text of its two indices.
pub data FieldIndex : Type 0 where
  at : ℕ → FieldIndex
  no_index : FieldIndex
  condition : (field : String) (indexes : String) → FieldIndex

pub record FieldInfo : Type 0 where
  pub name : String
  pub kind : GoKind
  pub index : FieldIndex

-- A struct of rows without its field `Unrecognized`, and whether it has that field.
pub record Schema : Type 0 where
  pub name : String
  pub fields : List FieldInfo
  pub unrecognized : Bool

-- A row is its fields in order, each with its value, and the map `Unrecognized`.
pub record Row (F : Type 0) : Type 0 where
  pub fields : List (FieldInfo × Value F)
  pub unrecognized : List (ℕ × Value F)

-- os.Exit(1)
pub data Exit : Type 0 where
  exit_one : Exit

-- What the decoder reads of its surroundings: the zero and the conversions of float64, the clock at each of its
-- readings, base64.StdEncoding, and `%v` for a key of a map that is no string, which prints
-- the maps that the key refers to as they are at that time.
pub record Env (F : Type 0) : Type 0 where
  pub float_zero : F
  pub to_int : F → ℕ
  pub now : ℕ → ℕ
  pub decode_base64 : String → Option (List ℕ)
  pub print_key : (ℕ → List (String × Value F)) → Value F → String
  pub dependencies : String → Option String
  pub schemas : String → Option Schema

pub record Decoder (F : Type 0) : Type 0 where
  pub statement_references : ℕ → Option (Value F)
  pub maps : ℕ → List (String × Value F)
  pub next_map : ℕ
  pub clock_readings : ℕ
  pub tables : String → List (Row F)

module _ {F : Type 0} where
  abbrev pub store_reference : ℕ → Value F → Decoder F → Decoder F
  store_reference key v s = record s {
    statement_references = λ k. if k == key then some v else s.statement_references k;
  }

  abbrev pub new_map : Decoder F → Decoder F
  new_map s = record s {
    maps = λ r. if r == s.next_map then [] else s.maps r;
    next_map = s.next_map + 1;
  }

  abbrev pub set_key : ℕ → String → Value F → Decoder F → Decoder F
  set_key ref key v s = record s { maps = λ r. if r == ref then (key, v) ∷ s.maps r else s.maps r }

  abbrev pub append_row : String → Row F → Decoder F → Decoder F
  append_row name row s = record s {
    tables = λ n. if str_eq n name then s.tables n ++ (row ∷ []) else s.tables n;
  }
