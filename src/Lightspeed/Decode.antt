-- ===== src/Lightspeed/Decode.antt =====
-- Decode of decode.go: the interpreter of the steps. A call takes the state of the decoder and gives
-- a value and the new state, or panics, or ends the process. An array that the program indexes
-- beyond its end panics.
pub mod WellFormed
pub mod Extends
pub mod Returns
pub mod Conditions
use meta_matrix_bridge.Prelude.{
  ℕ, zero, suc, ◌+◌, ◌%◌, List, [], ◌∷◌, ◌++◌, Bool, true, false, not, ◌&&◌, Option, none, some,
  if◌then◌else◌, ltb, ◌==◌, length,
}
use meta_matrix_bridge.Prelude.Outcome.{Outcome, ok, err, panic, hang}
use meta_matrix_bridge.Prelude.Text.{codes}
use meta_matrix_bridge.Strconv.{ℤ, to_u64, parse_int}
use meta_matrix_bridge.Lightspeed.{
  Json, null, boolean, number, literal, array, object, Items, nil, cons, Value, undefined, i64, int,
  float, str, bool, blob, values, map_ref, json_object, Values, no_values, value, Exit, exit_one,
  Schema, Row, Env, Decoder, store_reference, new_map, set_key, append_row,
}
use meta_matrix_bridge.Lightspeed.Rows.{new_row}
use Prim.Native.String.{String}

-- The step types that Decode handles, by their names in lightspeed.go.
pub data StepType : Type 0 where
  block load store store_array call_stored_procedure call_native_operation undefined_step : StepType
  to_blob i64_from_string if_step not_step i64_equal logger_log array_create array_append : StepType
  array_get_size map_create map_set current_time i64_add unknown_step : StepType

unfoldable pub step_type : ℕ → StepType
step_type n =
    if n == 1
    then block
    else (if n == 2
        then load
        else (if n == 3
            then store
            else (if n == 4
                then store_array
                else (if n == 5
                    then call_stored_procedure
                    else (if n == 7
                        then call_native_operation
                        else (if n == 9
                            then undefined_step
                            else (if n == 16
                                then to_blob
                                else (if n == 19
                                    then i64_from_string
                                    else (if n == 23
                                        then if_step
                                        else (if n == 26
                                            then not_step
                                            else (if n == 30
                                                then i64_equal
                                                else (if n == 49
                                                    then logger_log
                                                    else (if n == 50
                                                        then array_create
                                                        else (if n == 51
                                                            then array_append
                                                            else (if n == 52
                                                            then array_get_size
                                                            else (if n == 53
                                                            then map_create
                                                            else (if n == 55
                                                            then map_set
                                                            else (if n == 60
                                                            then current_time
                                                            else (if n == 69
                                                            then i64_add
                                                            else unknown_step)))))))))))))))))))

abbrev pub Decoding : Type 0 → Type 0 → Type 0
Decoding F A = Decoder F → Outcome Exit (A × Decoder F)

abbrev pub positive : ℕ → Bool
positive n = ltb 0 n && ltb n 9223372036854775808

module _ {F : Type 0} where
  abbrev pub pure : {A : Type 0} → A → Decoding F A
  pure a s = ok (a, s)

  abbrev pub crash : {A : Type 0} → Decoding F A
  crash s = panic

  abbrev pub quit : {A : Type 0} → Decoding F A
  quit s = err exit_one

  abbrev pub change : (Decoder F → Decoder F) → Decoding F (Value F)
  change f s = ok (undefined, f s)

  abbrev pub bind_result :
      {A B : Type 0}
      → Outcome Exit (A × Decoder F)
      → (A → Decoding F B)
      → Outcome Exit (B × Decoder F)
  bind_result (ok (a, s)) f = f a s
  bind_result (err e) f = err e
  bind_result panic f = panic
  bind_result hang f = hang

  infixl 5 ◌>>=◌
  abbrev pub ◌>>=◌ : {A B : Type 0} → Decoding F A → (A → Decoding F B) → Decoding F B
  m >>= f = λ s. bind_result (m s) f

  abbrev pub lift : {A : Type 0} → Outcome Exit A → Decoding F A
  lift (ok a) s = ok (a, s)
  lift (err e) s = err e
  lift panic s = panic
  lift hang s = hang

  -- A lookup whose absence ends the call.
  abbrev pub or_skip : {A : Type 0} → Option A → (A → Decoding F (Value F)) → Decoding F (Value F)
  or_skip none next = pure undefined
  or_skip (some a) next = next a

  unfoldable pub append_value : Values F → Value F → Values F
  append_value no_values v = value v no_values
  append_value (value w ws) v = value w (append_value ws v)

  unfoldable pub count_values : Values F → ℕ
  count_values no_values = 0
  count_values (value w ws) = suc (count_values ws)

  -- STORE, with the key that it converts after it has decoded the value.
  unfoldable pub store_at : Env F → Json F → Value F → Decoding F (Value F)
  store_at e (number k) v = change (store_reference (e.to_int k) v)
  store_at e _ v = crash

  unfoldable pub load_from : Env F → Json F → Decoding F (Value F)
  load_from e (number k) s =
      ok (elim (s.statement_references (e.to_int k)) [ none ↦ int 0 | some v ↦ v ], s)
  load_from e _ s = ok (int 0, s)

  unfoldable pub parsed_i64 : ℤ × Bool → Value F
  parsed_i64 (i, true) = i64 (to_u64 i)
  parsed_i64 (i, false) = int 0

  unfoldable pub from_string : Json F → Value F
  unfolding parsed_i64
  from_string (literal t) = parsed_i64 (parse_int (codes t))
  from_string _ = undefined

  unfoldable pub to_bytes : Env F → Json F → Value F
  to_bytes e (literal t) = elim (e.decode_base64 t) [ none ↦ undefined | some b ↦ blob b ]
  to_bytes e _ = undefined

  unfoldable pub read_clock : Env F → Decoding F (Value F)
  read_clock e s =
      ok (i64 (e.now s.clock_readings), record s { clock_readings = s.clock_readings + 1 })

  unfoldable pub create_map : Decoding F (Value F)
  create_map s = ok (map_ref s.next_map, new_map s)

  unfoldable pub key_text : Env F → (ℕ → List (String × Value F)) → Value F → String
  key_text e maps (str t) = t
  key_text e maps v = e.print_key maps v

  unfoldable pub kept_int : Value F → Value F
  kept_int (i64 n) = i64 n
  kept_int _ = undefined

  unfoldable pub array_size : Value F → Value F
  unfolding count_values
  array_size (values vs) = int (count_values vs)
  array_size _ = undefined

  unfoldable pub sum_of : ℕ → Value F → Value F
  sum_of a (i64 b) = i64 ((a + b) % 18446744073709551616)
  sum_of a _ = undefined

  unfoldable pub equal_to : ℕ → Value F → Value F
  equal_to a (i64 b) = bool (a == b)
  equal_to a _ = undefined

  unfoldable pub appended : Values F → Value F → Value F
  unfolding append_value
  appended vs v = values (append_value vs v)

  -- What `data.([]interface{})` leaves as it is.
  unfoldable pub leaf : Json F → Value F
  leaf null = undefined
  leaf (boolean b) = bool b
  leaf (number x) = float x
  leaf (literal t) = str t
  leaf (array xs) = undefined
  leaf object = json_object

  -- The end of handleStoredProcedure: the row is made and appended to its table.
  unfoldable pub insert_row : Env F → Schema → String → List (Value F) → Decoding F (Value F)
  insert_row e schema table d =
      lift (new_row e.float_zero schema d) >>= λ row. change (append_row table row)

  unfoldable mutual
    unfolding appended store_at load_from from_string to_bytes read_clock create_map key_text
        kept_int array_size sum_of equal_to leaf insert_row

    pub decode : Env F → Json F → Decoding F (Value F)
    decode e (array xs) = step e xs
    decode e j = pure (leaf j)

    pub step : Env F → Items F → Decoding F (Value F)
    step e (cons (number t) xs) = dispatch e (step_type (e.to_int t)) xs
    step e _ = crash

    pub decode_all : Env F → Items F → Decoding F (List (Value F))
    decode_all e nil = pure []
    decode_all e (cons x xs) = decode e x >>= λ v. decode_all e xs >>= λ vs. pure (v ∷ vs)

    -- A block skips what is no array.
    pub run_one : Env F → Json F → Decoding F (Value F)
    run_one e (array xs) = step e xs
    run_one e _ = pure undefined

    pub run_block : Env F → Items F → Decoding F (Value F)
    run_block e nil = pure undefined
    run_block e (cons x xs) = run_one e x >>= λ _. run_block e xs

    pub dispatch : Env F → StepType → Items F → Decoding F (Value F)
    dispatch e block nil = pure undefined
    dispatch e block (cons x xs) = run_one e x >>= λ _. run_block e xs
    dispatch e load (cons k xs) = load_from e k
    dispatch e store (cons k (cons x xs)) = decode e x >>= λ v. store_at e k v
    dispatch e store_array (cons (number k) (cons (number v) xs)) =
        change (store_reference (e.to_int k) (i64 (e.to_int v))) >>= λ _.
        dispatch e (step_type (e.to_int v)) xs >>= λ _. pure undefined
    dispatch e store_array (cons (number k) nil) = crash
    dispatch e store_array (cons k xs) = quit
    dispatch e call_stored_procedure (cons (literal name) xs) =
        or_skip (e.dependencies name) λ table.
          or_skip (e.schemas table) λ schema. decode_all e xs >>= λ d. insert_row e schema table d
    dispatch e call_stored_procedure (cons k xs) = pure undefined
    dispatch e undefined_step xs = pure undefined
    dispatch e i64_from_string (cons x xs) = pure (from_string x)
    dispatch e if_step (cons x xs) = decode e x >>= λ v. run_if e v xs
    dispatch e not_step (cons x xs) = decode e x >>= λ v. pure (kept_int v)
    dispatch e current_time xs = read_clock e
    dispatch e call_native_operation xs = pure undefined
    dispatch e map_create xs = create_map
    dispatch e map_set (cons x xs) = decode e x >>= λ m. run_map_set e m xs
    dispatch e array_create xs = pure (values no_values)
    dispatch e array_append (cons x xs) = decode e x >>= λ v. run_append e v xs
    dispatch e array_get_size (cons x xs) = decode e x >>= λ v. pure (array_size v)
    dispatch e logger_log (cons x xs) = pure undefined
    dispatch e i64_add (cons x xs) = decode e x >>= λ v. run_add e v xs
    dispatch e i64_equal (cons x xs) = decode e x >>= λ v. run_equal e v xs
    dispatch e to_blob (cons x xs) = pure (to_bytes e x)
    dispatch e unknown_step xs = pure undefined
    dispatch e _ _ = crash

    -- IF: the branches are taken only if the condition is an int64.
    pub run_if : Env F → Value F → Items F → Decoding F (Value F)
    run_if e (i64 n) (cons x xs) =
        if positive n then (decode e x >>= λ _. pure undefined) else run_else e xs
    run_if e (i64 n) nil = if positive n then crash else pure undefined
    run_if e _ xs = pure undefined

    pub run_else : Env F → Items F → Decoding F (Value F)
    run_else e nil = pure undefined
    run_else e (cons null xs) = pure undefined
    run_else e (cons x xs) = decode e x >>= λ _. pure undefined

    pub run_map_set : Env F → Value F → Items F → Decoding F (Value F)
    run_map_set e (map_ref r) (cons k (cons x xs)) = decode e k >>= λ key.
        decode e x >>= λ v. change (λ s. set_key r (key_text e s.maps key) v s)
    run_map_set e (map_ref r) (cons k nil) = decode e k >>= λ _. crash
    run_map_set e (map_ref r) nil = crash
    run_map_set e json_object (cons k (cons x xs)) =
        decode e k >>= λ key. decode e x >>= λ v. pure undefined
    run_map_set e json_object (cons k nil) = decode e k >>= λ _. crash
    run_map_set e json_object nil = crash
    run_map_set e _ xs = pure undefined

    pub run_append : Env F → Value F → Items F → Decoding F (Value F)
    run_append e (values vs) (cons x xs) = decode e x >>= λ v. pure (appended vs v)
    run_append e (values vs) nil = crash
    run_append e _ xs = pure undefined

    pub run_add : Env F → Value F → Items F → Decoding F (Value F)
    run_add e (i64 a) (cons x xs) = decode e x >>= λ v. pure (sum_of a v)
    run_add e (i64 a) nil = crash
    run_add e _ xs = pure undefined

    pub run_equal : Env F → Value F → Items F → Decoding F (Value F)
    run_equal e (i64 a) (cons x xs) = decode e x >>= λ v. pure (equal_to a v)
    run_equal e (i64 a) nil = crash
    run_equal e _ xs = pure undefined
