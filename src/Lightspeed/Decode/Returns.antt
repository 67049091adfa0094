-- ===== src/Lightspeed/Decode/Returns.antt =====
-- Decode of decode.go on steps that have the arguments that it reads.
use meta_matrix_bridge.Prelude.{◌+◌, ◌≡◌, refl, true, inl, inr, Bool-cases, arith, some}
use meta_matrix_bridge.Lightspeed.Rows.Readable.{is_readable}
use meta_matrix_bridge.Lightspeed.Decode.WellFormed.{
  is_well_formed, is_step, are_well_formed, has_arguments,
}
use meta_matrix_bridge.Lightspeed.Decode.Extends.{
  Extends, Extends-refl, Runs, Runs-pure, Runs-change, Runs-bind, Runs-or_skip, Runs-insert_row,
}
use meta_matrix_bridge.Lightspeed.{
  Json, null, boolean, number, literal, array, object, Items, nil, cons, Value, undefined, i64,
  values, map_ref, json_object, Schema, Env, store_reference, new_map, set_key,
}
use meta_matrix_bridge.Lightspeed.Decode.{
  StepType, step_type, block, load, store, store_array, call_stored_procedure,
  call_native_operation, undefined_step, to_blob, i64_from_string, if_step, not_step, i64_equal,
  logger_log, array_create, array_append, array_get_size, map_create, map_set, current_time,
  i64_add, unknown_step,
}
use meta_matrix_bridge.Lightspeed.Decode.{
  change, positive, store_at, load_from, read_clock, create_map, decode, step, decode_all, run_one,
  run_block, dispatch, run_if, run_else, run_map_set, run_append, run_add, run_equal, appended,
  sum_of, equal_to, key_text,
}
use Prim.Native.String.{String}

module _ {F : Type 0} (e : Env F)
    (readable : (table : String) (schema : Schema)
      → e.schemas table ≡ some schema
      → is_readable schema ≡ true) where
  Runs-store_at : (k : F) (v : Value F) → Runs e (store_at e (number k) v)
  unfolding store_at
  Runs-store_at k v = Runs-change e (store_reference (e.to_int k) v) (λ s table. refl)

  Runs-load_from : (k : Json F) → Runs e (load_from e k)
  unfolding load_from Runs
  Runs-load_from (number k) s = Extends-refl e s s (λ table. refl)
  Runs-load_from _ s = Extends-refl e s s (λ table. refl)

  Runs-read_clock : Runs e (read_clock e)
  unfolding read_clock Runs
  Runs-read_clock s =
      Extends-refl e s (record s { clock_readings = s.clock_readings + 1 }) (λ table. refl)

  Runs-create_map : Runs e create_map
  unfolding create_map Runs
  Runs-create_map s = Extends-refl e s (new_map s) (λ table. refl)

  -- What follows the first argument of a step, whatever its value is.
  Runs-run_if :
      (v : Value F) (y : Json F) (xs : Items F)
      → Runs e (decode e y)
      → Runs e (run_else e xs)
      → Runs e (run_if e v (cons y xs))
  unfolding decode
  Runs-run_if (i64 n) y xs p q = elim (Bool-cases (positive n)) [
    | inl above ↦ rw above (Runs-bind e (decode e y) _ p (λ w. Runs-pure e undefined))
    | inr below ↦ rw below q
  ]
  Runs-run_if _ y xs p q = Runs-pure e undefined

  Runs-run_map_set :
      (m : Value F) (k x : Json F) (xs : Items F)
      → Runs e (decode e k)
      → Runs e (decode e x)
      → Runs e (run_map_set e m (cons k (cons x xs)))
  unfolding decode
  Runs-run_map_set (map_ref r) k x xs p q = Runs-bind e (decode e k) _ p (λ key.
      Runs-bind e (decode e x) _ q
        (λ v. Runs-change e (λ s. set_key r (key_text e s.maps key) v s) (λ s table. refl)))
  Runs-run_map_set json_object k x xs p q =
      Runs-bind e (decode e k) _ p
        (λ key. Runs-bind e (decode e x) _ q (λ v. Runs-pure e undefined))
  Runs-run_map_set _ k x xs p q = Runs-pure e undefined

  Runs-run_append :
      (v : Value F) (y : Json F) (xs : Items F)
      → Runs e (decode e y)
      → Runs e (run_append e v (cons y xs))
  unfolding decode
  Runs-run_append (values vs) y xs p =
      Runs-bind e (decode e y) _ p (λ w. Runs-pure e (appended vs w))
  Runs-run_append _ y xs p = Runs-pure e undefined

  Runs-run_add :
      (v : Value F) (y : Json F) (xs : Items F)
      → Runs e (decode e y)
      → Runs e (run_add e v (cons y xs))
  unfolding decode
  Runs-run_add (i64 a) y xs p = Runs-bind e (decode e y) _ p (λ w. Runs-pure e (sum_of a w))
  Runs-run_add _ y xs p = Runs-pure e undefined

  Runs-run_equal :
      (v : Value F) (y : Json F) (xs : Items F)
      → Runs e (decode e y)
      → Runs e (run_equal e v (cons y xs))
  unfolding decode
  Runs-run_equal (i64 a) y xs p = Runs-bind e (decode e y) _ p (λ w. Runs-pure e (equal_to a w))
  Runs-run_equal _ y xs p = Runs-pure e undefined

  mutual
    unfolding decode is_well_formed

    Runs-decode : (j : Json F) → is_well_formed e j ≡ true → Runs e (decode e j)
    Runs-decode (array xs) h = Runs-step xs h
    Runs-decode null h = Runs-pure e _
    Runs-decode (boolean b) h = Runs-pure e _
    Runs-decode (number x) h = Runs-pure e _
    Runs-decode (literal t) h = Runs-pure e _
    Runs-decode object h = Runs-pure e _

    Runs-step : (xs : Items F) → is_step e xs ≡ true → Runs e (step e xs)
    Runs-step (cons (number t) xs) h = Runs-dispatch (step_type (e.to_int t)) xs h
    Runs-step _ h = ground arith

    Runs-decode_all : (xs : Items F) → are_well_formed e xs ≡ true → Runs e (decode_all e xs)
    Runs-decode_all nil h = Runs-pure e _
    Runs-decode_all (cons x xs) h = Runs-bind e (decode e x) _ (Runs-decode x (ground arith)) (λ v.
        Runs-bind e (decode_all e xs) _ (Runs-decode_all xs (ground arith)) (λ vs. Runs-pure e _))

    Runs-run_one : (x : Json F) → is_well_formed e x ≡ true → Runs e (run_one e x)
    Runs-run_one (array xs) h = Runs-step xs h
    Runs-run_one _ h = Runs-pure e _

    Runs-run_block : (xs : Items F) → are_well_formed e xs ≡ true → Runs e (run_block e xs)
    Runs-run_block nil h = Runs-pure e _
    Runs-run_block (cons x xs) h =
        Runs-bind e (run_one e x) _ (Runs-run_one x (ground arith))
          (λ v. Runs-run_block xs (ground arith))

    Runs-run_else : (xs : Items F) → are_well_formed e xs ≡ true → Runs e (run_else e xs)
    Runs-run_else nil h = Runs-pure e undefined
    Runs-run_else (cons null xs) h = Runs-pure e undefined
    Runs-run_else (cons x xs) h =
        Runs-bind e (decode e x) _ (Runs-decode x (ground arith)) (λ v. Runs-pure e undefined)

    Runs-dispatch :
        (t : StepType) (xs : Items F) → has_arguments e t xs ≡ true → Runs e (dispatch e t xs)
    Runs-dispatch block nil h = Runs-pure e _
    Runs-dispatch block (cons x xs) h =
        Runs-bind e (run_one e x) _ (Runs-run_one x (ground arith))
          (λ v. Runs-run_block xs (ground arith))
    Runs-dispatch load (cons k xs) h = Runs-load_from k
    Runs-dispatch store (cons (number k) (cons x xs)) h =
        Runs-bind e (decode e x) _ (Runs-decode x h) (λ v. Runs-store_at k v)
    Runs-dispatch store_array (cons (number k) (cons (number v) xs)) h =
        Runs-bind e (change (store_reference (e.to_int k) (i64 (e.to_int v)))) _
          (Runs-change e _ (λ s table. refl))
          (λ u.
            Runs-bind e (dispatch e (step_type (e.to_int v)) xs) _
              (Runs-dispatch (step_type (e.to_int v)) xs h) (λ w. Runs-pure e undefined))
    Runs-dispatch call_stored_procedure (cons (literal name) xs) h =
        Runs-or_skip e (e.dependencies name) _ (λ table _.
          Runs-or_skip e (e.schemas table) _ (λ schema found.
            Runs-bind e (decode_all e xs) _ (Runs-decode_all xs h)
              (λ d. Runs-insert_row e schema table d found (readable table schema found))))
    Runs-dispatch call_stored_procedure (cons k xs) h = Runs-pure e undefined
    Runs-dispatch undefined_step xs h = Runs-pure e _
    Runs-dispatch i64_from_string (cons x xs) h = Runs-pure e _
    Runs-dispatch if_step (cons x (cons y xs)) h =
        Runs-bind e (decode e x) _ (Runs-decode x (ground arith))
          (λ v. Runs-run_if v y xs (Runs-decode y (ground arith)) (Runs-run_else xs (ground arith)))
    Runs-dispatch not_step (cons x xs) h =
        Runs-bind e (decode e x) _ (Runs-decode x h) (λ v. Runs-pure e _)
    Runs-dispatch current_time xs h = Runs-read_clock
    Runs-dispatch call_native_operation xs h = Runs-pure e _
    Runs-dispatch map_create xs h = Runs-create_map
    Runs-dispatch map_set (cons x (cons k (cons v xs))) h =
        Runs-bind e (decode e x) _ (Runs-decode x (ground arith)) (λ m.
          Runs-run_map_set m k v xs (Runs-decode k (ground arith)) (Runs-decode v (ground arith)))
    Runs-dispatch array_create xs h = Runs-pure e _
    Runs-dispatch array_append (cons x (cons y xs)) h =
        Runs-bind e (decode e x) _ (Runs-decode x (ground arith))
          (λ v. Runs-run_append v y xs (Runs-decode y (ground arith)))
    Runs-dispatch array_get_size (cons x xs) h =
        Runs-bind e (decode e x) _ (Runs-decode x h) (λ v. Runs-pure e _)
    Runs-dispatch logger_log (cons x xs) h = Runs-pure e _
    Runs-dispatch i64_add (cons x (cons y xs)) h =
        Runs-bind e (decode e x) _ (Runs-decode x (ground arith))
          (λ v. Runs-run_add v y xs (Runs-decode y (ground arith)))
    Runs-dispatch i64_equal (cons x (cons y xs)) h =
        Runs-bind e (decode e x) _ (Runs-decode x (ground arith))
          (λ v. Runs-run_equal v y xs (Runs-decode y (ground arith)))
    Runs-dispatch to_blob (cons x xs) h = Runs-pure e _
    Runs-dispatch unknown_step xs h = Runs-pure e _
    Runs-dispatch _ _ h = ground arith
