-- ===== src/Lightspeed/Decode/WellFormed.antt =====
-- Decode of decode.go: the steps that it runs to the end, by the numbers of their arguments and the types
-- that it asserts.
use meta_matrix_bridge.Prelude.{◌&&◌, Bool, true, false}
use meta_matrix_bridge.Lightspeed.{Json, number, literal, array, Items, nil, cons, Env}
use meta_matrix_bridge.Lightspeed.Decode.{
  StepType, step_type, block, load, store, store_array, call_stored_procedure,
  call_native_operation, undefined_step, to_blob, i64_from_string, if_step, not_step, i64_equal,
  logger_log, array_create, array_append, array_get_size, map_create, map_set, current_time,
  i64_add, unknown_step,
}

module _ {F : Type 0} where
  unfoldable mutual
    pub is_well_formed : Env F → Json F → Bool
    is_well_formed e (array xs) = is_step e xs
    is_well_formed e _ = true

    pub is_step : Env F → Items F → Bool
    is_step e (cons (number t) xs) = has_arguments e (step_type (e.to_int t)) xs
    is_step e _ = false

    pub are_well_formed : Env F → Items F → Bool
    are_well_formed e nil = true
    are_well_formed e (cons x xs) = is_well_formed e x && are_well_formed e xs

    pub has_arguments : Env F → StepType → Items F → Bool
    has_arguments e block nil = true
    has_arguments e block (cons x xs) = is_well_formed e x && are_well_formed e xs
    has_arguments e load (cons k xs) = true
    has_arguments e store (cons (number k) (cons x xs)) = is_well_formed e x
    has_arguments e store_array (cons (number k) (cons (number v) xs)) =
        has_arguments e (step_type (e.to_int v)) xs
    has_arguments e call_stored_procedure (cons (literal name) xs) = are_well_formed e xs
    has_arguments e call_stored_procedure (cons k xs) = true
    has_arguments e undefined_step xs = true
    has_arguments e i64_from_string (cons x xs) = true
    has_arguments e if_step (cons x (cons y xs)) =
        is_well_formed e x && is_well_formed e y && are_well_formed e xs
    has_arguments e not_step (cons x xs) = is_well_formed e x
    has_arguments e current_time xs = true
    has_arguments e call_native_operation xs = true
    has_arguments e map_create xs = true
    has_arguments e map_set (cons x (cons k (cons v xs))) =
        is_well_formed e x && is_well_formed e k && is_well_formed e v
    has_arguments e array_create xs = true
    has_arguments e array_append (cons x (cons y xs)) = is_well_formed e x && is_well_formed e y
    has_arguments e array_get_size (cons x xs) = is_well_formed e x
    has_arguments e logger_log (cons x xs) = true
    has_arguments e i64_add (cons x (cons y xs)) = is_well_formed e x && is_well_formed e y
    has_arguments e i64_equal (cons x (cons y xs)) = is_well_formed e x && is_well_formed e y
    has_arguments e to_blob (cons x xs) = true
    has_arguments e unknown_step xs = true
    has_arguments e _ _ = false
