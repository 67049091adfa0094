-- ===== src/Tests/Epochs.antt =====
-- Runs of GenerateEpochID of pkg/messagix/methods.
use meta_matrix_bridge.Prelude.{ℕ, ◌≡◌, refl, List, [], ◌∷◌, arith}
use meta_matrix_bridge.Epoch.{initial, advance, identifier, generate_all}
use meta_matrix_bridge.Epoch.Ascending.{is_steady, Above, generate_all-Above, generate_all-repeats}

-- Three calls, two of them in one millisecond.
abbrev readings : List ℕ
readings = 1700000000000 ∷ 1700000000000 ∷ 1700000000007 ∷ []

generate_all-Above_example : Above 42 (generate_all readings initial)
unfolding is_steady advance
generate_all-Above_example = generate_all-Above readings initial (omega arith) refl

generate_all-repeats_example :
    generate_all (9 ∷ 8 ∷ 9 ∷ []) initial ≡ identifier 9 0 ∷ identifier 8 0 ∷ identifier 9 0 ∷ []
generate_all-repeats_example = generate_all-repeats 9 8 initial refl refl refl
