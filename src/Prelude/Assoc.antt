-- ===== src/Prelude/Assoc.antt =====
-- Association lists keyed by numbers: a Go map of pointers, whose entries are changed in place.
use Prim.Native.Nat.{ℕ}
use mathlib.Core.Path.{◌≡◌, refl}
use mathlib.Core.Logic.{◌≢◌, inl, inr}
use mathlib.Core.Bool.{false}
use mathlib.Core.List.{List, [], ◌∷◌}
use mathlib.Core.Option.{Option, none, some}
use native.Mathlib.Omega.{arith}
use meta_matrix_bridge.Prelude.Tests.{◌==◌, if◌then◌else◌, Bool-cases}

module _ {ℓ} {B : Type ℓ} where
  unfoldable pub find : ℕ → List (ℕ × B) → Option B
  find k [] = none
  find k ((j, b) ∷ m) = let rest = find k m in if k == j then some b else rest

  -- The entry of the key, if there is one, is changed by `f`.
  unfoldable pub alter : ℕ → (B → B) → List (ℕ × B) → List (ℕ × B)
  alter k f [] = []
  alter k f ((j, b) ∷ m) = let rest = alter k f m in if k == j then (j, f b) ∷ m else (j, b) ∷ rest

  unfoldable pub changed : (B → B) → Option B → Option B
  changed f none = none
  changed f (some b) = some (f b)

  pub find-alter_same :
      (k : ℕ) (f : B → B) (m : List (ℕ × B)) → find k (alter k f m) ≡ changed f (find k m)
  unfolding find alter changed
  find-alter_same k f [] = refl
  find-alter_same k f ((j, b) ∷ m) = elim (Bool-cases (k == j)) [
    | inl same ↦ rw (same, find) (rw same refl)
    | inr other ↦ rw (other, find) (rw other (find-alter_same k f m))
  ]

  pub find-alter_other :
      (k i : ℕ) (f : B → B) (m : List (ℕ × B)) → k ≢ i → find k (alter i f m) ≡ find k m
  unfolding find alter
  find-alter_other k i f [] n = refl
  find-alter_other k i f ((j, b) ∷ m) n = elim (Bool-cases (i == j)) [
    | inl same ↦ let differ : (k == j) ≡ false = ground arith in rw same (rw differ refl)
    | inr other ↦ rw other (rw (find-alter_other k i f m n) refl)
  ]
