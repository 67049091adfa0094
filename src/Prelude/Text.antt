-- ===== src/Prelude/Text.antt =====
-- Text as the list of its bytes; every literal of this library is ASCII.
use Prim.Native.Nat.{ℕ}
use meta_matrix_bridge.Prelude.Tests.{◌==◌}
use Prim.Native.Char.{code}
use Prim.Native.String.{String, compare}
use mathlib.Core.Bool.{Bool, true, false, ◌&&◌}
use mathlib.Core.Path.{◌≡◌, refl}
use native.Mathlib.Omega.{arith}
use mathlib.Core.List.{List, [], ◌∷◌}
use text.Mathlib.Text.{is_eq, ◌==◌ as str_eq}
use text.Mathlib.TextEquality.{path_by_compare}
use Prim.Native.Nat.{Ordering}

abbrev pub codes : String → List ℕ
codes String.[] = []
codes (String.◌∷◌ c s) = code c ∷ codes s

abbrev pub text_eq : List ℕ → List ℕ → Bool
text_eq [] [] = true
text_eq (a ∷ s) (b ∷ t) = (a == b) && text_eq s t
text_eq _ _ = false

equal-same : (o : Ordering) → is_eq o ≡ true → o ≡ Ordering.eq
equal-same Ordering.eq h = refl
equal-same Ordering.lt h = ground arith
equal-same Ordering.gt h = ground arith

pub str_eq-same : (s t : String) → str_eq s t ≡ true → s ≡ t
str_eq-same s t h = path_by_compare s t (equal-same (compare s t) h)
