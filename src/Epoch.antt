-- ===== src/Epoch.antt =====
-- pkg/messagix/methods/methods.go: GenerateEpochID. A call takes the clock's milliseconds and the two
-- variables that the mutex guards. An int64 is its 64-bit pattern.
pub mod Ascending
use meta_matrix_bridge.Prelude.{ℕ, ◌+◌, ◌*◌, ◌%◌, List, [], ◌∷◌, bit_or, ◌==◌, if◌then◌else◌}

pub record Epoch : Type 0 where
  pub last_timestamp : ℕ
  pub counter : ℕ

abbrev pub initial : Epoch
initial = record { last_timestamp = 0; counter = 0 }

unfoldable pub advance : ℕ → Epoch → Epoch
advance timestamp s =
    if timestamp == s.last_timestamp
    then record {
      last_timestamp = s.last_timestamp;
      counter = (s.counter + 1) % 18446744073709551616;
    }
    else record { last_timestamp = timestamp; counter = 0 }

-- (timestamp << 22) | (counter << 12) | 42
unfoldable pub identifier : ℕ → ℕ → ℕ
identifier timestamp counter =
    bit_or
      (bit_or (timestamp * 4194304 % 18446744073709551616) (counter * 4096 % 18446744073709551616))
      42

unfoldable pub generate_epoch_id : ℕ → Epoch → ℕ × Epoch
generate_epoch_id timestamp s =
    let s' = advance timestamp s in (identifier timestamp s'.counter, s')

-- Calls one after another, each at its reading of the clock.
unfoldable pub generate_all : List ℕ → Epoch → List ℕ
generate_all [] s = []
generate_all (timestamp ∷ ts) s = let r = generate_epoch_id timestamp s in r.0 ∷ generate_all ts r.1
