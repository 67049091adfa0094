-- ===== src/Dgw/Codec/Faults.antt =====
-- What Unmarshal does with frames whose length field no client of the gateway should send.
use meta_matrix_bridge.Prelude.{ℕ, ◌+◌, ◌*◌, ◌<◌, ◌≤◌, ◌≡◌, ◌↔◌, ◌⊎◌, List, ◌∷◌, arith}
use meta_matrix_bridge.Word.{get_le}
use meta_matrix_bridge.Dgw.Codec.{panicked, data_unmarshal}

-- The uint16 arithmetic of the length wraps for these values.
abbrev pub WrapsLength : ℕ → Type 0
WrapsLength n = (n < 2) ⊎ (65530 ≤ n)

-- Unmarshal of a data frame of eight bytes or more panics exactly if its length field is 0, 1, or at
-- least 65530.
pub data_unmarshal-panics :
    (t s0 s1 n0 n1 z a0 a1 : ℕ) (rest : List ℕ)
    → n0 < 256
    → n1 < 256
    → (data_unmarshal (t ∷ s0 ∷ s1 ∷ n0 ∷ n1 ∷ z ∷ a0 ∷ a1 ∷ rest) ≡ panicked)
      ↔ WrapsLength (n0 + 256 * n1)
unfolding data_unmarshal get_le
data_unmarshal-panics t s0 s1 n0 n1 z a0 a1 rest h k = (λ e. ground arith, λ w. ground arith)
