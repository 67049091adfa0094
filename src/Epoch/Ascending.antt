-- ===== src/Epoch/Ascending.antt =====
-- GenerateEpochID of methods.go: the order of the identifiers of many calls.
use meta_matrix_bridge.Prelude.{
  ℕ, ◌+◌, ◌*◌, ◌%◌, ◌<◌, ◌≡◌, refl, ap, sym, ◌≤◌, ==_iff, ◌∙◌, List, [], ◌∷◌, Bool, true, false,
  ◌&&◌, ltb, leb, bit_or, ◌==◌, inl, inr, Bool-cases, arith,
}
use meta_matrix_bridge.Prelude.Bits.{bit_or-shifted, power_of_two}
use meta_matrix_bridge.Epoch.{Epoch, advance, identifier, generate_epoch_id, generate_all}

-- The clock never goes back, it is before the year 2039, and no millisecond has more than 1024 calls.
unfoldable pub is_steady : List ℕ → Epoch → Bool
is_steady [] s = true
is_steady (t ∷ ts) s =
    let s' = advance t s in
    leb s.last_timestamp t && ltb t 2199023255552 && ltb s'.counter 1024 && is_steady ts s'

-- Every identifier is larger than the one before it, and the first is larger than the bound.
abbrev pub Above : ℕ → List ℕ → Type 0
Above bound [] = Unit
Above bound (x ∷ xs) = (bound < x) × Above x xs

-- The fields of an identifier do not overlap.
pub identifier-sum :
    (t c : ℕ) → t < 2199023255552 → c < 1024 → identifier t c ≡ t * 4194304 + c * 4096 + 42
unfolding identifier power_of_two
identifier-sum t c h k =
    let wrap_t : t * 4194304 % 18446744073709551616 ≡ t * 4194304 = omega arith in
    let wrap_c : c * 4096 % 18446744073709551616 ≡ c * 4096 = omega arith in
    let regroup : t * 4194304 + c * 4096 ≡ (t * 1024 + c) * 4096 = omega arith in
    ap (λ x. bit_or (bit_or x (c * 4096 % 18446744073709551616)) 42) wrap_t
    ∙ ap (λ y. bit_or (bit_or (t * 4194304) y) 42) wrap_c
    ∙ ap (λ x. bit_or x 42) (bit_or-shifted 22 t (c * 4096) (omega arith) ∙ regroup)
    ∙ bit_or-shifted 12 (t * 1024 + c) 42 (omega arith)
    ∙ omega arith

last-advance : (t : ℕ) (s : Epoch) → (advance t s).last_timestamp ≡ t
unfolding advance
last-advance t s = elim (Bool-cases (t == s.last_timestamp)) [
  | inl again ↦ rw again (sym ((==_iff t s.last_timestamp).0 again))
  | inr later ↦ rw later refl
]

-- The two variables, read as one number, grow.
grows :
    (t : ℕ) (s : Epoch)
    → s.last_timestamp ≤ t
    → s.counter < 1024
    → s.last_timestamp * 4194304 + s.counter * 4096 < t * 4194304 + (advance t s).counter * 4096
unfolding advance
grows t s h k = elim (Bool-cases (t == s.last_timestamp)) [
  | inl again ↦ rw again (omega (arith, (==_iff t s.last_timestamp).0 again))
  | inr later ↦ rw later (ground arith)
]

-- On a steady clock the identifiers of any number of calls are all different, and each is larger than
-- the one before it.
pub generate_all-Above :
    (ts : List ℕ) (s : Epoch)
    → s.counter < 1024
    → is_steady ts s ≡ true
    → Above (s.last_timestamp * 4194304 + s.counter * 4096 + 42) (generate_all ts s)
unfolding generate_all generate_epoch_id is_steady
generate_all-Above [] s k steady = tt
generate_all-Above (t ∷ ts) s k steady =
    let not_back : s.last_timestamp ≤ t = ground arith in
    let early : t < 2199023255552 = ground arith in
    let few : (advance t s).counter < 1024 = ground arith in
    let rest : is_steady ts (advance t s) ≡ true = ground arith in
    let this : identifier t (advance t s).counter
        ≡ t * 4194304 + (advance t s).counter * 4096 + 42 =
      identifier-sum t (advance t s).counter early few in
    let further : Above ((advance t s).last_timestamp * 4194304 + (advance t s).counter * 4096 + 42)
        (generate_all ts (advance t s)) =
      generate_all-Above ts (advance t s) few rest in
    (
      omega (arith, this, grows t s not_back k),
      rw (this, ap (λ l. l * 4194304 + (advance t s).counter * 4096 + 42) (sym (last-advance t s)))
          further,
    )

-- When the clock leaves a millisecond and comes back to it, the identifier of that millisecond is given
-- out again.
pub generate_all-repeats :
    (t u : ℕ) (s : Epoch)
    → (t == s.last_timestamp) ≡ false
    → (u == t) ≡ false
    → (t == u) ≡ false
    → generate_all (t ∷ u ∷ t ∷ []) s ≡ identifier t 0 ∷ identifier u 0 ∷ identifier t 0 ∷ []
unfolding generate_all generate_epoch_id advance
generate_all-repeats t u s first away back = rw (first, away, back) refl
