-- ===== src/Lightspeed/Decode/Conditions.antt =====
-- Decode of decode.go: IF on the steps that compute a condition.
use meta_matrix_bridge.Prelude.{ℕ, ◌≡◌, refl, ap, sym, ◌∙◌, Bool, true, false, arith}
use meta_matrix_bridge.Prelude.Outcome.{Outcome, ok, err, panic, hang}
use meta_matrix_bridge.Lightspeed.{
  Json, number, array, Items, nil, cons, Value, undefined, i64, Exit, Env, Decoder,
}
use meta_matrix_bridge.Lightspeed.Decode.{StepType, step_type, if_step, not_step, i64_equal}
use meta_matrix_bridge.Lightspeed.Decode.{
  Decoding, pure, bind_result, decode, dispatch, run_if, run_equal, kept_int, equal_to,
}

module _ {F : Type 0} where
  decode-step :
      (e : Env F) (i : F) (k : StepType) (xs : Items F) (s : Decoder F)
      → step_type (e.to_int i) ≡ k
      → decode e (array (cons (number i) xs)) s ≡ dispatch e k xs s
  unfolding decode
  decode-step e i k xs s h = ap (λ t. dispatch e t xs s) h

  dispatch-if :
      (e : Env F) (c : Json F) (xs : Items F) (s : Decoder F)
      → dispatch e if_step (cons c xs) s ≡ bind_result (decode e c s) (λ v. run_if e v xs)
  unfolding decode
  dispatch-if e c xs s = refl

  is_i64 : Value F → Bool
  is_i64 (i64 n) = true
  is_i64 _ = false

  -- A predicate on the value, if one is returned.
  Gives : (Value F → Type 0) → Outcome Exit (Value F × Decoder F) → Type 0
  Gives P (ok (v, s)) = P v
  Gives P _ = Unit

  Gives-bind_result :
      {A : Type 0} (P : Value F → Type 0) (r : Outcome Exit (A × Decoder F))
      (f : A → Decoding F (Value F))
      → ((a : A) (s : Decoder F) → Gives P (f a s))
      → Gives P (bind_result r f)
  unfolding Gives
  Gives-bind_result P (ok (a, s)) f p = p a s
  Gives-bind_result P (err x) f p = tt
  Gives-bind_result P panic f p = tt
  Gives-bind_result P hang f p = tt

  NoInt : Value F → Type 0
  NoInt v = is_i64 v ≡ false

  NoInt-equal_to : (a : ℕ) (v : Value F) → NoInt (equal_to a v)
  unfolding NoInt is_i64 equal_to
  NoInt-equal_to a (i64 b) = refl
  NoInt-equal_to a _ = refl

  run_equal-NoInt :
      (e : Env F) (v : Value F) (xs : Items F) (s : Decoder F) → Gives NoInt (run_equal e v xs s)
  unfolding decode Gives NoInt is_i64
  run_equal-NoInt e (i64 a) nil s = tt
  run_equal-NoInt e (i64 a) (cons x xs) s =
      Gives-bind_result NoInt (decode e x s) _ (λ w t. NoInt-equal_to a w)
  run_equal-NoInt e _ xs s = refl

  equal-NoInt : (e : Env F) (ys : Items F) (s : Decoder F) → Gives NoInt (dispatch e i64_equal ys s)
  unfolding decode Gives
  equal-NoInt e nil s = tt
  equal-NoInt e (cons y ys) s =
      Gives-bind_result NoInt (decode e y s) _ (λ v t. run_equal-NoInt e v ys t)

  run_if-NoInt : (e : Env F) (v : Value F) (xs : Items F) → NoInt v → run_if e v xs ≡ pure undefined
  unfolding decode NoInt is_i64
  run_if-NoInt e (i64 n) xs p = ground arith
  run_if-NoInt e _ xs p = refl

  run_if-kept_int :
      (e : Env F) (v : Value F) (xs : Items F) → run_if e (kept_int v) xs ≡ run_if e v xs
  unfolding decode kept_int
  run_if-kept_int e (i64 n) xs = refl
  run_if-kept_int e _ xs = refl

  bind_result-pure :
      (r : Outcome Exit (Value F × Decoder F)) (g : Value F → Value F)
      (f h : Value F → Decoding F (Value F))
      → ((v : Value F) → f (g v) ≡ h v)
      → bind_result (bind_result r (λ v. pure (g v))) f ≡ bind_result r h
  bind_result-pure (ok (v, s)) g f h p = ap (λ k. k s) (p v)
  bind_result-pure (err x) g f h p = refl
  bind_result-pure panic g f h p = refl
  bind_result-pure hang g f h p = refl

module _ {F : Type 0} (e : Env F) (i : F) (xs : Items F) (s : Decoder F)
    (is_if : step_type (e.to_int i) ≡ if_step) where
  -- An IF on an I64_EQUAL runs neither of its branches, whether the numbers are equal or not: the
  -- state is the one after the condition.
  pub decode-if_equal :
      (q : F) (ys : Items F) (v : Value F) (t : Decoder F)
      → step_type (e.to_int q) ≡ i64_equal
      → decode e (array (cons (number q) ys)) s ≡ ok (v, t)
      → decode e (array (cons (number i) (cons (array (cons (number q) ys)) xs))) s
        ≡ ok (undefined, t)
  unfolding Gives
  decode-if_equal q ys v t is_equal runs =
      decode-step e i if_step (cons (array (cons (number q) ys)) xs) s is_if
      ∙ dispatch-if e (array (cons (number q) ys)) xs s
      ∙ ap (λ r. bind_result r (λ w. run_if e w xs)) runs
      ∙ ap (λ m. m t)
          (run_if-NoInt e v xs
            (rw (sym (decode-step e q i64_equal ys s is_equal) ∙ runs) at (equal-NoInt e ys s)))

  -- An IF on a NOT does what it does on the condition itself.
  pub decode-if_not :
      (n : F) (c : Json F) (ys : Items F)
      → step_type (e.to_int n) ≡ not_step
      → decode e (array (cons (number i) (cons (array (cons (number n) (cons c ys))) xs))) s
        ≡ decode e (array (cons (number i) (cons c xs))) s
  unfolding decode
  decode-if_not n c ys is_not =
      decode-step e i if_step (cons (array (cons (number n) (cons c ys))) xs) s is_if
      ∙ ap (λ r. bind_result r (λ v. run_if e v xs)) (decode-step e n not_step (cons c ys) s is_not)
      ∙ bind_result-pure (decode e c s) kept_int _ _ (λ v. run_if-kept_int e v xs)
      ∙ sym (decode-step e i if_step (cons c xs) s is_if)
