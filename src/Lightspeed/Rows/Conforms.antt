-- ===== src/Lightspeed/Rows/Conforms.antt =====
-- handleStoredProcedure of decode.go: the kinds of the values that it sets.
use meta_matrix_bridge.Prelude.{
  ℕ, ◌≡◌, refl, ◌∙◌, List, [], ◌∷◌, ◌++◌, append_assoc, append-nil, true, Option, none, some, inl,
  inr, Bool-cases, arith, leb, length, get_or,
}
use meta_matrix_bridge.Prelude.Outcome.{Outcome, ok, Yields, Yields-bind, Yields-returned}
use meta_matrix_bridge.Lightspeed.{
  Value, undefined, i64, int, float, str, bool, Exit, GoKind, int64_kind, string_kind,
  interface_kind, bool_kind, int_kind, float64_kind, other_kind, FieldInfo, Schema, Row,
}
use meta_matrix_bridge.Lightspeed.Rows.{
  Filled, filled, too_short, or_break, is_undefined, zero_value, zeros, field_index, assign,
  fill_value, fill_one, fill_fields, new_row,
}
use meta_matrix_bridge.Lightspeed.Rows.Readable.{
  are_readable, is_readable, has_kind, Fits, Fits-append, has_kind-zero_value, Fits-zeros,
  field_index-Yields,
}

module _ {F : Type 0} where
  -- A predicate on what a round of the loop leaves, if the loop goes on.
  abbrev pub OnFilled : (Value F → List (Value F) → Type 0) → Filled F → Type 0
  OnFilled P (filled v d) = P v d
  OnFilled P too_short = Unit

  pub or_break-Yields :
      {A : Type 0} (P : Value F → List (Value F) → Type 0) (Q : A → Type 0) (r : Filled F)
      (next : Value F → List (Value F) → Outcome Exit A) (stop : Outcome Exit A)
      → OnFilled P r
      → ((v : Value F) (d : List (Value F)) → P v d → Yields Q (next v d))
      → Yields Q stop
      → Yields Q (or_break r next stop)
  or_break-Yields P Q (filled v d) next stop p on_next on_stop = on_next v d p
  or_break-Yields P Q too_short next stop p on_next on_stop = on_stop

  HasKind : GoKind → Value F → List (Value F) → Type 0
  HasKind k v d = has_kind k v ≡ true

  fill_value-HasKind :
      (k : GoKind) (w : Value F) (i : ℕ) (v : Value F) (d : List (Value F))
      → has_kind k w ≡ true
      → OnFilled (HasKind k) (fill_value k w i v d (assign k v))
  unfolding HasKind
  fill_value-HasKind int64_kind w i (i64 n) d h = refl
  fill_value-HasKind string_kind w i (str s) d h = refl
  fill_value-HasKind interface_kind w i v d h = refl
  fill_value-HasKind bool_kind w i (bool b) d h = refl
  fill_value-HasKind int_kind w i (int n) d h = refl
  fill_value-HasKind float64_kind w i (float x) d h = refl
  fill_value-HasKind other_kind w i v d h = h
  fill_value-HasKind _ w i _ d h = h

  fill_one-HasKind :
      (k : GoKind) (w : Value F) (d : List (Value F)) (o : Option ℕ)
      → has_kind k w ≡ true
      → OnFilled (HasKind k) (fill_one k w d o)
  unfolding fill_one HasKind
  fill_one-HasKind k w d none h = h
  fill_one-HasKind k w d (some i) h = elim (Bool-cases (leb (length d) i)) [
    | inl short ↦ rw short tt
    | inr long ↦ elim (Bool-cases (is_undefined (get_or d i undefined))) [
      | inl nothing ↦ rw (long, nothing) h
      | inr datum ↦ rw (long, datum) (fill_value-HasKind k w i (get_or d i undefined) d h)
    ]
  ]

  untouched-Fits :
      (z : F) (all fs gs : List FieldInfo) (before : List (FieldInfo × Value F))
      → gs ++ fs ≡ all
      → Fits gs before
      → Fits all (before ++ zeros z fs)
  untouched-Fits z all fs gs before e p =
      rw (← e) (Fits-append gs fs before (zeros z fs) p (Fits-zeros z fs))

  fill_fields-Fits :
      (z : F) (all fs : List FieldInfo) (gs : List FieldInfo) (before : List (FieldInfo × Value F))
      (d : List (Value F))
      → gs ++ fs ≡ all
      → Fits gs before
      → are_readable all fs ≡ true
      → Yields (λ r. Fits all r.0) (fill_fields z before fs d)
  unfolding are_readable fill_fields HasKind
  fill_fields-Fits z all [] gs before d e p h = rw (← e, append-nil gs) p
  fill_fields-Fits z all (f ∷ fs) gs before d e p h =
      Yields-bind (λ r. Fits all r.0) (field_index (before ++ zeros z (f ∷ fs)) f.index) _
        (field_index-Yields all (before ++ zeros z (f ∷ fs)) f.index
          (untouched-Fits z all (f ∷ fs) gs before e p) (ground arith))
        (λ o _.
          or_break-Yields (HasKind f.kind) (λ r. Fits all r.0)
            (fill_one f.kind (zero_value z f.kind) d o) _ _
            (fill_one-HasKind f.kind (zero_value z f.kind) d o (has_kind-zero_value z f.kind))
            (λ v d' k.
              fill_fields-Fits z all fs (gs ++ (f ∷ [])) (before ++ ((f, v) ∷ [])) d'
                (append_assoc gs (f ∷ []) fs ∙ e)
                (Fits-append gs (f ∷ []) before ((f, v) ∷ []) p (refl, k, tt)) (ground arith))
            (untouched-Fits z all (f ∷ fs) gs before e p))

  -- A row is made of every list of data, and it has the fields of the schema in their order, each
  -- with a value of its kind, where the tags of the schema are readable.
  pub new_row-Fits :
      (z : F) (schema : Schema) (d : List (Value F))
      → is_readable schema ≡ true
      → (row : Row F) × (new_row z schema d ≡ ok row) × Fits schema.fields row.fields
  unfolding is_readable new_row
  new_row-Fits z schema d h =
      Yields-returned (λ row. Fits schema.fields row.fields) (new_row z schema d)
        (Yields-bind (λ row. Fits schema.fields row.fields) (fill_fields z [] schema.fields d) _
          (fill_fields-Fits z schema.fields schema.fields [] [] d refl tt h) (λ r p. p))
