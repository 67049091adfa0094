-- ===== src/Lightspeed/Rows/Keeps.antt =====
-- handleStoredProcedure of decode.go: where the data of a call go.
use meta_matrix_bridge.Prelude.{
  ℕ, zero, suc, ◌+◌, ◌≡◌, refl, ap, ◌∙◌, List, [], ◌∷◌, ◌++◌, Bool, true, false, ◌&&◌, ◌⊎◌, inl,
  inr, Bool-cases, ◌≢◌, Option, none, some, arith, leb, length, set, get_or, get_elem?, ℕ_discrete,
}
use meta_matrix_bridge.Prelude.Outcome.{Outcome, ok, err, panic, hang, ◌>>=◌}
use meta_matrix_bridge.Lightspeed.{
  Value, undefined, i64, int, float, str, bool, Exit, GoKind, int64_kind, string_kind,
  interface_kind, bool_kind, int_kind, float64_kind, other_kind, FieldInfo, Schema, Row,
}
use meta_matrix_bridge.Lightspeed.Rows.{
  Assigned, assigned, mismatch, unknown_kind, Filled, filled, too_short, or_break, is_undefined,
  zero_value, zeros, field_index, assign, fill_value, fill_one, fill_fields, left_over, new_row,
}
use meta_matrix_bridge.Lightspeed.Rows.Readable.{is_readable, Fits}
use meta_matrix_bridge.Lightspeed.Rows.Conforms.{OnFilled, new_row-Fits}

-- The kinds that the type switch has a case for.
abbrev pub is_known_kind : GoKind → Bool
is_known_kind other_kind = false
is_known_kind _ = true

abbrev pub are_known : List FieldInfo → Bool
are_known [] = true
are_known (f ∷ fs) = is_known_kind f.kind && are_known fs

-- An element of a list, by its place.
abbrev pub In : {A : Type 0} → A → List A → Type 0
In a xs = (j : ℕ) × (get_elem? xs j ≡ some a)

In-append : {A : Type 0} (a : A) (xs ys : List A) → In a xs → In a (xs ++ ys)
In-append a [] ys (j, h) = ground arith
In-append a (x ∷ xs) ys (zero, h) = (zero, h)
In-append a (x ∷ xs) ys (suc j, h) =
    let later : In a (xs ++ ys) = In-append a xs ys (j, h) in (suc later.0, later.1)

In-last : {A : Type 0} (a : A) (xs : List A) → In a (xs ++ (a ∷ []))
In-last a [] = (zero, refl)
In-last a (x ∷ xs) = let later : In a (xs ++ (a ∷ [])) = In-last a xs in (suc later.0, later.1)

get_or-get_elem? :
    {A : Type 0} (xs : List A) (i : ℕ) (a d : A) → get_elem? xs i ≡ some a → get_or xs i d ≡ a
get_or-get_elem? [] i a d h = ground arith
get_or-get_elem? (x ∷ xs) zero a d h = ground arith
get_or-get_elem? (x ∷ xs) (suc i) a d h = get_or-get_elem? xs i a d h

get_elem?-set :
    {A : Type 0} (xs : List A) (i j : ℕ) (a : A) → i ≢ j → get_elem? (set xs j a) i ≡ get_elem? xs i
get_elem?-set [] i j a h = refl
get_elem?-set (x ∷ xs) zero zero a h = ground arith
get_elem?-set (x ∷ xs) zero (suc j) a h = refl
get_elem?-set (x ∷ xs) (suc i) zero a h = refl
get_elem?-set (x ∷ xs) (suc i) (suc j) a h = get_elem?-set xs i j a (λ e. h (ap suc e))

module _ {F : Type 0} (i : ℕ) (v : Value F) where
  -- The datum is among the data still, or a field has it.
  Held : List (FieldInfo × Value F) → List (Value F) → Type 0
  Held before d = (get_elem? d i ≡ some v) ⊎ ((f : FieldInfo) × In (f, v) before)

  Held-more :
      (before more : List (FieldInfo × Value F)) (d : List (Value F))
      → Held before d
      → Held (before ++ more) d
  unfolding Held
  Held-more before more d (inl h) = inl h
  Held-more before more d (inr (f, h)) = inr (f, In-append (f, v) before more h)

  Held-take :
      (f : FieldInfo) (j : ℕ) (before : List (FieldInfo × Value F)) (d : List (Value F))
      → Held before d
      → Held (before ++ ((f, get_or d j undefined) ∷ [])) (set d j undefined)
  unfolding Held
  Held-take f j before d (inr (g, h)) = inr (g, In-append (g, v) before _ h)
  Held-take f j before d (inl h) = elim (ℕ_discrete i j) [
    | yes same ↦ inr (f, rw (← same, get_or-get_elem? d i v undefined h) (In-last (f, v) before))
    | no other ↦ inl (get_elem?-set d i j undefined other ∙ h)
  ]

  -- One round of the loop loses nothing, if the kind of the field is known.
  Kept : FieldInfo → List (FieldInfo × Value F) → Value F → List (Value F) → Type 0
  Kept f before u d = Held (before ++ ((f, u) ∷ [])) d

  fill_value-Kept :
      (f : FieldInfo) (w : Value F) (j : ℕ) (d : List (Value F))
      (before : List (FieldInfo × Value F)) (a : Assigned)
      → a ≢ unknown_kind
      → Held before d
      → OnFilled (Kept f before) (fill_value f.kind w j (get_or d j undefined) d a)
  unfolding Kept
  fill_value-Kept f w j d before assigned n h = Held-take f j before d h
  fill_value-Kept f w j d before mismatch n h = Held-more before _ d h
  fill_value-Kept f w j d before unknown_kind n h = elim (n refl) [ ]

  assign-known : (k : GoKind) (u : Value F) → is_known_kind k ≡ true → assign k u ≢ unknown_kind
  assign-known int64_kind (i64 n) h e = ground arith
  assign-known string_kind (str s) h e = ground arith
  assign-known interface_kind u h e = ground arith
  assign-known bool_kind (bool b) h e = ground arith
  assign-known int_kind (int n) h e = ground arith
  assign-known float64_kind (float x) h e = ground arith
  assign-known other_kind u h e = ground arith
  assign-known _ _ h e = ground arith

  fill_one-Kept :
      (f : FieldInfo) (w : Value F) (d : List (Value F)) (o : Option ℕ)
      (before : List (FieldInfo × Value F))
      → is_known_kind f.kind ≡ true
      → Held before d
      → OnFilled (Kept f before) (fill_one f.kind w d o)
  unfolding fill_one Kept
  fill_one-Kept f w d none before known h = Held-more before _ d h
  fill_one-Kept f w d (some j) before known h = elim (Bool-cases (leb (length d) j)) [
    | inl short ↦ rw short tt
    | inr long ↦ elim (Bool-cases (is_undefined (get_or d j undefined))) [
      | inl nothing ↦ rw (long, nothing) (Held-more before _ d h)
      | inr datum ↦
          rw (long, datum)
            (fill_value-Kept f w j d before (assign f.kind (get_or d j undefined))
              (assign-known f.kind (get_or d j undefined) known) h)
    ]
  ]

  -- What is returned has the property.
  IfOk : {A : Type 0} → (A → Type 0) → Outcome Exit A → Type 0
  IfOk P (ok a) = P a
  IfOk P _ = Unit

  IfOk-bind :
      {A B : Type 0} (Q : B → Type 0) (m : Outcome Exit A) (f : A → Outcome Exit B)
      → ((a : A) → IfOk Q (f a))
      → IfOk Q (m >>= f)
  unfolding IfOk
  IfOk-bind Q (ok a) f p = p a
  IfOk-bind Q (err x) f p = tt
  IfOk-bind Q panic f p = tt
  IfOk-bind Q hang f p = tt

  IfOk-or_break :
      {A : Type 0} (P : Value F → List (Value F) → Type 0) (Q : A → Type 0) (r : Filled F)
      (next : Value F → List (Value F) → Outcome Exit A) (stop : Outcome Exit A)
      → OnFilled P r
      → ((u : Value F) (d : List (Value F)) → P u d → IfOk Q (next u d))
      → IfOk Q stop
      → IfOk Q (or_break r next stop)
  IfOk-or_break P Q (filled u d) next stop p on_next on_stop = on_next u d p
  IfOk-or_break P Q too_short next stop p on_next on_stop = on_stop

  fill_fields-Held :
      (z : F) (before : List (FieldInfo × Value F)) (fs : List FieldInfo) (d : List (Value F))
      → are_known fs ≡ true
      → Held before d
      → IfOk (λ r. Held r.0 r.1) (fill_fields z before fs d)
  unfolding fill_fields IfOk Kept
  fill_fields-Held z before [] d known h = h
  fill_fields-Held z before (f ∷ fs) d known h =
      IfOk-bind (λ r. Held r.0 r.1) (field_index (before ++ zeros z (f ∷ fs)) f.index) _
        (λ o.
          IfOk-or_break (Kept f before) (λ r. Held r.0 r.1)
            (fill_one f.kind (zero_value z f.kind) d o) _ _
            (fill_one-Kept f (zero_value z f.kind) d o before (ground arith) h)
            (λ u d' k. fill_fields-Held z (before ++ ((f, u) ∷ [])) fs d' (ground arith) k)
            (Held-more before (zeros z (f ∷ fs)) d h))

  In-left_over :
      (n k : ℕ) (d : List (Value F))
      → is_undefined v ≡ false
      → get_elem? d k ≡ some v
      → In (n + k, v) (left_over n d)
  unfolding left_over
  In-left_over n k [] datum h = ground arith
  In-left_over n zero (u ∷ d) datum h =
      let same : u ≡ v = ground arith in rw (same, datum) (zero, ground arith)
  In-left_over n (suc k) (u ∷ d) datum h =
      let later : In (suc n + k, v) (left_over (suc n) d) = In-left_over (suc n) k d datum h in
      elim (Bool-cases (is_undefined u)) [
        | inl nothing ↦ rw nothing (later.0, ground (arith, later.1))
        | inr other ↦ rw other (suc later.0, ground (arith, later.1))
      ]

  Found : Row F → Type 0
  Found row = In (i, v) row.unrecognized ⊎ ((f : FieldInfo) × In (f, v) row.fields)

  Held-Found :
      (fields : List (FieldInfo × Value F)) (d : List (Value F))
      → is_undefined v ≡ false
      → Held fields d
      → Found (record { fields = fields; unrecognized = left_over 0 d })
  unfolding Held Found
  Held-Found fields d datum (inl h) =
      let place : In (0 + i, v) (left_over 0 d) = In-left_over 0 i d datum h in
      inl (place.0, ground (arith, place.1))
  Held-Found fields d datum (inr h) = inr h

  IfOk-map :
      {A B : Type 0} (P : A → Type 0) (Q : B → Type 0) (m : Outcome Exit A) (f : A → B)
      → IfOk P m
      → ((a : A) → P a → Q (f a))
      → IfOk Q (m >>= λ a. ok (f a))
  unfolding IfOk
  IfOk-map P Q (ok a) f p q = q a p
  IfOk-map P Q (err x) f p q = tt
  IfOk-map P Q panic f p q = tt
  IfOk-map P Q hang f p q = tt

  new_row-Found :
      (z : F) (schema : Schema) (d : List (Value F))
      → are_known schema.fields ≡ true
      → schema.unrecognized ≡ true
      → get_elem? d i ≡ some v
      → is_undefined v ≡ false
      → IfOk Found (new_row z schema d)
  unfolding new_row Held
  new_row-Found z schema d known recorded h datum = rw recorded (
      IfOk-map (λ r. Held r.0 r.1) Found (fill_fields z [] schema.fields d) _
        (fill_fields-Held z [] schema.fields d known (inl h))
        (λ r held. Held-Found r.0 r.1 datum held))

-- No datum is lost: each that is not nil is a value of the row or stands in the map `Unrecognized` under its place, where
-- the struct has that map, fields of known kinds and readable tags.
pub new_row-Keeps :
    {F : Type 0} (z : F) (schema : Schema) (d : List (Value F)) (i : ℕ) (v : Value F)
    → is_readable schema ≡ true
    → are_known schema.fields ≡ true
    → schema.unrecognized ≡ true
    → get_elem? d i ≡ some v
    → is_undefined v ≡ false
    → (row : Row F) × (new_row z schema d ≡ ok row)
      × (In (i, v) row.unrecognized ⊎ ((f : FieldInfo) × In (f, v) row.fields))
unfolding IfOk Found
new_row-Keeps z schema d i v readable known recorded h datum =
    let made : (row : Row _) × (new_row z schema d ≡ ok row) × Fits schema.fields row.fields =
      new_row-Fits z schema d readable in
    (made.0, made.1, (rw made.1 at (new_row-Found i v z schema d known recorded h datum)))
