-- ===== src/Lightspeed/Decode/Extends.antt =====
-- Decode of decode.go: what a run of steps does to the tables.
use meta_matrix_bridge.Prelude.{
  ◌≡◌, refl, sym, ◌∙◌, List, [], ◌∷◌, ◌++◌, append-nil, append_assoc, true, Option, none, some, inl,
  inr, Bool-cases, All, All-append,
}
use meta_matrix_bridge.Prelude.Outcome.{Outcome, ok, err, panic, hang, Yields}
use meta_matrix_bridge.Lightspeed.Rows.{new_row}
use meta_matrix_bridge.Lightspeed.Rows.Readable.{is_readable, Fits}
use meta_matrix_bridge.Lightspeed.Rows.Conforms.{new_row-Fits}
use meta_matrix_bridge.Lightspeed.{Value, undefined, Exit, Schema, Row, Env, Decoder, append_row}
use meta_matrix_bridge.Lightspeed.Decode.{
  Decoding, pure, change, bind_result, ◌>>=◌, or_skip, insert_row,
}
use meta_matrix_bridge.Prelude.Text.{str_eq-same}
use Prim.Native.String.{String}
use text.Mathlib.Text.{◌==◌ as str_eq}

module _ {F : Type 0} where
  -- A row with the fields that the environment lists for its table.
  abbrev pub RowOf : Env F → String → Row F → Type 0
  RowOf e table row =
      (schema : Schema) × (e.schemas table ≡ some schema) × Fits schema.fields row.fields

  -- Every table keeps its rows, in their order, and may have more rows of its type at its end.
  abbrev pub Extends : Env F → Decoder F → Decoder F → Type 0
  Extends e s s' =
      (table : String)
      → (more : List (Row F)) × (s'.tables table ≡ s.tables table ++ more)
        × All (RowOf e table) more

  pub Extends-refl :
      (e : Env F) (s s' : Decoder F)
      → ((table : String) → s'.tables table ≡ s.tables table)
      → Extends e s s'
  Extends-refl e s s' same table = ([], same table ∙ sym (append-nil (s.tables table)), tt)

  Extends-trans : (e : Env F) (s t u : Decoder F) → Extends e s t → Extends e t u → Extends e s u
  Extends-trans e s t u st tu table = (
    (st table).0 ++ (tu table).0,
    rw ((tu table).1, (st table).1) (append_assoc (s.tables table) (st table).0 (tu table).0),
    All-append (RowOf e table) (st table).0 (tu table).0 (st table).2 (tu table).2,
  )

  Extends-append_row :
      (e : Env F) (table : String) (row : Row F) (s : Decoder F)
      → RowOf e table row
      → Extends e s (append_row table row s)
  Extends-append_row e table row s of_table name = elim (Bool-cases (str_eq name table)) [
    | inl same ↦ (row ∷ [], rw same, (rw (str_eq-same name table same) of_table, tt))
    | inr other ↦ ([], rw other (sym (append-nil (s.tables name))), tt)
  ]

  -- The computation returns, and its tables extend those that it began with.
  unfoldable pub Runs : {A : Type 0} → Env F → Decoding F A → Type 0
  Runs e m = (s : Decoder F) → Yields (λ r. Extends e s r.1) (m s)

  pub Runs-pure : {A : Type 0} (e : Env F) (a : A) → Runs e (pure a)
  unfolding Runs
  Runs-pure e a s = Extends-refl e s s (λ table. refl)

  pub Runs-change :
      (e : Env F) (f : Decoder F → Decoder F)
      → ((s : Decoder F) (table : String) → (f s).tables table ≡ s.tables table)
      → Runs e (change f)
  unfolding Runs
  Runs-change e f same s = Extends-refl e s (f s) (same s)

  Yields-trans :
      {A : Type 0} (e : Env F) (s t : Decoder F) (r : Outcome Exit (A × Decoder F))
      → Extends e s t
      → Yields (λ r. Extends e t r.1) r
      → Yields (λ r. Extends e s r.1) r
  Yields-trans e s t (ok (b, u)) p q = Extends-trans e s t u p q
  Yields-trans e s t (err x) p q = elim q [ ]
  Yields-trans e s t panic p q = elim q [ ]
  Yields-trans e s t hang p q = elim q [ ]

  bind_result-Yields :
      {A B : Type 0} (e : Env F) (s : Decoder F) (r : Outcome Exit (A × Decoder F))
      (f : A → Decoding F B)
      → Yields (λ r. Extends e s r.1) r
      → ((a : A) → Runs e (f a))
      → Yields (λ r. Extends e s r.1) (bind_result r f)
  unfolding Runs
  bind_result-Yields e s (ok (a, t)) f p next = Yields-trans e s t (f a t) p (next a t)
  bind_result-Yields e s (err x) f p next = elim p [ ]
  bind_result-Yields e s panic f p next = elim p [ ]
  bind_result-Yields e s hang f p next = elim p [ ]

  pub Runs-bind :
      {A B : Type 0} (e : Env F) (m : Decoding F A) (f : A → Decoding F B)
      → Runs e m
      → ((a : A) → Runs e (f a))
      → Runs e (m >>= f)
  unfolding Runs
  Runs-bind e m f p next s = bind_result-Yields e s (m s) f (p s) next

  pub Runs-or_skip :
      {A : Type 0} (e : Env F) (o : Option A) (next : A → Decoding F (Value F))
      → ((a : A) → o ≡ some a → Runs e (next a))
      → Runs e (or_skip o next)
  Runs-or_skip e none next p = Runs-pure e undefined
  Runs-or_skip e (some a) next p = p a refl

  pub Runs-insert_row :
      (e : Env F) (schema : Schema) (table : String) (d : List (Value F))
      → e.schemas table ≡ some schema
      → is_readable schema ≡ true
      → Runs e (insert_row e schema table d)
  unfolding Runs insert_row
  Runs-insert_row e schema table d found readable s =
      let made : (row : Row F) × (new_row e.float_zero schema d ≡ ok row)
          × Fits schema.fields row.fields =
        new_row-Fits e.float_zero schema d readable in
      rw made.1 (Extends-append_row e table made.0 s (schema, found, made.2))
