-- ===== src/Wrapped/Maps.antt =====
-- WrapMessages of wrappedmessage.go: what its maps hold. A Go map keeps the last entry that is set for
-- a key.
use meta_matrix_bridge.Prelude.{
  ℕ, suc, ◌+◌, ◌≡◌, refl, ap, sym, ◌∙◌, List, [], ◌∷◌, ◌++◌, Bool, true, false, Option, none, some,
  if◌then◌else◌, arith, length, length-append,
}
use meta_matrix_bridge.Lightspeed.{Row}
use meta_matrix_bridge.Tables.Registry.{lookup}
use meta_matrix_bridge.Wrapped.{
  WrappedMessage, Wrapping, wrapped, to_insert, string_of, wrap_upserts, wrap_reactions,
  wrap_inserts, wrap_bare, wrap_chats, cta_map, put_reaction,
}
use meta_matrix_bridge.Wrapped.Attach.{length-attach}
use Prim.Native.String.{String}
use text.Mathlib.Text.{◌==◌ as str_eq}

abbrev pub or_else : {A : Type 0} → Option A → Option A → Option A
or_else none o = o
or_else (some a) o = some a

pub or_else_if :
    {A : Type 0} (o m : Option A) (is_new : Bool) (a : A)
    → or_else o (if is_new then some a else m)
      ≡ or_else (or_else o (if is_new then some a else none)) m
or_else_if none m true a = refl
or_else_if none m false a = refl
or_else_if (some b) m is_new a = refl

or_else_assoc : {A : Type 0} (o p q : Option A) → or_else o (or_else p q) ≡ or_else (or_else o p) q
or_else_assoc none p q = refl
or_else_assoc (some a) p q = refl

pub or_else-none : {A : Type 0} (o : Option A) → or_else o none ≡ o
or_else-none none = refl
or_else-none (some a) = refl

-- The last row that has a text in a field.
unfoldable pub last_row : {F : Type 0} → String → String → List (Row F) → Option (Row F)
last_row field key [] = none
last_row field key (r ∷ rs) =
    or_else (last_row field key rs) (if str_eq (string_of field r) key then some r else none)

-- The index, counted from `n`, of the last row with a message identifier.
unfoldable pub last_place : {F : Type 0} → String → ℕ → List (Row F) → Option ℕ
last_place id n [] = none
last_place id n (r ∷ rs) =
    or_else (last_place id (suc n) rs)
      (if str_eq (string_of "MessageId" r) id then some n else none)

module _ {F : Type 0} where
  pub cta_map-last_row :
      (key : String) (rs : List (Row F)) (m : List (String × Row F))
      → lookup key (cta_map rs m) ≡ or_else (last_row "AttachmentFbid" key rs) (lookup key m)
  unfolding cta_map lookup last_row
  cta_map-last_row key [] m = refl
  cta_map-last_row key (r ∷ rs) m =
      cta_map-last_row key rs ((string_of "AttachmentFbid" r, r) ∷ m)
      ∙ or_else_if (last_row "AttachmentFbid" key rs) (lookup key m)
          (str_eq (string_of "AttachmentFbid" r) key) r

  last_place-append :
      (id : String) (n : ℕ) (xs ys : List (Row F))
      → last_place id n (xs ++ ys) ≡ or_else (last_place id (n + length xs) ys) (last_place id n xs)
  unfolding last_place
  last_place-append id n [] ys =
      ap (λ k. last_place id k ys) (omega arith) ∙ sym (or_else-none (last_place id (n + 0) ys))
  last_place-append id n (x ∷ xs) ys =
      ap (λ o. or_else o (if str_eq (string_of "MessageId" x) id then some n else none))
        (last_place-append id (suc n) xs ys
          ∙ ap (λ k. or_else (last_place id k ys) (last_place id (suc n) xs)) (omega arith))
      ∙ sym (or_else_assoc (last_place id (n + suc (length xs)) ys) (last_place id (suc n) xs) _)

  snoc-length :
      (heap : List (WrappedMessage F)) (w : WrappedMessage F)
      → length (heap ++ (w ∷ [])) ≡ suc (length heap)
  snoc-length heap w = omega (arith, length-append heap (w ∷ []))

  wrap_upserts-lookup :
      (z : F) (id : String) (rs : List (Row F)) (s : Wrapping F)
      → lookup id (wrap_upserts z rs s).message_map
        ≡ or_else (last_place id (length s.heap) rs) (lookup id s.message_map)
  unfolding wrap_upserts lookup last_place
  wrap_upserts-lookup z id [] s = refl
  wrap_upserts-lookup z id (r ∷ rs) s =
      wrap_upserts-lookup z id rs _
      ∙ ap
          (λ n. or_else (last_place id n rs) (
            if str_eq (string_of "MessageId" r) id
            then some (length s.heap)
            else lookup id s.message_map))
          (snoc-length s.heap (wrapped true (to_insert z r)))
      ∙ or_else_if (last_place id (suc (length s.heap)) rs) (lookup id s.message_map)
          (str_eq (string_of "MessageId" r) id) (length s.heap)

  pub length-wrap_upserts :
      (z : F) (rs : List (Row F)) (s : Wrapping F)
      → length (wrap_upserts z rs s).heap ≡ length s.heap + length rs
  unfolding wrap_upserts
  length-wrap_upserts z [] s = omega arith
  length-wrap_upserts z (r ∷ rs) s =
      length-wrap_upserts z rs _ ∙ omega (arith, snoc-length s.heap (wrapped true (to_insert z r)))

  wrap_inserts-lookup :
      (id : String) (rs : List (Row F)) (s : Wrapping F)
      → lookup id (wrap_inserts rs s).0.message_map
        ≡ or_else (last_place id (length s.heap) rs) (lookup id s.message_map)
  unfolding wrap_inserts lookup last_place
  wrap_inserts-lookup id [] s = refl
  wrap_inserts-lookup id (r ∷ rs) s =
      wrap_inserts-lookup id rs _
      ∙ ap
          (λ n. or_else (last_place id n rs) (
            if str_eq (string_of "MessageId" r) id
            then some (length s.heap)
            else lookup id s.message_map))
          (snoc-length s.heap (wrapped false r))
      ∙ or_else_if (last_place id (suc (length s.heap)) rs) (lookup id s.message_map)
          (str_eq (string_of "MessageId" r) id) (length s.heap)

  -- `messageMap` has, for a message identifier, the index of the last message with it, the upserted
  -- messages counted before the inserted ones.
  pub wrap_bare-lookup :
      (z : F) (table : String → List (Row F)) (id : String)
      → lookup id (wrap_bare z table).0.message_map
        ≡ last_place id 0 (table "LSUpsertMessage" ++ table "LSInsertMessage")
  unfolding wrap_bare wrap_reactions lookup
  wrap_bare-lookup z table id =
      wrap_inserts-lookup id (table "LSInsertMessage") (wrap_reactions table first)
      ∙ ap (λ n. or_else (last_place id n (table "LSInsertMessage")) (lookup id first.message_map))
          (length-attach _ put_reaction _ (table "LSUpsertReaction") first.heap
            ∙ length-wrap_upserts z (table "LSUpsertMessage") none_yet)
      ∙ ap
          (or_else (last_place id (0 + length (table "LSUpsertMessage")) (table "LSInsertMessage")))
          (wrap_upserts-lookup z id (table "LSUpsertMessage") none_yet
            ∙ or_else-none (last_place id 0 (table "LSUpsertMessage")))
      ∙ sym (last_place-append id 0 (table "LSUpsertMessage") (table "LSInsertMessage"))
    where
      none_yet : Wrapping F
      none_yet = record { heap = []; message_map = []; upsert = wrap_chats table }

      first : Wrapping F
      first = wrap_upserts z (table "LSUpsertMessage") none_yet
