-- ===== src/Wrapped/Messages.antt =====
-- WrapMessages of wrappedmessage.go: the messages that it gives back.
use meta_matrix_bridge.Prelude.{
  ℕ, zero, suc, ◌≡◌, refl, ap, sym, ◌∙◌, List, [], ◌∷◌, ◌++◌, append-nil, append_assoc, map, Bool,
  true, false, Option, some, inl, inr, Bool-cases, arith, length, length-append, get_elem?,
}
use meta_matrix_bridge.Lightspeed.{Row}
use meta_matrix_bridge.Wrapped.{
  WrappedMessage, Wrapping, wrapped, to_insert, string_of, wrap_upserts, wrap_reactions,
  wrap_inserts, wrap_bare, wrap_attachments, wrap_messages, put_reaction, put_blob, put_attachment,
  put_xma, put_sticker,
}
use meta_matrix_bridge.Wrapped.Attach.{attach-map, length-attach, map_option}
use meta_matrix_bridge.Wrapped.Maps.{length-wrap_upserts}
use Prim.Native.String.{String}

-- The row of a message, and whether it came as an upsert.
unfoldable pub view : {F : Type 0} → WrappedMessage F → Row F × Bool
view w = (w.message, w.is_upsert)

-- What is in the heap at each index.
abbrev pub views : {F : Type 0} → List (WrappedMessage F) → List ℕ → List (Option (Row F × Bool))
views heap js = map (λ j. map_option view (get_elem? heap j)) js

get_elem?-map :
    {A B : Type 0} (f : A → B) (xs : List A) (j : ℕ)
    → map_option f (get_elem? xs j) ≡ get_elem? (map f xs) j
get_elem?-map f [] j = refl
get_elem?-map f (x ∷ xs) zero = refl
get_elem?-map f (x ∷ xs) (suc j) = get_elem?-map f xs j

pub map-same :
    {A B : Type 0} (f g : A → B) (xs : List A) → ((a : A) → f a ≡ g a) → map f xs ≡ map g xs
map-same f g [] same = refl
map-same f g (x ∷ xs) same = cc (same x, map-same f g xs same)

pub map-map :
    {A B C : Type 0} (g : B → C) (f : A → B) (xs : List A)
    → map g (map f xs) ≡ map (λ a. g (f a)) xs
map-map g f [] = refl
map-map g f (x ∷ xs) = ap (λ ys. g (f x) ∷ ys) (map-map g f xs)

pub map-append :
    {A B : Type 0} (f : A → B) (xs ys : List A) → map f (xs ++ ys) ≡ map f xs ++ map f ys
map-append f [] ys = refl
map-append f (x ∷ xs) ys = ap (λ l. f x ∷ l) (map-append f xs ys)

pub get_elem?-middle :
    {A : Type 0} (xs : List A) (y : A) (ys : List A)
    → get_elem? (xs ++ (y ∷ ys)) (length xs) ≡ some y
get_elem?-middle [] y ys = refl
get_elem?-middle (x ∷ xs) y ys = get_elem?-middle xs y ys

-- The indices of a list's items, counted from `n`.
unfoldable pub count_from : {A : Type 0} → ℕ → List A → List ℕ
count_from n [] = []
count_from n (a ∷ xs) = n ∷ count_from (suc n) xs

pub resolve-count_from :
    {A B : Type 0} (f : A → B) (before : List B) (xs : List A) (n : ℕ)
    → n ≡ length before
    → map (get_elem? (before ++ map f xs)) (count_from n xs) ≡ map (λ a. some (f a)) xs
unfolding count_from
resolve-count_from f before [] n h = refl
resolve-count_from f before (x ∷ xs) n h =
    let here : get_elem? (before ++ (f x ∷ map f xs)) n ≡ some (f x) =
      ap (get_elem? (before ++ (f x ∷ map f xs))) h ∙ get_elem?-middle before (f x) (map f xs) in
    let later =
      resolve-count_from f (before ++ (f x ∷ [])) xs (suc n)
        (omega (arith, length-append before (f x ∷ []))) in
    let shift =
      ap (λ l. map (get_elem? l) (count_from (suc n) xs))
        (append_assoc before (f x ∷ []) (map f xs)) in
    ap (λ o. o ∷ map (get_elem? (before ++ (f x ∷ map f xs))) (count_from (suc n) xs)) here
    ∙ ap (λ l. some (f x) ∷ l) (sym shift ∙ later)

pub length-map : {A B : Type 0} (f : A → B) (xs : List A) → length (map f xs) ≡ length xs
length-map f [] = refl
length-map f (x ∷ xs) = ap suc (length-map f xs)

module _ {F : Type 0} where
  abbrev pub upserted : F → Row F → Row F × Bool
  upserted z r = (to_insert z r, true)

  abbrev pub inserted : Row F → Row F × Bool
  inserted r = (r, false)

  view-put_reaction : (r : Row F) (w : WrappedMessage F) → view (put_reaction r w) ≡ view w
  unfolding view
  view-put_reaction r w = elim (Bool-cases w.is_upsert) [
    | inl yes_upsert ↦ rw yes_upsert refl
    | inr as_inserted ↦ rw as_inserted refl
  ]

  wrap_upserts-view :
      (z : F) (rs : List (Row F)) (s : Wrapping F)
      → map view (wrap_upserts z rs s).heap ≡ map view s.heap ++ map (upserted z) rs
  unfolding wrap_upserts view
  wrap_upserts-view z [] s = sym (append-nil (map view s.heap))
  wrap_upserts-view z (r ∷ rs) s =
      wrap_upserts-view z rs _
      ∙ ap (λ l. l ++ map (upserted z) rs)
          (map-append view s.heap (wrapped true (to_insert z r) ∷ []))
      ∙ append_assoc (map view s.heap) (upserted z r ∷ []) (map (upserted z) rs)

  wrap_inserts-view :
      (rs : List (Row F)) (s : Wrapping F)
      → map view (wrap_inserts rs s).0.heap ≡ map view s.heap ++ map inserted rs
  unfolding wrap_inserts view
  wrap_inserts-view [] s = sym (append-nil (map view s.heap))
  wrap_inserts-view (r ∷ rs) s =
      wrap_inserts-view rs _
      ∙ ap (λ l. l ++ map inserted rs) (map-append view s.heap (wrapped false r ∷ []))
      ∙ append_assoc (map view s.heap) (inserted r ∷ []) (map inserted rs)

  wrap_inserts-indices :
      (rs : List (Row F)) (s : Wrapping F) → (wrap_inserts rs s).1 ≡ count_from (length s.heap) rs
  unfolding wrap_inserts count_from
  wrap_inserts-indices [] s = refl
  wrap_inserts-indices (r ∷ rs) s =
      ap (λ js. length s.heap ∷ js)
        (wrap_inserts-indices rs _
          ∙ ap (λ n. count_from n rs) (omega (arith, length-append s.heap (wrapped false r ∷ []))))

  wrap_attachments-view :
      (table : String → List (Row F)) (m : List (String × ℕ)) (heap : List (WrappedMessage F))
      → map view (wrap_attachments table m heap) ≡ map view heap
  unfolding wrap_attachments view
  wrap_attachments-view table m heap =
      attach-map view _ put_sticker m _ _ (λ a w. refl)
      ∙ attach-map view _ put_xma m _ _ (λ a w. refl)
      ∙ attach-map view _ put_attachment m _ _ (λ a w. refl)
      ∙ attach-map view _ put_blob m _ heap (λ a w. refl)

  -- The heap: the upserted messages, then the inserted ones, in the order of their tables.
  pub wrap_messages-view :
      (z : F) (table : String → List (Row F))
      → map view (wrap_messages z table).0.heap
        ≡ map (upserted z) (table "LSUpsertMessage") ++ map inserted (table "LSInsertMessage")
  unfolding wrap_messages wrap_bare wrap_reactions view
  wrap_messages-view z table =
      wrap_attachments-view table _ _
      ∙ wrap_inserts-view (table "LSInsertMessage") _
      ∙ ap (λ l. l ++ map inserted (table "LSInsertMessage"))
          (attach-map view (string_of "MessageId") put_reaction _ (table "LSUpsertReaction") _
              view-put_reaction
            ∙ wrap_upserts-view z (table "LSUpsertMessage") _)

  pub views-resolve :
      (z : F) (table : String → List (Row F)) (js : List ℕ)
      → views (wrap_messages z table).0.heap js
        ≡ map
            (get_elem? (
              map (upserted z) (table "LSUpsertMessage") ++ map inserted (table "LSInsertMessage")))
            js
  views-resolve z table js =
      map-same _ _ js (λ j. get_elem?-map view (wrap_messages z table).0.heap j)
      ∙ ap (λ l. map (get_elem? l) js) (wrap_messages-view z table)

  pub wrap_messages-indices :
      (z : F) (table : String → List (Row F))
      → (wrap_messages z table).1
        ≡ count_from (length (table "LSUpsertMessage")) (table "LSInsertMessage")
  unfolding wrap_messages wrap_bare wrap_reactions
  wrap_messages-indices z table =
      wrap_inserts-indices (table "LSInsertMessage") _
      ∙ ap (λ n. count_from n (table "LSInsertMessage"))
          (length-attach _ put_reaction _ (table "LSUpsertReaction") _
            ∙ length-wrap_upserts z (table "LSUpsertMessage") _
            ∙ omega arith)
