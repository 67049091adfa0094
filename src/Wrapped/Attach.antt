-- ===== src/Wrapped/Attach.antt =====
-- WrapMessages of wrappedmessage.go: the loops that add items to messages.
use meta_matrix_bridge.Prelude.{
  ℕ, zero, suc, ◌≡◌, refl, ap, sym, ◌∙◌, List, [], ◌∷◌, map, Bool, true, false, Option, none, some,
  if◌then◌else◌, arith, All, get_elem?, ◌==◌, length,
}
use meta_matrix_bridge.Tables.Registry.{lookup}
use meta_matrix_bridge.Wrapped.{WrappedMessage, modify, put_at, attach}
use Prim.Native.String.{String}

abbrev pub is_at : Option ℕ → ℕ → Bool
is_at none j = false
is_at (some i) j = i == j

-- The items whose key the map has at an index, in their order.
unfoldable pub owned : {A : Type 0} → (A → String) → List (String × ℕ) → ℕ → List A → List A
owned key m j [] = []
owned key m j (a ∷ items) =
    let rest = owned key m j items in if is_at (lookup (key a) m) j then a ∷ rest else rest

unfoldable pub put_all : {A B : Type 0} → (A → B → B) → List A → B → B
put_all put [] b = b
put_all put (a ∷ items) b = put_all put items (put a b)

abbrev pub map_option : {A B : Type 0} → (A → B) → Option A → Option B
map_option f none = none
map_option f (some a) = some (f a)

modify-get_elem? :
    {A : Type 0} (i j : ℕ) (f : A → A) (xs : List A)
    → get_elem? (modify i f xs) j
      ≡ (if i == j then map_option f (get_elem? xs j) else get_elem? xs j)
modify-get_elem? i j f [] = ground arith
modify-get_elem? zero zero f (x ∷ xs) = refl
modify-get_elem? zero (suc j) f (x ∷ xs) = ground arith
modify-get_elem? (suc i) zero f (x ∷ xs) = ground arith
modify-get_elem? (suc i) (suc j) f (x ∷ xs) = rw (modify-get_elem? i j f xs) (ground arith)

put_at-get_elem? :
    {A : Type 0} (o : Option ℕ) (j : ℕ) (f : A → A) (xs : List A)
    → get_elem? (put_at o f xs) j
      ≡ (if is_at o j then map_option f (get_elem? xs j) else get_elem? xs j)
put_at-get_elem? none j f xs = refl
put_at-get_elem? (some i) j f xs = modify-get_elem? i j f xs

map_option-same : {A : Type 0} (f : A → A) (o : Option A) → ((a : A) → f a ≡ a) → o ≡ map_option f o
map_option-same f none same = refl
map_option-same f (some a) same = ap some (sym (same a))

-- One more item, if it belongs to the message.
put_all-cons :
    {A B : Type 0} (put : A → B → B) (a : A) (items : List A) (mine : Bool) (o : Option B)
    → map_option (put_all put items) (if mine then map_option (put a) o else o)
      ≡ map_option (put_all put (if mine then a ∷ items else items)) o
unfolding put_all
put_all-cons put a items true none = refl
put_all-cons put a items true (some b) = refl
put_all-cons put a items false o = refl

modify-map :
    {A B : Type 0} (g : A → B) (i : ℕ) (f : A → A) (xs : List A)
    → ((a : A) → g (f a) ≡ g a)
    → map g (modify i f xs) ≡ map g xs
modify-map g i f [] same = refl
modify-map g zero f (x ∷ xs) same = ap (λ b. b ∷ map g xs) (same x)
modify-map g (suc i) f (x ∷ xs) same = ap (λ bs. g x ∷ bs) (modify-map g i f xs same)

put_at-map :
    {A B : Type 0} (g : A → B) (o : Option ℕ) (f : A → A) (xs : List A)
    → ((a : A) → g (f a) ≡ g a)
    → map g (put_at o f xs) ≡ map g xs
put_at-map g none f xs same = refl
put_at-map g (some i) f xs same = modify-map g i f xs same

modify-length : {A : Type 0} (i : ℕ) (f : A → A) (xs : List A) → length (modify i f xs) ≡ length xs
modify-length i f [] = refl
modify-length zero f (x ∷ xs) = refl
modify-length (suc i) f (x ∷ xs) = ap suc (modify-length i f xs)

put_at-length :
    {A : Type 0} (o : Option ℕ) (f : A → A) (xs : List A) → length (put_at o f xs) ≡ length xs
put_at-length none f xs = refl
put_at-length (some i) f xs = modify-length i f xs

module _ {F : Type 0} where
  -- A message gets the items whose key the map has at its index, in their order.
  attach-get_elem? :
      {A : Type 0} (key : A → String) (put : A → WrappedMessage F → WrappedMessage F)
      (m : List (String × ℕ)) (j : ℕ) (items : List A) (heap : List (WrappedMessage F))
      → get_elem? (attach key put m items heap) j
        ≡ map_option (put_all put (owned key m j items)) (get_elem? heap j)
  unfolding attach put_all owned
  attach-get_elem? key put m j [] heap =
      map_option-same (put_all put []) (get_elem? heap j) (λ a. refl)
  attach-get_elem? key put m j (a ∷ items) heap =
      attach-get_elem? key put m j items (put_at (lookup (key a) m) (put a) heap)
      ∙ ap (map_option (put_all put (owned key m j items)))
          (put_at-get_elem? (lookup (key a) m) j (put a) heap)
      ∙ put_all-cons put a (owned key m j items) (is_at (lookup (key a) m) j) (get_elem? heap j)

  -- What no item changes stays items it is in every message.
  pub attach-map :
      {A B : Type 0} (g : WrappedMessage F → B) (key : A → String)
      (put : A → WrappedMessage F → WrappedMessage F) (m : List (String × ℕ)) (items : List A)
      (heap : List (WrappedMessage F))
      → ((a : A) (w : WrappedMessage F) → g (put a w) ≡ g w)
      → map g (attach key put m items heap) ≡ map g heap
  unfolding attach
  attach-map g key put m [] heap same = refl
  attach-map g key put m (a ∷ items) heap same =
      attach-map g key put m items (put_at (lookup (key a) m) (put a) heap) same
      ∙ put_at-map g (lookup (key a) m) (put a) heap (same a)

  pub length-attach :
      {A : Type 0} (key : A → String) (put : A → WrappedMessage F → WrappedMessage F)
      (m : List (String × ℕ)) (items : List A) (heap : List (WrappedMessage F))
      → length (attach key put m items heap) ≡ length heap
  unfolding attach
  length-attach key put m [] heap = refl
  length-attach key put m (a ∷ items) heap =
      length-attach key put m items (put_at (lookup (key a) m) (put a) heap)
      ∙ put_at-length (lookup (key a) m) (put a) heap

  pub attach-some :
      {A : Type 0} (key : A → String) (put : A → WrappedMessage F → WrappedMessage F)
      (m : List (String × ℕ)) (j : ℕ) (items : List A) (heap : List (WrappedMessage F))
      (w : WrappedMessage F)
      → get_elem? heap j ≡ some w
      → get_elem? (attach key put m items heap) j ≡ some (put_all put (owned key m j items) w)
  attach-some key put m j items heap w h =
      attach-get_elem? key put m j items heap
      ∙ ap (map_option (put_all put (owned key m j items))) h

  pub attach-none :
      {A : Type 0} (key : A → String) (put : A → WrappedMessage F → WrappedMessage F)
      (m : List (String × ℕ)) (j : ℕ) (items : List A) (heap : List (WrappedMessage F))
      → get_elem? heap j ≡ none
      → get_elem? (attach key put m items heap) j ≡ none
  attach-none key put m j items heap h =
      attach-get_elem? key put m j items heap
      ∙ ap (map_option (put_all put (owned key m j items))) h

  modify-All :
      (P : WrappedMessage F → Type 0) (o : Option ℕ) (f : WrappedMessage F → WrappedMessage F)
      (heap : List (WrappedMessage F))
      → ((w : WrappedMessage F) → P w → P (f w))
      → All P heap
      → All P (put_at o f heap)
  modify-All P none f heap keeps h = h
  modify-All P (some j) f [] keeps h = h
  modify-All P (some zero) f (w ∷ heap) keeps (p, h) = (keeps w p, h)
  modify-All P (some (suc j)) f (w ∷ heap) keeps (p, h) = (p, modify-All P (some j) f heap keeps h)

  pub attach-All :
      {A : Type 0} (P : WrappedMessage F → Type 0) (key : A → String)
      (put : A → WrappedMessage F → WrappedMessage F) (m : List (String × ℕ)) (items : List A)
      (heap : List (WrappedMessage F))
      → ((a : A) (w : WrappedMessage F) → P w → P (put a w))
      → All P heap
      → All P (attach key put m items heap)
  unfolding attach
  attach-All P key put m [] heap keeps h = h
  attach-All P key put m (a ∷ items) heap keeps h =
      attach-All P key put m items (put_at (lookup (key a) m) (put a) heap) keeps
        (modify-All P (lookup (key a) m) (put a) heap (keeps a) h)
