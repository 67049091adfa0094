-- ===== src/Pending/Validity.antt =====
-- pkg/messagix/responsehandler.go: the invariant of the handler, and its lookups and deletions.
use meta_matrix_bridge.Prelude.{
  ℕ, ◌<◌, ◌≡◌, ◌≢◌, List, [], ◌∷◌, false, some, All, arith, sym, ◌⊎◌, inl, inr, Bool-cases,
}
use meta_matrix_bridge.Pending.{
  ChannelType, Channel, Entry, ResponseHandler, has_key, get_channel, delete, store,
}

-- No entry holds the channel.
abbrev pub Apart : ℕ → List Entry → Type 0
Apart c es = All (λ (e : Entry). e.channel ≢ c) es

abbrev pub Distinct : List Entry → Type 0
Distinct [] = Unit {0}
Distinct (e ∷ es) = Apart e.channel es × Distinct es

module _ {A : Type 0} where
  -- An entry's channel has been made, and is open.
  abbrev pub IsLive : (ℕ → Channel A) → ℕ → Entry → Type 0
  IsLive heap next e = (e.channel < next) × ((heap e.channel).closed ≡ false)

  pub record IsValid (p : ResponseHandler A) : Type 0 where
    pub live : All (IsLive p.heap p.next) p.entries
    pub distinct : Distinct p.entries

module _ {κ} (P : Entry → Type κ) where
  pub All-delete : (t : ChannelType) (id : ℕ) (es : List Entry) → All P es → All P (delete t id es)
  unfolding delete
  All-delete t id [] h = h
  All-delete t id (e ∷ es) h = elim (Bool-cases (has_key t id e)) [
    | inl found ↦ rw found (All-delete t id es h.1)
    | inr other ↦ rw other (h.0, All-delete t id es h.1)
  ]

  pub All-map_entry {μ} :
      (Q : Entry → Type μ) (es : List Entry) → ((e : Entry) → P e → Q e) → All P es → All Q es
  All-map_entry Q [] f h = tt
  All-map_entry Q (e ∷ es) f h = (f e h.0, All-map_entry Q es f h.1)

pub Distinct-delete :
    (t : ChannelType) (id : ℕ) (es : List Entry) → Distinct es → Distinct (delete t id es)
unfolding delete
Distinct-delete t id [] h = h
Distinct-delete t id (e ∷ es) h = elim (Bool-cases (has_key t id e)) [
  | inl found ↦ rw found (Distinct-delete t id es h.1)
  | inr other ↦ rw other (All-delete _ t id es h.0, Distinct-delete t id es h.1)
]

get_channel-cons :
    (t : ChannelType) (id c : ℕ) (x : Entry) (es : List Entry)
    → get_channel t id (x ∷ es) ≡ some c
    → (x.channel ≡ c) ⊎ (get_channel t id es ≡ some c)
unfolding get_channel
get_channel-cons t id c x es e = elim (Bool-cases (has_key t id x)) [
  | inl found ↦ inl (cc)
  | inr other ↦ inr (cc)
]

pub get_channel-All {κ} :
    (Q : ℕ → Type κ) (t : ChannelType) (id c : ℕ) (es : List Entry)
    → All (λ (e : Entry). Q e.channel) es
    → get_channel t id es ≡ some c
    → Q c
get_channel-All Q t id c [] h e = unfold get_channel in cc
get_channel-All Q t id c (x ∷ es) h e = elim (get_channel-cons t id c x es e) [
  | inl this ↦ rw (← this) h.0
  | inr rest ↦ get_channel-All Q t id c es h.1 rest
]

-- The channel that a key finds is in no entry that is left when the key is deleted.
pub Apart-delete :
    (t : ChannelType) (id c : ℕ) (es : List Entry)
    → Distinct es
    → get_channel t id es ≡ some c
    → Apart c (delete t id es)
unfolding delete get_channel
Apart-delete t id c [] h e = tt
Apart-delete t id c (x ∷ es) h e = elim (Bool-cases (has_key t id x)) [
  | inl found ↦ let this : x.channel ≡ c = cc in rw found (rw (← this) (All-delete _ t id es h.0))
  | inr other ↦
      let rest : get_channel t id es ≡ some c = cc in
      let here : c ≢ x.channel = get_channel-All (λ d. d ≢ x.channel) t id c es h.0 rest in
      rw other ((λ q. here (sym q)), Apart-delete t id c es h.1 rest)
]

-- A store changes the channel it names and no other.
pub store_same :
    {A : Type 0} (heap : ℕ → Channel A) (c : ℕ) (ch : Channel A) → store heap c ch c ≡ ch
store_same heap c ch = ground arith

pub store_other :
    {A : Type 0} (heap : ℕ → Channel A) (c : ℕ) (ch : Channel A) (d : ℕ)
    → d ≢ c
    → store heap c ch d ≡ heap d
store_other heap c ch d n = ground arith
