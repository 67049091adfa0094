-- ===== src/Dgw/Events.antt =====
-- The goroutine of dgwsocket.go that processes incoming frames. Its state is what it shares with
-- the others: the two handshake events, the frames it has put on the outgoing channel, the first
-- fatal error, how often the pong timer was reset, and the events given to the client.
-- encoding/json enters as the parameter `x`: what json.Unmarshal gives for an XDTData, as the
-- operations that it lists, and for an ActivityIndicator.
pub mod Acks
use meta_matrix_bridge.Prelude.{
  ℕ, zero, suc, ◌+◌, ◌-◌, ◌/◌, List, [], ◌∷◌, ◌++◌, Bool, true, false, ◌&&◌, ◌||◌, not, Option,
  none, some, ltb, leb, ◌==◌, if◌then◌else◌, length, take, drop,
}
use meta_matrix_bridge.Prelude.Text.{codes}
use meta_matrix_bridge.Dgw.{
  Frame, unsupported_frame, ping_frame, pong_frame, data_frame, ack_frame, open_frame,
  OpenFrameParams, stream_typing,
}

-- Text at the front of a byte list, taken off.
unfoldable pub strip_prefix : List ℕ → List ℕ → Option (List ℕ)
strip_prefix [] s = some s
strip_prefix (p ∷ ps) [] = none
strip_prefix (p ∷ ps) (c ∷ s) = let rest = strip_prefix ps s in if p == c then rest else none

is_some {ℓ} : {A : Type ℓ} → Option A → Bool
is_some none = false
is_some (some a) = true

-- bytes.Contains
unfoldable pub contains : List ℕ → List ℕ → Bool
unfolding strip_prefix is_some
contains [] sub = is_some (strip_prefix sub [])
contains (c ∷ s) sub = is_some (strip_prefix sub (c ∷ s)) || contains s sub

-- bytes.IndexByte, which is -1 where there is none, and one more than bytes.LastIndexByte.
unfoldable pub index_byte : List ℕ → ℕ → Option ℕ
index_byte [] c = none
index_byte (b ∷ bs) c =
    let rest = index_byte bs c in
    if b == c then some 0 else elim rest [ none ↦ none | some i ↦ some (suc i) ]

unfoldable pub last_index_end : List ℕ → ℕ → ℕ
last_index_end [] c = 0
last_index_end (b ∷ bs) c =
    let rest = last_index_end bs c in if rest == 0 then (if b == c then 1 else 0) else suc rest

-- `f.Payload[msgStart:msgEnd]`; `none` is a slice out of range, a panic.
unfoldable pub json_slice : List ℕ → Option (List ℕ)
unfolding index_byte last_index_end
json_slice payload =
    let end = last_index_end payload b'}' in
    elim (index_byte payload b'{') [
      | none ↦ none
      | some start ↦ if leb start end then some (take (end - start) (drop start payload)) else none
    ]

-- The longest front of bytes of a class, and the rest.
span : (ℕ → Bool) → List ℕ → List ℕ × List ℕ
span p [] = ([], [])
span p (c ∷ s) = let (front, rest) = span p s in if p c then (c ∷ front, rest) else ([], c ∷ s)

is_digit : ℕ → Bool
is_digit c = leb b'0' c && leb c b'9'

is_id_byte : ℕ → Bool
unfolding is_digit
is_id_byte c = is_digit c || (leb b'a' c && leb c b'f') || (c == b'-')

abbrev thread_prefix : List ℕ
thread_prefix = codes "/direct_v2/threads/"

abbrev indicator_infix : List ℕ
indicator_infix = codes "/activity_indicator_id/"

-- The thread of a path that the regular expression
-- ^/direct_v2/threads/([0-9]+)/activity_indicator_id/([0-9a-f-]+)$ matches.
unfoldable pub match_path : List ℕ → Option (List ℕ)
unfolding strip_prefix span is_digit is_id_byte
match_path path = elim (strip_prefix thread_prefix path) [
  | none ↦ none
  | some s ↦
      let (thread, more) = span is_digit s in
      elim (strip_prefix indicator_infix more) [
        | none ↦ none
        | some id ↦
            let (hex, rest) = span is_id_byte id in
            if (length thread == 0) || (length hex == 0) || not (length rest == 0)
            then none
            else some thread
      ]
]

pub record Operation : Type 0 where
  pub path : List ℕ
  pub value : List ℕ

-- `is_active` is ActivityStatus > 0.
pub record ActivityIndicator : Type 0 where
  pub timestamp_nano : ℕ
  pub sender_id : ℕ
  pub is_active : Bool

pub record TypingIndicator : Type 0 where
  pub thread_id : List ℕ
  pub user_id : ℕ
  pub is_typing : Bool
  pub timestamp_micro : ℕ

pub record XdtJson : Type 0 where
  pub operations : List ℕ → Option (List Operation)
  pub indicator : List ℕ → Option ActivityIndicator

-- An operation whose value or path does not parse is dropped.
typing_event : Option ActivityIndicator → Option (List ℕ) → List TypingIndicator
typing_event (some ind) (some thread) =
    record {
      thread_id = thread;
      user_id = ind.sender_id;
      is_typing = ind.is_active;
      timestamp_micro = ind.timestamp_nano / 1000;
    }
    ∷ []
typing_event _ _ = []

typing_events : XdtJson → List Operation → List TypingIndicator
unfolding typing_event
typing_events x [] = []
typing_events x (op ∷ ops) =
    typing_event (x.indicator op.value) (match_path op.path) ++ typing_events x ops

parsed_events : XdtJson → Option (List Operation) → List TypingIndicator
unfolding typing_events
parsed_events x none = []
parsed_events x (some ops) = typing_events x ops

-- The events of a payload; `none` is a panic.
unfoldable pub payload_events : XdtJson → List ℕ → Option (List TypingIndicator)
unfolding contains parsed_events
payload_events x payload =
    if contains payload (codes "activity_indicator_id")
    then elim (json_slice payload) [
      | none ↦ none
      | some s ↦ some (parsed_events x (x.operations s))
    ]
    else some []

pub record Handling : Type 0 where
  pub ack_subscription : Bool
  pub ack_parameters : Bool
  pub outgoing : List Frame
  pub fatal : Option ℕ
  pub pong_resets : ℕ
  pub events : List TypingIndicator

-- `errorOnce`: only the first error, here the status code that it names, is stored.
abbrev pub once : Option ℕ → ℕ → Option ℕ
once none code = some code
once (some first) code = some first

handle_open : ℕ → ℕ → Handling → Handling
handle_open stream_id status s =
    if not (stream_id == stream_typing)
    then s
    else (if status == 0
        then s
        else (if not (status == 200)
            then record s { fatal = once s.fatal status }
            else record s { ack_subscription = true }))

handle_ack : ℕ → ℕ → Handling → Handling
handle_ack stream_id ack_id s =
    if not (stream_id == stream_typing)
    then s
    else (if not (ack_id == 0) then s else record s { ack_parameters = true })

-- The ack is sent before the payload is looked at.
abbrev sent_ack : Bool → ℕ → ℕ → List Frame
sent_ack requires_ack stream_id ack_id =
    if requires_ack then ack_frame stream_id ack_id ∷ [] else []

-- `none` is a panic.
unfoldable pub handle_frame : XdtJson → Frame → Handling → Option Handling
unfolding handle_open handle_ack
handle_frame x (unsupported_frame raw) s = some s
handle_frame x ping_frame s = some s
handle_frame x pong_frame s = some (record s { pong_resets = s.pong_resets + 1 })
handle_frame x (open_frame stream_id parameters raw) s =
    some (handle_open stream_id parameters.status_code s)
handle_frame x (data_frame stream_id payload requires_ack ack_id) s =
    elim (payload_events x payload) [
      | none ↦ none
      | some new ↦ some (record s {
        outgoing = s.outgoing ++ sent_ack requires_ack stream_id ack_id;
        events = s.events ++ new;
      })
    ]
handle_frame x (ack_frame stream_id ack_id) s = some (handle_ack stream_id ack_id s)

-- `for frame := range incoming`
unfoldable pub handle_frames : XdtJson → List Frame → Handling → Option Handling
handle_frames x [] s = some s
handle_frames x (f ∷ fs) s = elim (handle_frame x f s) [
  | none ↦ none
  | some s' ↦ handle_frames x fs s'
]
