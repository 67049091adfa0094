-- ===== src/Pending.antt =====
-- pkg/messagix/responsehandler.go: the channels on which a request waits for its answer.
-- A channel is a number into a heap of channels with a buffer of one. The two maps of the handler
-- are one association list, keyed by the type of the channel and the packet identifier. A `nil`
-- that is received, from a closed channel, is `none`.
pub mod Validity
pub mod Steps
pub mod Cancel
pub mod Answers
use meta_matrix_bridge.Prelude.{
  ℕ, suc, ◌+◌, ◌%◌, List, [], ◌∷◌, Bool, true, false, ◌&&◌, Option, none, some, if◌then◌else◌, ◌==◌,
}

pub data ChannelType : Type 0 where
  request_channel packet_channel : ChannelType

pub record Channel (A : Type 0) : Type 0 where
  pub buffer : Option A
  pub closed : Bool

pub record Entry : Type 0 where
  pub type : ChannelType
  pub packet_id : ℕ
  pub channel : ℕ

pub record ResponseHandler (A : Type 0) : Type 0 where
  pub entries : List Entry
  pub heap : ℕ → Channel A
  pub next : ℕ

abbrev pub same_type : ChannelType → ChannelType → Bool
same_type request_channel request_channel = true
same_type packet_channel packet_channel = true
same_type _ _ = false

abbrev pub has_key : ChannelType → ℕ → Entry → Bool
has_key t id e = same_type t e.type && (id == e.packet_id)

-- getChannel, and the lookup of hasPacket.
unfoldable pub get_channel : ChannelType → ℕ → List Entry → Option ℕ
get_channel t id [] = none
get_channel t id (e ∷ es) =
    let rest = get_channel t id es in if has_key t id e then some e.channel else rest

unfoldable pub delete : ChannelType → ℕ → List Entry → List Entry
delete t id [] = []
delete t id (e ∷ es) = let rest = delete t id es in if has_key t id e then rest else e ∷ rest

-- What a send does: the caller waits on a full buffer, and panics on a closed channel.
pub data Sent (A : Type 0) : Type 0 where
  sent : ResponseHandler A → Sent A
  waits panics missing : Sent A

-- The case of the select in waitForDetails that is taken, and the results of the call.
pub data Wake : Type 0 where
  received done timed_out : Wake

pub data Waited (A : Type 0) : Type 0 where
  answer : A → Waited A
  connection_closed context_error timeout channel_not_found still_waiting : Waited A

module _ {A : Type 0} where
  abbrev pub store : (ℕ → Channel A) → ℕ → Channel A → ℕ → Channel A
  store heap c ch d = if c == d then ch else heap d

  abbrev pub open_channel : Channel A
  open_channel = record { buffer = none; closed = false }

  unfoldable pub has_packet : ResponseHandler A → ℕ → Bool
  unfolding get_channel
  has_packet p id = elim (get_channel request_channel id p.entries) [ none ↦ false | some c ↦ true ]

  -- addPacketChannel and addRequestChannel: a map entry of the same identifier is replaced.
  unfoldable pub add_channel : ChannelType → ResponseHandler A → ℕ → ResponseHandler A
  add_channel t p id = record p {
    entries = record { type = t; packet_id = id; channel = p.next } ∷ delete t id p.entries;
    heap = store p.heap p.next open_channel;
    next = p.next + 1;
  }

  unfoldable pub send_to : ResponseHandler A → ℕ → A → Channel A → Sent A
  send_to p c given ch = if ch.closed then panics else elim ch.buffer [
    | none ↦ sent (record p { heap = store p.heap c (record ch { buffer = some given }) })
    | some a ↦ waits
  ]

  -- updatePacketChannel and updateRequestChannel; `missing` is the result false.
  unfoldable pub update_channel : ChannelType → ResponseHandler A → ℕ → A → Sent A
  unfolding send_to
  update_channel t p id given = elim (get_channel t id p.entries) [
    | none ↦ missing
    | some c ↦ send_to p c given (p.heap c)
  ]

  -- `close(ch)`; `none` is the panic of closing twice.
  unfoldable pub close_channel : (ℕ → Channel A) → ℕ → Option (ℕ → Channel A)
  close_channel heap c =
      let ch = heap c in
      if ch.closed then none else some (store heap c (record ch { closed = true }))

  unfoldable pub delete_details : ResponseHandler A → ℕ → ChannelType → Option (ResponseHandler A)
  delete_details p id t = elim (get_channel t id p.entries) [
    | none ↦ some p
    | some c ↦ elim (close_channel p.heap c) [
      | none ↦ none
      | some heap ↦ some (record p { heap = heap; entries = delete t id p.entries })
    ]
  ]

  unfoldable pub close_all : List Entry → (ℕ → Channel A) → Option (ℕ → Channel A)
  close_all [] heap = some heap
  close_all (e ∷ es) heap = elim (close_channel heap e.channel) [
    | none ↦ none
    | some heap' ↦ close_all es heap'
  ]

  -- CancelAllRequests
  unfoldable pub cancel_all_requests : ResponseHandler A → Option (ResponseHandler A)
  unfolding close_all
  cancel_all_requests p = elim (close_all p.entries p.heap) [
    | none ↦ none
    | some heap ↦ some (record p { heap = heap; entries = [] })
  ]

  -- What is left after the answer is taken out of the buffer. A panic of deleteDetails is `none`.
  unfoldable pub take_answer :
      ResponseHandler A → ℕ → ChannelType → ℕ → Channel A → Option (Waited A × ResponseHandler A)
  take_answer p id t c ch = elim ch.buffer [
    | none ↦ if ch.closed then some (connection_closed, p) else some (still_waiting, p)
    | some a ↦
        elim (delete_details (record p { heap = store p.heap c (record ch { buffer = none }) }) id
          t) [ none ↦ none | some q ↦ some (answer a, q) ]
  ]

  unfoldable pub give_up :
      ResponseHandler A → ℕ → ChannelType → Waited A → Option (Waited A × ResponseHandler A)
  give_up p id t result = elim (delete_details p id t) [ none ↦ none | some q ↦ some (result, q) ]

  unfoldable pub wake_up :
      Wake → ResponseHandler A → ℕ → ChannelType → ℕ → Option (Waited A × ResponseHandler A)
  unfolding take_answer give_up
  wake_up received p id t c = take_answer p id t c (p.heap c)
  wake_up done p id t c = give_up p id t context_error
  wake_up timed_out p id t c = give_up p id t timeout

  -- waitForDetails, woken by one of the three cases on the channel `c` that it found when it was called.
  unfoldable pub wait_for_details :
      Wake → ResponseHandler A → ℕ → ChannelType → Option (Waited A × ResponseHandler A)
  unfolding wake_up
  wait_for_details w p id t = elim (get_channel t id p.entries) [
    | none ↦ some (channel_not_found, p)
    | some c ↦ wake_up w p id t c
  ]

-- SafePacketID: a uint16 counter that passes over 0.
unfoldable pub safe_packet_id : ℕ → ℕ
safe_packet_id packets_sent = let n = (packets_sent + 1) % 65536 in if n == 0 then 1 else n
