-- ===== src/Pending/Answers.antt =====
-- pkg/messagix/responsehandler.go: a request from its registration to its answer.
use meta_matrix_bridge.Prelude.{
  ℕ, ◌≡◌, refl, List, [], ◌∷◌, true, false, none, some, arith, inl, inr, Bool-cases, ap, ◌∙◌,
}
use meta_matrix_bridge.Pending.{
  ChannelType, request_channel, packet_channel, Channel, Entry, ResponseHandler, same_type, has_key,
  get_channel, delete, store, open_channel, add_channel, close_channel, delete_details, answer,
  channel_not_found, sent, missing, send_to, update_channel, wait_for_details, received, wake_up,
  take_answer,
}
use meta_matrix_bridge.Pending.Validity.{store_same}

same_type_refl : (t : ChannelType) → same_type t t ≡ true
same_type_refl request_channel = refl
same_type_refl packet_channel = refl

has_key_refl :
    (t : ChannelType) (id c : ℕ)
    → has_key t id (record { type = t; packet_id = id; channel = c }) ≡ true
has_key_refl t id c = rw (same_type_refl t) (ground arith)

get_channel-delete :
    (t : ChannelType) (id : ℕ) (es : List Entry) → get_channel t id (delete t id es) ≡ none
unfolding get_channel delete
get_channel-delete t id [] = refl
get_channel-delete t id (e ∷ es) = elim (Bool-cases (has_key t id e)) [
  | inl found ↦ rw found (get_channel-delete t id es)
  | inr other ↦ rw other (rw other (get_channel-delete t id es))
]

module _ {A : Type 0} where
  pub get_channel-add_channel :
      (p : ResponseHandler A) (id : ℕ) (t : ChannelType)
      → (get_channel t id (add_channel t p id).entries ≡ some p.next)
        × (delete t id (add_channel t p id).entries ≡ delete t id (delete t id p.entries))
  unfolding add_channel get_channel delete
  get_channel-add_channel p id t =
      (rw (has_key_refl t id p.next) refl, rw (has_key_refl t id p.next) refl)

  drained : Channel A
  drained = record { buffer = none; closed = false }

  send_to-open_channel :
      (p : ResponseHandler A) (c : ℕ) (given : A) (ch : Channel A)
      → ch ≡ open_channel
      → send_to p c given ch
        ≡ sent (record p { heap = store p.heap c (record { buffer = some given; closed = false }) })
  unfolding send_to
  send_to-open_channel p c given ch e = ap (send_to p c given) e

  take_answer-full :
      (p : ResponseHandler A) (id : ℕ) (t : ChannelType) (c : ℕ) (given : A) (ch : Channel A)
      → ch ≡ record { buffer = some given; closed = false }
      → get_channel t id p.entries ≡ some c
      → take_answer p id t c ch
        ≡ some (
          answer given,
          record p {
            heap = store (store p.heap c drained) c (record { buffer = none; closed = true });
            entries = delete t id p.entries;
          },
        )
  unfolding take_answer delete_details close_channel drained
  take_answer-full p id t c given ch e found =
      ap (take_answer p id t c) e
      ∙ (rw
          (
            take_answer,
            found,
            delete_details,
            store_same p.heap c (record { buffer = none; closed = false }),
            close_channel,
          )
          refl)

  -- A request that is registered, answered and then waited for gets its answer and is forgotten: a
  -- second wait finds no channel, and a second answer has no taker.
  pub wait_for_details-answer :
      (p : ResponseHandler A) (id : ℕ) (t : ChannelType) (given again : A)
      → (q : ResponseHandler A) × (r : ResponseHandler A) × (update_channel t
            (add_channel t p id)
            id
            given
          ≡ sent q)
        × (wait_for_details received q id t ≡ some (answer given, r))
        × (wait_for_details received r id t ≡ some (channel_not_found, r))
        × (update_channel t r id again ≡ missing)
  unfolding update_channel wait_for_details wake_up
  wait_for_details-answer p id t given again =
      let p1 = add_channel t p id in
      let (found, kept) = get_channel-add_channel p id t in
      let fresh : p1.heap p.next ≡ open_channel =
        unfold add_channel in store_same p.heap p.next open_channel in
      let full : Channel A = record { buffer = some given; closed = false } in
      let h1 = store p1.heap p.next full in
      let h3 = store (store h1 p.next drained) p.next (record { buffer = none; closed = true }) in
      let q : ResponseHandler A = record p1 { heap = h1 } in
      let gone : get_channel t id (delete t id p1.entries) ≡ none =
        get_channel-delete t id p1.entries in
      (
        q,
        record p1 { heap = h3; entries = delete t id p1.entries },
        rw (found, update_channel) (send_to-open_channel p1 p.next given (p1.heap p.next) fresh),
        rw (found, wait_for_details)
            (take_answer-full q id t p.next given (h1 p.next) (store_same p1.heap p.next full)
              found),
        rw (gone, wait_for_details) refl,
        rw (gone, update_channel) refl,
      )
