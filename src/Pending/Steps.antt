-- ===== src/Pending/Steps.antt =====
-- pkg/messagix/responsehandler.go: the operations of the handler, one after another.
use meta_matrix_bridge.Prelude.{
  ℕ, ◌<◌, ◌≡◌, ◌≢◌, refl, List, [], ◌∷◌, false, Option, none, some, All, arith, inl, inr,
  Option-cases, ℕ_discrete,
}
use meta_matrix_bridge.Pending.{
  ChannelType, Channel, Entry, ResponseHandler, get_channel, delete, store, open_channel,
  add_channel, close_channel, delete_details, cancel_all_requests, context_error, timeout, Sent,
  sent, waits, panics, missing, send_to, update_channel, Wake, Waited, wait_for_details, received,
  done, timed_out, wake_up, take_answer, give_up,
}
use meta_matrix_bridge.Pending.Validity.{
  Apart, IsLive, IsValid, All-delete, All-map_entry, Distinct-delete, get_channel-All, Apart-delete,
  store_same, store_other,
}

-- What a caller can do with the handler.
pub data Operation (A : Type 0) : Type 0 where
  add : ChannelType → ℕ → Operation A
  update : ChannelType → ℕ → A → Operation A
  wait : Wake → ℕ → ChannelType → Operation A
  cancel : Operation A

-- How an operation ends: it is done, or it is an answer whose caller waits on a full channel, or it panics.
pub data Performed (A : Type 0) : Type 0 where
  moved blocked : ResponseHandler A → Performed A
  panicked : Performed A

module _ {A : Type 0} where
  unfoldable pub after_send : ResponseHandler A → Sent A → Performed A
  after_send p (sent q) = moved q
  after_send p waits = blocked p
  after_send p panics = panicked
  after_send p missing = moved p

  unfoldable pub after_wait : Option (Waited A × ResponseHandler A) → Performed A
  after_wait none = panicked
  after_wait (some r) = moved r.1

  unfoldable pub after_cancel : Option (ResponseHandler A) → Performed A
  after_cancel none = panicked
  after_cancel (some q) = moved q

  unfoldable pub perform : Operation A → ResponseHandler A → Performed A
  unfolding after_send after_wait after_cancel
  perform (add t id) p = moved (add_channel t p id)
  perform (update t id given) p = after_send p (update_channel t p id given)
  perform (wait w id t) p = after_wait (wait_for_details w p id t)
  perform cancel p = after_cancel (cancel_all_requests p)

  -- Operations that follow one another, each when the one before it is done. The run stops at an
  -- answer that waits: what happens to its caller then is not one of these operations.
  unfoldable pub perform_all : List (Operation A) → ResponseHandler A → Performed A
  perform_all [] p = moved p
  perform_all (o ∷ os) p = elim (perform o p) [
    | moved q ↦ perform_all os q
    | blocked q ↦ blocked q
    | panicked ↦ panicked
  ]

  -- An answer that has not been taken fills the channel of a request.
  abbrev pub HasFull : ResponseHandler A → Type 0
  HasFull q =
      (t : ChannelType) × (id : ℕ) × (c : ℕ) × (a : A) × (get_channel t id q.entries ≡ some c)
      × ((q.heap c).buffer ≡ some a)

  -- There was no panic, and the handler is valid.
  abbrev pub Ends : Performed A → Type 0
  Ends (moved q) = IsValid q
  Ends (blocked q) = IsValid q × HasFull q
  Ends panicked = ⊥

  -- The result is there, and is valid.
  unfoldable pub Survives : Option (ResponseHandler A) → Type 0
  Survives o = (q : ResponseHandler A) × (o ≡ some q) × IsValid q

  -- A store that leaves a channel opened keeps what is live.
  IsLive-store :
      (heap : ℕ → Channel A) (next c : ℕ) (ch : Channel A) (e : Entry)
      → ch.closed ≡ false
      → IsLive heap next e
      → IsLive (store heap c ch) next e
  IsLive-store heap next c ch e o h = elim (ℕ_discrete e.channel c) [
    | yes same ↦ (h.0, rw same (rw (store_same heap c ch) o))
    | no differs ↦ (h.0, rw (store_other heap c ch e.channel differs) h.1)
  ]

  -- A store to a channel that no entry holds keeps what is live.
  pub IsLive-store-Apart :
      (heap : ℕ → Channel A) (next c : ℕ) (ch : Channel A) (es : List Entry)
      → Apart c es
      → All (IsLive heap next) es
      → All (IsLive (store heap c ch) next) es
  IsLive-store-Apart heap next c ch [] a h = tt
  IsLive-store-Apart heap next c ch (e ∷ es) a h = (
    (h.0.0, rw (store_other heap c ch e.channel a.0) h.0.1),
    IsLive-store-Apart heap next c ch es a.1 h.1,
  )

  fresh :
      (heap : ℕ → Channel A) (next : ℕ) (es : List Entry)
      → All (IsLive heap next) es
      → Apart next es
  fresh heap next es h =
      All-map_entry (IsLive heap next) (λ e. e.channel ≢ next) es (λ e l q. omega (arith, l.0, q)) h

  pub add_channel-IsValid :
      (t : ChannelType) (p : ResponseHandler A) (id : ℕ) → IsValid p → IsValid (add_channel t p id)
  unfolding add_channel
  add_channel-IsValid t p id v =
      let kept = All-delete _ t id p.entries v.live in
      let apart = fresh p.heap p.next (delete t id p.entries) kept in
      let moved =
        IsLive-store-Apart p.heap p.next p.next open_channel (delete t id p.entries) apart kept in
      record {
        live = (
          (omega arith, rw (store_same p.heap p.next open_channel) refl),
          All-map_entry _ _ _
              (λ (e : Entry) (l : IsLive (store p.heap p.next open_channel) p.next e).
                (omega (arith, l.0), l.1))
              moved,
        );
        distinct = (apart, Distinct-delete t id p.entries v.distinct);
      }

  pub update_channel-Ends :
      (t : ChannelType) (id : ℕ) (p : ResponseHandler A) (given : A)
      → IsValid p
      → Ends (after_send p (update_channel t p id given))
  unfolding update_channel send_to after_send
  update_channel-Ends t id p given v = elim (Option-cases (get_channel t id p.entries)) [
    | inl absent ↦ rw (absent, after_send, update_channel) v
    | inr (c, found) ↦
        let live =
          get_channel-All (λ d. (d < p.next) × ((p.heap d).closed ≡ false)) t id c p.entries v.live
            found in
        elim (Option-cases (p.heap c).buffer) [
          | inl empty ↦
              rw (found, after_send, update_channel, live.1, empty, send_to)
                (record {
                  live =
                      All-map_entry _ _ p.entries (λ e. IsLive-store p.heap p.next c _ e live.1)
                        v.live;
                  distinct = v.distinct;
                })
          | inr (a, full) ↦
              rw (found, after_send, update_channel, live.1, full, send_to)
                (v, (t, id, c, a, found, full))
        ]
  ]

  delete_details-Survives :
      (p : ResponseHandler A) (id : ℕ) (t : ChannelType)
      → IsValid p
      → Survives (delete_details p id t)
  unfolding delete_details close_channel Survives
  delete_details-Survives p id t v = elim (Option-cases (get_channel t id p.entries)) [
    | inl absent ↦ rw (absent, delete_details) (p, refl, v)
    | inr (c, found) ↦
        let live =
          get_channel-All (λ d. (d < p.next) × ((p.heap d).closed ≡ false)) t id c p.entries v.live
            found in
        rw (found, delete_details, live.1, close_channel)
          (
            _,
            refl,
            record {
              live =
                  IsLive-store-Apart p.heap p.next c _ (delete t id p.entries)
                    (Apart-delete t id c p.entries v.distinct found)
                    (All-delete _ t id p.entries v.live);
              distinct = Distinct-delete t id p.entries v.distinct;
            },
          )
  ]

  give_up-Ends :
      (p : ResponseHandler A) (id : ℕ) (t : ChannelType) (r : Waited A)
      → IsValid p
      → Ends (after_wait (give_up p id t r))
  unfolding give_up after_wait Survives
  give_up-Ends p id t r v =
      let (q, e, w) = delete_details-Survives p id t v in rw (e, give_up, after_wait) w

  take_answer-Ends :
      (p : ResponseHandler A) (id : ℕ) (t : ChannelType) (c : ℕ)
      → IsValid p
      → (p.heap c).closed ≡ false
      → Ends (after_wait (take_answer p id t c (p.heap c)))
  unfolding take_answer after_wait Survives
  take_answer-Ends p id t c v opened = elim (Option-cases (p.heap c).buffer) [
    | inl empty ↦ rw (empty, opened, take_answer, after_wait) v
    | inr (a, full) ↦
        let emptied : IsValid
            (record p { heap = store p.heap c (record (p.heap c) { buffer = none }) }) =
          record {
            live =
                All-map_entry _ _ p.entries (λ e. IsLive-store p.heap p.next c _ e opened) v.live;
            distinct = v.distinct;
          } in
        let (q, e, w) = delete_details-Survives _ id t emptied in
        rw (full, take_answer, e, after_wait) w
  ]

  wake_up-Ends :
      (w : Wake) (p : ResponseHandler A) (id : ℕ) (t : ChannelType) (c : ℕ)
      → IsValid p
      → (p.heap c).closed ≡ false
      → Ends (after_wait (wake_up w p id t c))
  unfolding wake_up
  wake_up-Ends received p id t c v o = take_answer-Ends p id t c v o
  wake_up-Ends done p id t c v o = give_up-Ends p id t context_error v
  wake_up-Ends timed_out p id t c v o = give_up-Ends p id t timeout v

  pub wait_for_details-Ends :
      (w : Wake) (p : ResponseHandler A) (id : ℕ) (t : ChannelType)
      → IsValid p
      → Ends (after_wait (wait_for_details w p id t))
  unfolding wait_for_details after_wait Survives
  wait_for_details-Ends w p id t v = elim (Option-cases (get_channel t id p.entries)) [
    | inl absent ↦ rw (absent, after_wait, wait_for_details) v
    | inr (c, found) ↦
        let live =
          get_channel-All (λ d. (d < p.next) × ((p.heap d).closed ≡ false)) t id c p.entries v.live
            found in
        rw (found, after_wait, wait_for_details) (wake_up-Ends w p id t c v live.1)
  ]
