-- ===== src/Pending/Cancel.antt =====
-- pkg/messagix/responsehandler.go: CancelAllRequests, runs of operations, and the race of a send.
use meta_matrix_bridge.Prelude.{
  ℕ, ◌<◌, ◌≡◌, refl, List, [], ◌∷◌, true, false, none, some, All, sym, ap, ◌∙◌,
}
use meta_matrix_bridge.Pending.{
  ChannelType, Channel, Entry, ResponseHandler, get_channel, delete, store, close_channel,
  delete_details, close_all, cancel_all_requests, timeout, connection_closed, panics, waits,
  send_to, received, timed_out, wake_up, take_answer, give_up,
}
use meta_matrix_bridge.Pending.Validity.{
  Apart, Distinct, IsLive, IsValid, get_channel-All, store_same, store_other,
}
use meta_matrix_bridge.Pending.Steps.{
  IsLive-store-Apart, moved, blocked, panicked, after_cancel, Ends, Operation, add, update, wait,
  cancel, perform, perform_all, add_channel-IsValid, update_channel-Ends, wait_for_details-Ends,
}

module _ {A : Type 0} where
  unfoldable pub closed_of : Channel A → Channel A
  closed_of ch = record ch { closed = true }

  -- After the first entry is closed, the others are as they were.
  All-closed_of :
      (heap heap' : ℕ → Channel A) (c : ℕ) (ch : Channel A) (es : List Entry)
      → Apart c es
      → All (λ (e : Entry). heap' e.channel ≡ closed_of (store heap c ch e.channel)) es
      → All (λ (e : Entry). heap' e.channel ≡ closed_of (heap e.channel)) es
  All-closed_of heap heap' c ch [] a h = tt
  All-closed_of heap heap' c ch (e ∷ es) a h = (
    h.0 ∙ ap closed_of (store_other heap c ch e.channel a.0),
    All-closed_of heap heap' c ch es a.1 h.1,
  )

  -- Closing every channel once succeeds: it closes the channels of the entries, keeps their
  -- buffers, and leaves the others.
  close_all-closes :
      (es : List Entry) (heap : ℕ → Channel A) (next : ℕ)
      → All (IsLive heap next) es
      → Distinct es
      → (heap' : ℕ → Channel A) × (close_all es heap ≡ some heap')
        × ((c : ℕ) → Apart c es → heap' c ≡ heap c)
        × All (λ (e : Entry). heap' e.channel ≡ closed_of (heap e.channel)) es
  unfolding close_all close_channel closed_of
  close_all-closes [] heap next l d = (heap, refl, λ c a. refl, tt)
  close_all-closes (e ∷ es) heap next l d =
      let shut = closed_of (heap e.channel) in
      let later = store heap e.channel shut in
      let moved = IsLive-store-Apart heap next e.channel shut es d.0 l.1 in
      let (heap', eq, others, all) = close_all-closes es later next moved d.1 in
      (
        heap',
        rw (l.0.1, close_all) eq,
        λ c a. others c a.1 ∙ store_other heap e.channel shut c (λ q. a.0 (sym q)),
        (
          others e.channel d.0 ∙ store_same heap e.channel shut,
          All-closed_of heap heap' e.channel shut es d.0 all,
        ),
      )

  cancel_all_requests-Ends :
      (p : ResponseHandler A) → IsValid p → Ends (after_cancel (cancel_all_requests p))
  unfolding cancel_all_requests after_cancel
  cancel_all_requests-Ends p v =
      let (heap', eq, others, all) = close_all-closes p.entries p.heap p.next v.live v.distinct in
      rw (eq, cancel_all_requests, after_cancel) (record { live = tt; distinct = tt })

  -- A waiter that holds the channel of a registered request, whose answer has not come, is woken by
  -- the cancellation of all requests with the error of a closed connection.
  pub cancel_all_requests-wakes :
      (p : ResponseHandler A) (id : ℕ) (t : ChannelType) (c : ℕ)
      → IsValid p
      → get_channel t id p.entries ≡ some c
      → (p.heap c).buffer ≡ none
      → (q : ResponseHandler A) × (cancel_all_requests p ≡ some q)
        × (wake_up received q id t c ≡ some (connection_closed, q))
        × (q.entries ≡ [])
  unfolding cancel_all_requests wake_up take_answer closed_of
  cancel_all_requests-wakes p id t c v found empty =
      let (heap', eq, others, all) = close_all-closes p.entries p.heap p.next v.live v.distinct in
      let shut : heap' c ≡ closed_of (p.heap c) =
        get_channel-All (λ d. heap' d ≡ closed_of (p.heap d)) t id c p.entries all found in
      rw (eq, cancel_all_requests) (_, refl, rw (shut, empty) refl, refl)

  perform-Ends : (o : Operation A) (p : ResponseHandler A) → IsValid p → Ends (perform o p)
  unfolding perform
  perform-Ends (add t id) p v = add_channel-IsValid t p id v
  perform-Ends (update t id given) p v = update_channel-Ends t id p given v
  perform-Ends (wait w id t) p v = wait_for_details-Ends w p id t v
  perform-Ends cancel p v = cancel_all_requests-Ends p v

  -- From a valid handler, any sequence of registrations, answers, awakened waits and cancellations, each
  -- done before the next begins, ends without a panic in a valid handler: at its end, or at the
  -- first answer for a request whose channel holds an earlier answer, where the caller waits.
  pub perform_all-Ends :
      (os : List (Operation A)) (p : ResponseHandler A) → IsValid p → Ends (perform_all os p)
  unfolding perform_all
  perform_all-Ends [] p v = v
  perform_all-Ends (o ∷ os) p v =
      elim (perform o p)
          as (λ r.
            Ends r
            → Ends (elim r [
              | moved q ↦ perform_all os q
              | blocked q ↦ blocked q
              | panicked ↦ panicked
            ])) [ moved q ↦ λ w. perform_all-Ends os q w | blocked q ↦ λ w. w | panicked ↦ λ w. w ]
        (perform-Ends o p v)

  -- An answer whose caller waits on the full channel of a request panics when all requests are
  -- cancelled, since its channel is closed under it.
  send_to-cancelled :
      (p : ResponseHandler A) (id : ℕ) (t : ChannelType) (c : ℕ) (given a : A)
      → IsValid p
      → get_channel t id p.entries ≡ some c
      → (p.heap c).buffer ≡ some a
      → (send_to p c given (p.heap c) ≡ waits)
        × ((q : ResponseHandler A) × (cancel_all_requests p ≡ some q)
            × (send_to q c given (q.heap c) ≡ panics))
  unfolding cancel_all_requests send_to closed_of
  send_to-cancelled p id t c given a v found full =
      let (heap', eq, others, all) = close_all-closes p.entries p.heap p.next v.live v.distinct in
      let live =
        get_channel-All (λ d. (d < p.next) × ((p.heap d).closed ≡ false)) t id c p.entries v.live
          found in
      let shut : heap' c ≡ closed_of (p.heap c) =
        get_channel-All (λ d. heap' d ≡ closed_of (p.heap d)) t id c p.entries all found in
      (
        rw (live.1, full) refl,
        (record p { heap = heap'; entries = [] }, rw (eq, cancel_all_requests) refl, rw shut refl),
      )

  -- From a valid handler: if between the lookup of a channel and the send on it the waiter times out
  -- and closes the channel, the send panics.
  pub send_to-panics :
      (p : ResponseHandler A) (id : ℕ) (t : ChannelType) (c : ℕ) (given : A)
      → IsValid p
      → get_channel t id p.entries ≡ some c
      → (q : ResponseHandler A) × (wake_up timed_out p id t c ≡ some (timeout, q))
        × (send_to q c given (q.heap c) ≡ panics)
  unfolding wake_up give_up delete_details close_channel send_to
  send_to-panics p id t c given v found =
      let live =
        get_channel-All (λ d. (d < p.next) × ((p.heap d).closed ≡ false)) t id c p.entries v.live
          found in
      (
        record p {
          heap = store p.heap c (record (p.heap c) { closed = true });
          entries = delete t id p.entries;
        },
        rw (found, give_up, delete_details, live.1, close_channel) refl,
        rw (store_same p.heap c (record (p.heap c) { closed = true })) refl,
      )
