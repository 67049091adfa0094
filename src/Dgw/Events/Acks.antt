-- ===== src/Dgw/Events/Acks.antt =====
-- What the gateway is told, and when the handshake counts as done.
use meta_matrix_bridge.Prelude.{
  ℕ, ◌≡◌, refl, ◌∙◌, List, [], ◌∷◌, ◌++◌, append_assoc, append-nil, Bool, true, false, ◌||◌, ◌&&◌,
  not, Option, none, some, arith, ◌==◌, if◌then◌else◌, Option-cases, inl, inr,
}
use meta_matrix_bridge.Dgw.{
  Frame, unsupported_frame, ping_frame, pong_frame, data_frame, ack_frame, open_frame,
  stream_typing,
}
use meta_matrix_bridge.Dgw.Events.{XdtJson, Handling, handle_frame, handle_frames, payload_events}

-- The acks that a run of frames calls for.
abbrev pub acks_for : List Frame → List Frame
acks_for [] = []
acks_for (data_frame stream_id payload true ack_id ∷ fs) = ack_frame stream_id ack_id ∷ acks_for fs
acks_for (f ∷ fs) = acks_for fs

-- An open frame that confirms the typing stream, and an ack frame that confirms its parameters.
abbrev pub confirms_stream : Frame → Bool
confirms_stream (open_frame stream_id p raw) =
    (stream_id == stream_typing) && (p.status_code == 200)
confirms_stream f = false

abbrev pub confirms_parameters : Frame → Bool
confirms_parameters (ack_frame stream_id ack_id) = (stream_id == stream_typing) && (ack_id == 0)
confirms_parameters f = false

abbrev pub any_frame : (Frame → Bool) → List Frame → Bool
any_frame p [] = false
any_frame p (f ∷ fs) = p f || any_frame p fs

-- The status of an open frame that refuses the typing stream.
abbrev pub refusal : Frame → Option ℕ
refusal (open_frame stream_id p raw) =
    if (stream_id == stream_typing) && not (p.status_code == 0) && not (p.status_code == 200)
    then some p.status_code
    else none
refusal f = none

abbrev pub first_of_two : Option ℕ → Option ℕ → Option ℕ
first_of_two none b = b
first_of_two (some a) b = some a

abbrev pub first_refusal : List Frame → Option ℕ
first_refusal [] = none
first_refusal (f ∷ fs) = first_of_two (refusal f) (first_refusal fs)

abbrev OneFrame : Frame → Handling → Handling → Type 0
OneFrame f s t =
    (t.outgoing ≡ s.outgoing ++ acks_for (f ∷ []))
    × (t.ack_subscription ≡ s.ack_subscription || confirms_stream f)
    × (t.ack_parameters ≡ s.ack_parameters || confirms_parameters f)
    × (t.fatal ≡ first_of_two s.fatal (refusal f))

one_frame :
    (x : XdtJson) (f : Frame) (s t : Handling) → handle_frame x f s ≡ some t → OneFrame f s t
unfolding handle_frame
one_frame x (unsupported_frame raw) s t e = ground (arith, append-nil s.outgoing)
one_frame x ping_frame s t e = ground (arith, append-nil s.outgoing)
one_frame x pong_frame s t e = ground (arith, append-nil s.outgoing)
one_frame x (data_frame stream_id payload r a) s t e =
    elim (Option-cases (payload_events x payload)) [
      | inl bad ↦ absurd (ground arith)
      | inr (new, good) ↦ ground arith
    ]
one_frame x (ack_frame stream_id ack_id) s t e = ground (arith, append-nil s.outgoing)
one_frame x (open_frame stream_id p raw) s t e = ground (arith, append-nil s.outgoing)

or_assoc : (a b c : Bool) → (a || b) || c ≡ a || (b || c)
or_assoc a b c = ground arith

first_assoc :
    (a b c : Option ℕ) → first_of_two (first_of_two a b) c ≡ first_of_two a (first_of_two b c)
first_assoc none b c = refl
first_assoc (some a) b c = refl

acks_for-cons : (f : Frame) (fs : List Frame) → acks_for (f ∷ fs) ≡ acks_for (f ∷ []) ++ acks_for fs
acks_for-cons (data_frame s p true a) fs = refl
acks_for-cons (data_frame s p false a) fs = refl
acks_for-cons (unsupported_frame raw) fs = refl
acks_for-cons ping_frame fs = refl
acks_for-cons pong_frame fs = refl
acks_for-cons (ack_frame s a) fs = refl
acks_for-cons (open_frame s p raw) fs = refl

-- Over any run of frames that is processed without a panic: what is put on the outgoing channel is
-- one ack for each data frame that requires one, with its stream and identifier and in order, and
-- nothing else; each part of the handshake is confirmed exactly if a frame of the run confirms it
-- or it was before; and the fatal error is the first one, be it an earlier one or the first
-- refusal in the run.
pub handle_frames_answers :
    (x : XdtJson) (fs : List Frame) (s t : Handling)
    → handle_frames x fs s ≡ some t
    → (t.outgoing ≡ s.outgoing ++ acks_for fs)
      × (t.ack_subscription ≡ s.ack_subscription || any_frame confirms_stream fs)
      × (t.ack_parameters ≡ s.ack_parameters || any_frame confirms_parameters fs)
      × (t.fatal ≡ first_of_two s.fatal (first_refusal fs))
unfolding handle_frames
handle_frames_answers x [] s t e = ground (arith, append-nil s.outgoing)
handle_frames_answers x (f ∷ fs) s t e = elim (Option-cases (handle_frame x f s)) [
  | inl bad ↦ absurd (ground arith)
  | inr (u, good) ↦
      let (out, sub, par, fat) = one_frame x f s u good in
      let (out', sub', par', fat') =
        handle_frames_answers x fs u t (rw (good, handle_frames) at e) in
      (
        out'
            ∙ rw (out, acks_for-cons f fs)
                (append_assoc s.outgoing (acks_for (f ∷ [])) (acks_for fs)),
        sub'
            ∙ rw sub
                (or_assoc s.ack_subscription (confirms_stream f) (any_frame confirms_stream fs)),
        par'
            ∙ rw par (
                or_assoc s.ack_parameters (confirms_parameters f)
                  (any_frame confirms_parameters fs)),
        fat' ∙ rw fat (first_assoc s.fatal (refusal f) (first_refusal fs)),
      )
]
