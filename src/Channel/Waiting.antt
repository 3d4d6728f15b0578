-- ===== src/Channel/Waiting.antt =====
-- What waits to be taken up, and what has been answered, as the channel is used.
use mathlib.Core.List.{append_assoc, append-nil}
use stanchion.Prelude.{
  ℕ, ◌+◌, ◌≤◌, ◌<◌, ◌≡◌, refl, ap, ◌∙◌, inl, inr, none, some, List, [], ◌∷◌, ◌++◌, length,
  length-append, arith, Bool-cases, Option-cases, Outcome, ok, err, Outcome-cases, codes, ltb,
  u64_max, if◌then◌else◌,
}
use stanchion.Remote.{
  RequestId, number, new_request, Request, Incoming, request, response, FrameError, ok_response,
  failed_response,
}
use stanchion.Channel.{
  CallbackCall, Message, asked, answered, Channel, Wire, id_eq, Work, done, callback, receive,
  next_of, next_request, send, await, settle_call, call_application, run_work, response_of,
}

module _ {J E : Type 0} where
  -- The requests among what is still to be read.
  abbrev pub requests_of : List (Outcome FrameError (Incoming J E)) → List (Request J)
  requests_of [] = []
  requests_of (err _ ∷ rest) = requests_of rest
  requests_of (ok (response _) ∷ rest) = requests_of rest
  requests_of (ok (request q) ∷ rest) = q ∷ requests_of rest

  -- The requests that have not been taken up, in their order of arrival.
  abbrev pub pending : Channel J E → List (Request J)
  pending channel = channel.queued ++ requests_of channel.incoming

  abbrev pub weight : Channel J E → ℕ
  weight channel = length channel.queued + length channel.incoming

  -- The ids of the answers among what has been written.
  abbrev pub answers_of : List (Message J E) → List RequestId
  answers_of [] = []
  answers_of (asked _ ∷ sent) = answers_of sent
  answers_of (answered r ∷ sent) = r.id ∷ answers_of sent

  answers_of-append :
      (one two : List (Message J E)) → answers_of (one ++ two) ≡ answers_of one ++ answers_of two
  answers_of-append [] two = refl
  answers_of-append (asked _ ∷ one) two = answers_of-append one two
  answers_of-append (answered r ∷ one) two = ap (λ l. r.id ∷ l) (answers_of-append one two)

module _ {J E : Type 0} (wire : Wire J E) where
  receive-some :
      (l : List (Outcome FrameError (Incoming J E))) {q : Request J}
      → (receive wire l).0 ≡ ok (some q)
      → (requests_of l ≡ q ∷ requests_of (receive wire l).1)
        × (length (receive wire l).1 < length l)
  unfolding receive
  receive-some [] h = absurd (ground arith)
  receive-some (err e ∷ l) h = absurd (ground arith)
  receive-some (ok (request p) ∷ l) h = (ground arith, omega arith)
  receive-some (ok (response _) ∷ l) h = let (e, k) = receive-some l h in (e, omega (arith, k))

  receive-none :
      (l : List (Outcome FrameError (Incoming J E)))
      → (receive wire l).0 ≡ ok none
      → (requests_of l ≡ []) × (requests_of (receive wire l).1 ≡ [])
  unfolding receive
  receive-none [] h = (refl, refl)
  receive-none (err e ∷ l) h = absurd (ground arith)
  receive-none (ok (request p) ∷ l) h = absurd (ground arith)
  receive-none (ok (response _) ∷ l) h = receive-none l h

  receive-err :
      (l : List (Outcome FrameError (Incoming J E))) {e : FrameError}
      → (receive wire l).0 ≡ err e
      → requests_of l ≡ requests_of (receive wire l).1
  unfolding receive
  receive-err [] h = absurd (ground arith)
  receive-err (err e ∷ l) h = refl
  receive-err (ok (request p) ∷ l) h = absurd (ground arith)
  receive-err (ok (response _) ∷ l) h = receive-err l h

  -- Waiting for a reply keeps every request, and their order.
  await-pending :
      (id : RequestId) (l : List (Outcome FrameError (Incoming J E))) (queued : List (Request J))
      → ((await wire id l queued).2 ++ requests_of (await wire id l queued).1
          ≡ queued ++ requests_of l)
        × (length (await wire id l queued).2 + length (await wire id l queued).1
            ≤ length queued + length l)
  unfolding await
  await-pending id [] queued = (refl, omega arith)
  await-pending id (err e ∷ l) queued = (refl, omega arith)
  await-pending id (ok (request q) ∷ l) queued =
      let (e, k) = await-pending id l (queued ++ q ∷ []) in
      (
        e ∙ append_assoc queued (q ∷ []) (requests_of l),
        omega (arith, k, length-append queued (q ∷ [])),
      )
  await-pending id (ok (response r) ∷ l) queued = elim (Bool-cases (id_eq r.id id)) [
    | inl e ↦ rw (e, await) (refl, omega arith)
    | inr e ↦ let (f, k) = await-pending id l queued in rw (e, await) (f, omega (arith, k))
  ]

  -- What a step leaves of a channel: the same requests to be taken up, and the same answers given.
  abbrev pub IsKept : Channel J E → Channel J E → Type 0
  IsKept before after =
      (pending after ≡ pending before)
      × (weight after ≤ weight before)
      × (answers_of after.sent ≡ answers_of before.sent)

  send-asked :
      (q : Request J) (channel : Channel J E) → IsKept channel (send wire (asked q) channel).1
  unfolding send
  send-asked q channel = elim (Option-cases (wire.write_fault channel.sent (asked q))) [
    | inr (e, f) ↦ rw (f, send) (refl, omega arith, refl)
    | inl f ↦
        rw (f, send)
          (
            refl,
            omega arith,
            answers_of-append channel.sent (asked q ∷ []) ∙ append-nil (answers_of channel.sent),
          )
  ]

  response_of-id : (id : RequestId) (end : Outcome E J) → (response_of wire id end).id ≡ id
  unfolding response_of ok_response failed_response
  response_of-id id (ok value) = refl
  response_of-id id (err e) = refl

  pub send-answered :
      (id : RequestId) (end : Outcome E J) (channel : Channel J E)
      → (send wire (answered (response_of wire id end)) channel).0 ≡ ok tt
      → (pending (send wire (answered (response_of wire id end)) channel).1 ≡ pending channel)
        × (weight (send wire (answered (response_of wire id end)) channel).1 ≤ weight channel)
        × (answers_of (send wire (answered (response_of wire id end)) channel).1.sent
            ≡ answers_of channel.sent ++ id ∷ [])
  unfolding send
  send-answered id end channel h =
      let message : Message J E = answered (response_of wire id end) in
      elim (Option-cases (wire.write_fault channel.sent message)) [
        | inr (e, f) ↦ absurd (ground arith)
        | inl f ↦
            rw (f, send)
              (
                refl,
                omega arith,
                answers_of-append channel.sent (message ∷ [])
                    ∙ ap (λ t. answers_of channel.sent ++ t ∷ []) (response_of-id id end),
              )
      ]

  pub send-unanswered :
      (id : RequestId) (end : Outcome E J) (channel : Channel J E) {e : FrameError}
      → (send wire (answered (response_of wire id end)) channel).0 ≡ err e
      → answers_of (send wire (answered (response_of wire id end)) channel).1.sent
        ≡ answers_of channel.sent
  unfolding send
  send-unanswered id end channel h =
      elim (Option-cases (wire.write_fault channel.sent (answered (response_of wire id end)))) [
        | inr (e, f) ↦ rw (f, send) refl
        | inl f ↦ absurd (ground arith)
      ]

  settle_call-IsKept :
      (id : RequestId) (sent : Outcome FrameError (Unit {0})) (channel : Channel J E)
      → IsKept channel (settle_call wire id (sent, channel)).1
  unfolding settle_call
  settle_call-IsKept id (err e) channel = (refl, omega arith, refl)
  settle_call-IsKept id (ok _) channel =
      let (e, k) = await-pending id channel.incoming channel.queued in (e, k, refl)

  call_application-IsKept :
      (call : CallbackCall J) (channel : Channel J E)
      → IsKept channel (call_application wire call channel).1
  unfolding call_application
  call_application-IsKept call channel = elim (Outcome-cases (wire.encode call)) [
    | inr (x, e) ↦ rw (e, call_application) (refl, omega arith, refl)
    | inl (params, e) ↦
        let id = channel.next_callback in
        let asking = new_request id (codes "capability/" ++ call.capability) params in
        let numbered : Channel J E = record channel {
          next_callback = if ltb id u64_max then id + 1 else id;
        } in
        let sent = send wire (asked asking) numbered in
        let (f, k, a) = send-asked asking numbered in
        let (g, l, b) = settle_call-IsKept (number id) sent.0 sent.1 in
        rw (e, call_application) (g ∙ f, omega (arith, k, l), b ∙ a)
  ]

  -- However many callbacks a request makes, what waits to be taken up is the same afterwards.
  pub run_work-IsKept :
      {A : Type 0} (work : Work J A) (channel : Channel J E)
      → IsKept channel (run_work wire work channel).1
  unfolding run_work
  run_work-IsKept (done a) channel = (refl, omega arith, refl)
  run_work-IsKept (callback call next) channel =
      let r = call_application wire call channel in
      let (e, k, a) = call_application-IsKept call channel in
      let (f, l, b) = run_work-IsKept (next r.0) r.1 in (f ∙ e, omega (arith, k, l), b ∙ a)

  next_of-some :
      (channel : Channel J E) (queued : List (Request J)) {q : Request J}
      → (next_of wire channel queued).0 ≡ ok (some q)
      → (queued ++ requests_of channel.incoming ≡ q ∷ pending (next_of wire channel queued).1)
        × (weight (next_of wire channel queued).1 < length queued + length channel.incoming)
        × ((next_of wire channel queued).1.sent ≡ channel.sent)
  unfolding next_of
  next_of-some channel (p ∷ queued) {q = q} h =
      let same : p ≡ q = ground arith in
      (ap (λ t. t ∷ (queued ++ requests_of channel.incoming)) same, omega arith, refl)
  next_of-some channel [] h =
      let (e, k) = receive-some channel.incoming h in (e, omega (arith, k), refl)

  -- A request that is taken up is the first that waited.
  pub next_request-some :
      (channel : Channel J E) {q : Request J}
      → (next_request wire channel).0 ≡ ok (some q)
      → (pending channel ≡ q ∷ pending (next_request wire channel).1)
        × (weight (next_request wire channel).1 < weight channel)
        × ((next_request wire channel).1.sent ≡ channel.sent)
  unfolding next_request
  next_request-some channel h = next_of-some channel channel.queued h

  next_of-none :
      (channel : Channel J E) (queued : List (Request J))
      → (next_of wire channel queued).0 ≡ ok none
      → (queued ++ requests_of channel.incoming ≡ [])
        × ((next_of wire channel queued).1.sent ≡ channel.sent)
  unfolding next_of
  next_of-none channel (p ∷ queued) h = absurd (ground arith)
  next_of-none channel [] h = ((receive-none channel.incoming h).0, refl)

  next_of-err :
      (channel : Channel J E) (queued : List (Request J)) {e : FrameError}
      → (next_of wire channel queued).0 ≡ err e
      → (next_of wire channel queued).1.sent ≡ channel.sent
  unfolding next_of
  next_of-err channel (p ∷ queued) h = absurd (ground arith)
  next_of-err channel [] h = refl

  pub next_request-none :
      (channel : Channel J E)
      → (next_request wire channel).0 ≡ ok none
      → (pending channel ≡ []) × ((next_request wire channel).1.sent ≡ channel.sent)
  unfolding next_request
  next_request-none channel h = next_of-none channel channel.queued h

  pub next_request-err :
      (channel : Channel J E) {e : FrameError}
      → (next_request wire channel).0 ≡ err e
      → (next_request wire channel).1.sent ≡ channel.sent
  unfolding next_request
  next_request-err channel h = next_of-err channel channel.queued h
