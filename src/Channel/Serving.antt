-- ===== src/Channel/Serving.antt =====
-- Every request that arrives is answered once, in the order of arrival.
use mathlib.Core.List.{append_assoc, append-nil}
use stanchion.Prelude.{
  ℕ, zero, suc, ◌≤◌, ◌<◌, ◌≡◌, refl, sym, ap, ◌∙◌, ◌⊎◌, inl, inr, some, List, [], ◌∷◌, ◌++◌, map,
  arith, In, here, there, Bool-cases, Option-cases, Outcome, ok, err, Outcome-cases, text_eq,
  text_eq_iff,
}
use stanchion.Remote.{Request, FrameError}
use stanchion.Channel.{Channel, Wire, Work, next_request, run_work, shutdown, serve_one, serve}
use stanchion.Channel.Waiting.{
  pending, weight, answers_of, next_request-some, next_request-none, next_request-err,
  run_work-IsKept, send-answered, send-unanswered,
}

module _ {J E : Type 0} (wire : Wire J E) where
  module _ {R : Type 0} (handle : R → Request J → Work J (Outcome E J × R)) where
    -- A request that is answered: one answer more, under its id, and the same requests wait.
    serve_one-ok :
        (registry : R) (q : Request J) (channel : Channel J E)
        → (serve_one wire handle registry q channel).0 ≡ ok tt
        → (pending (serve_one wire handle registry q channel).2 ≡ pending channel)
          × (weight (serve_one wire handle registry q channel).2 ≤ weight channel)
          × (answers_of (serve_one wire handle registry q channel).2.sent
              ≡ answers_of channel.sent ++ q.id ∷ [])
    unfolding serve_one
    serve_one-ok registry q channel h =
        let worked = run_work wire (handle registry q) channel in
        let (e, k, a) = run_work-IsKept wire (handle registry q) channel in
        let (f, l, b) = send-answered wire q.id worked.0.0 worked.1 h in
        (f ∙ e, omega (arith, k, l), b ∙ ap (λ t. t ++ q.id ∷ []) a)

    serve_one-err :
        (registry : R) (q : Request J) (channel : Channel J E) {e : FrameError}
        → (serve_one wire handle registry q channel).0 ≡ err e
        → answers_of (serve_one wire handle registry q channel).2.sent ≡ answers_of channel.sent
    unfolding serve_one
    serve_one-err registry q channel h =
        let worked = run_work wire (handle registry q) channel in
        let (e, k, a) = run_work-IsKept wire (handle registry q) channel in
        send-unanswered wire q.id worked.0.0 worked.1 h ∙ a

    -- What `serve` has done: the requests that it answered, in their order of arrival, and those that
    -- it left.
    abbrev pub IsServed : Channel J E → Outcome FrameError (Unit {0}) × R × Channel J E → Type 0
    IsServed channel end =
        (served left : List (Request J)) × (pending channel ≡ served ++ left)
        × (answers_of end.2.sent ≡ answers_of channel.sent ++ map (λ (q : Request J). q.id) served)
        × (end.0 ≡ ok tt → (left ≡ []) ⊎ ((q : Request J) × In q served × (q.method ≡ shutdown)))

    -- One request more, before those that the rest of the loop answers.
    IsServed-cons :
        (q : Request J) (channel next : Channel J E)
        (end : Outcome FrameError (Unit {0}) × R × Channel J E)
        → pending channel ≡ q ∷ pending next
        → answers_of next.sent ≡ answers_of channel.sent ++ q.id ∷ []
        → IsServed next end
        → IsServed channel end
    IsServed-cons q channel next end e a (served, left, f, b, closing) = (
      q ∷ served,
      left,
      e ∙ ap (λ t. q ∷ t) f,
      b
          ∙ ap (λ t. t ++ map (λ (r : Request J). r.id) served) a
          ∙ append_assoc (answers_of channel.sent) (q.id ∷ [])
              (map (λ (r : Request J). r.id) served),
      λ ended. elim (closing ended) [ inl empty ↦ inl empty | inr (r, i, m) ↦ inr (r, there i, m) ],
    )

    -- A loop that ends before it answers anything.
    unserved :
        (channel : Channel J E) (end : Outcome FrameError (Unit {0}) × R × Channel J E)
        → answers_of end.2.sent ≡ answers_of channel.sent
        → (end.0 ≡ ok tt → pending channel ≡ [])
        → IsServed channel end
    unserved channel end a f =
        ([], pending channel, refl, a ∙ sym (append-nil (answers_of channel.sent)), λ h. inl (f h))

    stopped :
        (q : Request J) (channel : Channel J E)
        (end : Outcome FrameError (Unit {0}) × R × Channel J E)
        → pending channel ≡ q ∷ pending end.2
        → answers_of end.2.sent ≡ answers_of channel.sent ++ q.id ∷ []
        → q.method ≡ shutdown
        → IsServed channel end
    stopped q channel end e a m = (q ∷ [], pending end.2, e, a, λ h. inr (q, here refl, m))

    -- A round that takes up a request, where the rounds that follow come to an end.
    serve_taken :
        (fuel : ℕ) (registry : R) (channel : Channel J E) (q : Request J)
        → (next_request wire channel).0 ≡ ok (some q)
        → ((r : R) (c : Channel J E)
            → weight c < weight channel
            → (end : Outcome FrameError (Unit {0}) × R × Channel J E) × (serve wire handle fuel r c
                ≡ some end)
              × IsServed c end)
        → (end : Outcome FrameError (Unit {0}) × R × Channel J E) × (serve wire handle
              (suc fuel)
              registry
              channel
            ≡ some end)
          × IsServed channel end
    unfolding serve
    serve_taken fuel registry channel q e follow =
        let arrival = next_request wire channel in
        let (p, k, s) = next_request-some wire channel e in
        let one = serve_one wire handle registry q arrival.1 in
        elim (Outcome-cases one.0) [
          | inr (x, r) ↦ (
            (err x, one.1, one.2),
            rw (e, r, serve) refl,
            unserved channel (err x, one.1, one.2)
                (serve_one-err registry q arrival.1 r ∙ ap answers_of s)
                (λ u. absurd (ground arith)),
          )
          | inl (_, r) ↦
              let (f, l, a) = serve_one-ok registry q arrival.1 r in
              let first : pending channel ≡ q ∷ pending one.2 = p ∙ ap (λ t. q ∷ t) (sym f) in
              let told = a ∙ ap (λ t. answers_of t ++ q.id ∷ []) s in
              elim (Bool-cases (text_eq q.method shutdown)) [
                | inl m ↦ (
                  (ok tt, one.1, one.2),
                  rw (e, r, m, serve) refl,
                  stopped q channel (ok tt, one.1, one.2) first told
                      ((text_eq_iff q.method shutdown).0 m),
                )
                | inr m ↦
                    let (end, u, rest) = follow one.1 one.2 (omega (arith, k, l)) in
                    (end, rw (e, r, m, serve) u, IsServed-cons q channel one.2 end first told rest)
              ]
        ]

    -- With fuel for one round more than there are messages and queued requests, `serve` comes to an end.
    -- It has then answered some of the requests that arrived, each once, under its id and in the order
    -- of their arrival, however many callbacks they made and whatever arrived meanwhile. Where it ends
    -- well, it has answered all that arrived, or one of those it answered asked it to stop.
    pub serve-total :
        (fuel : ℕ) (registry : R) (channel : Channel J E)
        → weight channel < fuel
        → (end : Outcome FrameError (Unit {0}) × R × Channel J E) × (serve wire handle fuel registry
              channel
            ≡ some end)
          × IsServed channel end
    unfolding serve
    serve-total zero registry channel h = absurd (omega arith)
    serve-total (suc fuel) registry channel h =
        let arrival = next_request wire channel in
        elim (Outcome-cases arrival.0) [
          | inr (x, e) ↦ (
            (err x, registry, arrival.1),
            rw (e, serve) refl,
            unserved channel (err x, registry, arrival.1)
                (ap answers_of (next_request-err wire channel e)) (λ k. absurd (ground arith)),
          )
          | inl (o, e) ↦ elim (Option-cases o) [
            | inl g ↦
                let none_left = next_request-none wire channel (e ∙ ap ok g) in
                (
                  (ok tt, registry, arrival.1),
                  rw (e, g, serve) refl,
                  unserved channel (ok tt, registry, arrival.1) (ap answers_of none_left.1)
                      (λ k. none_left.0),
                )
            | inr (q, g) ↦
                serve_taken fuel registry channel q (e ∙ ap ok g)
                  (λ r c k. serve-total fuel r c (omega (arith, k, h)))
          ]
        ]
