-- ===== src/Channel.antt =====
-- crates/stanchion-remote/src/server.rs: `HostChannel` and `serve`, the host's end of the pipes. What
-- `frame::read` still gives is a list, at its end the stream is closed; whether a write fails is a
-- parameter, and so is what a request is answered with: `Work` says which callbacks it makes first.
-- A lock that a panic has poisoned is left out.
pub mod Waiting
pub mod Serving
use stanchion.Prelude.{
  ℕ, zero, suc, ◌+◌, Bool, true, false, Option, none, some, List, [], ◌∷◌, ◌++◌, ltb, ◌==◌,
  if◌then◌else◌, Outcome, ok, err, Text, text_eq, codes, u64_max,
}
use stanchion.Remote.{
  RequestId, null, number, str, Request, Response, Incoming, request, response, FrameError,
  new_request, ok_response, failed_response,
}

pub record CallbackCall (J : Type 0) : Type 0 where
  pub plugin : Text
  pub capability : Text
  pub grant : J
  pub args : List J

-- what the host writes
pub data Message (J E : Type 0) : Type 0 where
  asked : Request J → Message J E
  answered : Response J E → Message J E

pub record Channel (J E : Type 0) : Type 0 where
  pub incoming : List (Outcome FrameError (Incoming J E))
  pub queued : List (Request J)
  pub next_callback : ℕ
  pub sent : List (Message J E)

-- why a callback fails
pub data CallError : Type 0 where
  unencodable : Text → CallError
  unsent lost : FrameError → CallError
  closed : CallError
  failed : Text → CallError

unfoldable pub id_eq : RequestId → RequestId → Bool
id_eq null null = true
id_eq (number a) (number b) = a == b
id_eq (str a) (str b) = text_eq a b
id_eq _ _ = false

-- what serde_json makes of a call, the text of an error object, and the pipe's faults
pub record Wire (J E : Type 0) : Type 0 where
  pub null_value : J
  pub encode : CallbackCall J → Outcome Text J
  pub message : E → Text
  pub write_fault : List (Message J E) → Message J E → Option FrameError

-- the callbacks that a request makes before it has its answer
pub data Work (J A : Type 0) : Type 0 where
  done : A → Work J A
  callback : CallbackCall J → (Outcome CallError J → Work J A) → Work J A

abbrev pub shutdown : Text
shutdown = codes "host/shutdown"

module _ {J E : Type 0} (wire : Wire J E) where
  -- the loop of `next_request`
  unfoldable pub receive :
      List (Outcome FrameError (Incoming J E))
      → Outcome FrameError (Option (Request J)) × List (Outcome FrameError (Incoming J E))
  receive [] = (ok none, [])
  receive (err e ∷ rest) = (err e, rest)
  receive (ok (request q) ∷ rest) = (ok (some q), rest)
  receive (ok (response _) ∷ rest) = receive rest

  unfoldable pub next_of :
      Channel J E → List (Request J) → Outcome FrameError (Option (Request J)) × Channel J E
  next_of channel (q ∷ queued) = (ok (some q), record channel { queued = queued })
  next_of channel [] =
      let r = receive channel.incoming in (r.0, record channel { incoming = r.1; queued = [] })

  unfoldable pub next_request : Channel J E → Outcome FrameError (Option (Request J)) × Channel J E
  unfolding receive next_of
  next_request channel = next_of channel channel.queued

  unfoldable pub send : Message J E → Channel J E → Outcome FrameError (Unit {0}) × Channel J E
  send message channel = elim (wire.write_fault channel.sent message) [
    | some e ↦ (err e, channel)
    | none ↦ (ok tt, record channel { sent = channel.sent ++ message ∷ [] })
  ]

  unfoldable pub reply : Option J → Option E → Outcome CallError J
  reply result (some e) = err (failed (wire.message e))
  reply (some value) none = ok value
  reply none none = ok wire.null_value

  -- the loop of `call_application`, with what it queues
  unfoldable pub await :
      RequestId
      → List (Outcome FrameError (Incoming J E))
      → List (Request J)
      → Outcome CallError J × List (Outcome FrameError (Incoming J E)) × List (Request J)
  unfolding reply
  await id [] queued = (err closed, [], queued)
  await id (err e ∷ rest) queued = (err (lost e), rest, queued)
  await id (ok (request q) ∷ rest) queued = await id rest (queued ++ q ∷ [])
  await id (ok (response r) ∷ rest) queued =
      let later = await id rest queued in
      if id_eq r.id id then (reply r.result r.error, rest, queued) else later

  unfoldable pub settle_call :
      RequestId → Outcome FrameError (Unit {0}) × Channel J E → Outcome CallError J × Channel J E
  unfolding await
  settle_call id (err e, channel) = (err (unsent e), channel)
  settle_call id (ok _, channel) =
      let end = await id channel.incoming channel.queued in
      (end.0, record channel { incoming = end.1; queued = end.2 })

  unfoldable pub call_application : CallbackCall J → Channel J E → Outcome CallError J × Channel J E
  unfolding settle_call send
  call_application call channel = elim (wire.encode call) [
    | err reason ↦ (err (unencodable reason), channel)
    | ok params ↦
        let id = channel.next_callback in
        let asking = new_request id (codes "capability/" ++ call.capability) params in
        settle_call (number id) (
          send (asked asking)
            (record channel { next_callback = if ltb id u64_max then id + 1 else id }))
  ]

  unfoldable pub run_work : {A : Type 0} → Work J A → Channel J E → A × Channel J E
  run_work (done a) channel = (a, channel)
  run_work (callback call next) channel =
      let r = call_application call channel in run_work (next r.0) r.1

  unfoldable pub response_of : RequestId → Outcome E J → Response J E
  response_of id (ok value) = ok_response id value
  response_of id (err e) = failed_response id e

  -- `handle`, on a registry `R`
  module _ {R : Type 0} (handle : R → Request J → Work J (Outcome E J × R)) where
    -- one request, from its arrival to its answer
    unfoldable pub serve_one :
        R → Request J → Channel J E → Outcome FrameError (Unit {0}) × R × Channel J E
    serve_one registry q channel =
        let worked = run_work (handle registry q) channel in
        let sent = send (answered (response_of q.id worked.0.0)) worked.1 in
        (sent.0, worked.0.1, sent.1)

    -- `none` where the fuel is used up
    unfoldable pub serve :
        ℕ → R → Channel J E → Option (Outcome FrameError (Unit {0}) × R × Channel J E)
    serve zero registry channel = none
    serve (suc fuel) registry channel =
        let arrival = next_request channel in
        elim arrival.0 [
          | err e ↦ some (err e, registry, arrival.1)
          | ok none ↦ some (ok tt, registry, arrival.1)
          | ok (some q) ↦
              let served = serve_one registry q arrival.1 in
              elim served.0 [
                | err e ↦ some (err e, served.1, served.2)
                | ok _ ↦ elim (text_eq q.method shutdown) [
                  | true ↦ some (ok tt, served.1, served.2)
                  | false ↦ serve fuel served.1 served.2
                ]
              ]
        ]
