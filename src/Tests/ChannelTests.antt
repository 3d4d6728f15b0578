-- ===== src/Tests/ChannelTests.antt =====
-- A request that calls back into the application, while another one arrives.
use stanchion.Prelude.{
  ℕ, ◌+◌, ◌≡◌, refl, Option, none, some, List, [], ◌∷◌, arith, Outcome, ok, err, Text, codes,
  text_eq, if◌then◌else◌,
}
use stanchion.Remote.{ok_response, new_request, number, Request, request, response, FrameError}
use stanchion.Channel.{
  response_of, id_eq, call_application, run_work, send, serve_one, next_request, CallbackCall,
  Message, Channel, CallError, Wire, Work, done, callback, shutdown, serve, asked, answered,
}
use stanchion.Channel.Serving.{IsServed, serve-total}

-- JSON values are numbers, error objects are texts
abbrev wire : Wire ℕ Text
wire = record {
  null_value = 0;
  encode = λ call. ok 0;
  message = λ e. e;
  write_fault = λ sent message. none;
}

abbrev call : CallbackCall ℕ
call = record { plugin = codes "clock"; capability = codes "now"; grant = 0; args = [] }

abbrev pass_on : ℕ → Outcome CallError ℕ → Work ℕ (Outcome Text ℕ × ℕ)
pass_on r (ok value) = done (ok value, r + 1)
pass_on r (err _) = done (err (codes "no answer"), r)

-- each request but the last asks the application for the time
abbrev handle : ℕ → Request ℕ → Work ℕ (Outcome Text ℕ × ℕ)
handle r q = if text_eq q.method shutdown then done (ok 0, r) else callback call (pass_on r)

abbrev asking : ℕ → Text → Request ℕ
asking id method = record { id = number id; method = method; params = none }

abbrev channel : Channel ℕ Text
channel = record {
  incoming =
      ok (request (asking 7 (codes "plugins/list")))
      ∷ ok (request (asking 8 shutdown))
      ∷ ok (response (record { id = number 1; result = some 12; error = none }))
      ∷ [];
  queued = [];
  next_callback = 1;
  sent = [];
}

end_of : Option (Outcome FrameError (Unit {0}) × ℕ × Channel ℕ Text) → List (Message ℕ Text)
end_of none = []
end_of (some end) = end.2.sent

both_answered :
    end_of (serve wire handle 4 0 channel)
    ≡ asked (record { id = number 1; method = codes "capability/now"; params = some 0 })
      ∷ answered (record { id = number 7; result = some 12; error = none })
      ∷ answered (record { id = number 8; result = some 0; error = none })
      ∷ []
unfolding end_of serve next_request serve_one send text_eq run_work call_application id_eq
    new_request response_of ok_response
both_answered = refl

serve-total_example :
    (end : Outcome FrameError (Unit {0}) × ℕ × Channel ℕ Text) × (serve wire handle 4 0 channel
      ≡ some end)
    × IsServed wire handle channel end
serve-total_example = serve-total wire handle 4 0 channel (omega arith)
