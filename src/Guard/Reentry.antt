-- ===== src/Guard/Reentry.antt =====
-- Calls back into the one instance of a process.
use stanchion.Prelude.{
  ℕ, ◌≡◌, ◌≢◌, refl, Bool, true, ◌&&◌, some, List, [], ◌∷◌, ◌++◌, arith, ◌==◌, ==_iff,
}
use stanchion.Guard.{Calls, done, call, Ending, came_back, reentrant, none_active, run}

-- All calls are on this instance.
abbrev pub are_on : ℕ → Calls → Bool
are_on id done = true
are_on id (call other body next) = other == id && (are_on id body && are_on id next)

-- One refusal for each of the calls, whatever they would have done.
abbrev pub refusals : ℕ → Calls → List Ending
refusals id done = []
refusals id (call other body next) = reentrant id ∷ refusals id next

-- Each of the calls comes back, after the refusals of those that it makes itself.
abbrev pub answers_of : ℕ → Calls → List Ending
answers_of id done = []
answers_of id (call other body next) = refusals id body ++ came_back id ∷ answers_of id next

run-refusals :
    (id : ℕ) (calls : Calls) (held : List ℕ)
    → are_on id calls ≡ true
    → run calls id held ≡ some (refusals id calls, id)
unfolding run
run-refusals id done held h = refl
run-refusals id (call other body next) held h =
    let same = (==_iff other id).0 (ground arith) in ground (arith, run-refusals id next held, same)

-- With one instance, whatever calls are made inside of whatever others, the thread never waits for
-- itself: each outermost call comes back, each call that is made inside of one is refused, and at
-- the end the thread is inside no call.
pub run-answers_of :
    (id : ℕ) (calls : Calls)
    → id ≢ none_active
    → are_on id calls ≡ true
    → run calls none_active [] ≡ some (answers_of id calls, none_active)
unfolding run
run-answers_of id done n h = refl
run-answers_of id (call other body next) n h =
    let same = (==_iff other id).0 (ground arith) in
    ground (arith, run-refusals id body (id ∷ []), run-answers_of id next n, same)
