-- ===== src/Tests/GuardTests.antt =====
-- Nested calls of one thread on one instance and on two.
use stanchion.Prelude.{◌≡◌, refl, none, some, [], ◌∷◌, arith}
use stanchion.Guard.{Calls, done, call, came_back, reentrant, run}
use stanchion.Guard.Reentry.{answers_of, run-answers_of}

-- a call whose provider calls back twice, and a second call
abbrev nested : Calls
nested = call 1 (call 1 done (call 1 done done)) (call 1 done done)

run-answers_of_example : run nested 0 [] ≡ some (answers_of 1 nested, 0)
run-answers_of_example = run-answers_of 1 nested (omega arith) refl

nested_answers : answers_of 1 nested ≡ reentrant 1 ∷ reentrant 1 ∷ came_back 1 ∷ came_back 1 ∷ []
nested_answers = refl

-- two instances, called side by side from inside of a third
siblings_return :
    run (call 1 (call 2 done (call 3 done done)) done) 0 []
    ≡ some (came_back 2 ∷ came_back 3 ∷ came_back 1 ∷ [], 0)
unfolding run
siblings_return = refl

-- an instance that is called again through another one: the thread waits for its own lock
detour_hangs : run (call 1 (call 2 (call 1 done done) done) done) 0 [] ≡ none
unfolding run
detour_hangs = refl
