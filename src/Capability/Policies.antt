-- ===== src/Capability/Policies.antt =====
-- The two policies that the crate ships deny what they do not name.
use stanchion.Prelude.{
  ◌≡◌, ◌↔◌, inl, inr, true, List, [], ◌∷◌, arith, In, here, there, Text, Map, lookup-insert,
  text_eq, text_eq_iff, if◌then◌else◌, Bool-cases, any, any-In,
}
use stanchion.Capability.{
  CapabilityRequest, grant, deny, Policy, allow_list, allow_with, rules_decide, not_granted,
}

any_text :
    (name : Text) (allowed : List Text) → In name allowed → any (λ n. text_eq n name) allowed ≡ true
any_text name [] i = elim i [ ]
any_text name (n ∷ ns) (here e) = ground (arith, text_eq_iff n name)
any_text name (n ∷ ns) (there i) = ground (arith, any_text name ns i)

-- An allow-list grants a request exactly when the capability is on it, and else denies it.
pub allow_list_iff :
    (allowed : List Text) (request : CapabilityRequest)
    → ((allow_list allowed request ≡ grant) ↔ In request.capability allowed)
      × (¬ In request.capability allowed
          → allow_list allowed request ≡ deny (not_granted request.capability))
unfolding allow_list
allow_list_iff allowed request =
    let listed = any_text request.capability allowed in
    elim (Bool-cases (any (λ n. text_eq n request.capability) allowed)) [
      | inl h ↦
          let (n, i, e) = any-In (λ n. text_eq n request.capability) allowed h in
          let there : In request.capability allowed =
            rw (← (text_eq_iff n request.capability).0 e) i in
          ((λ _. there, λ _. ground arith), λ absent. absurd (absent there))
      | inr h ↦ ((λ g. absurd (ground arith), λ i. ground (arith, listed i)), λ _. ground arith)
    ]

-- Adding a rule changes the answer for its own capability alone, to what the rule says.
pub rules_decide-allow_with :
    (rules : Map Policy) (name : Text) (rule : Policy) (request : CapabilityRequest)
    → rules_decide (allow_with rules name rule) request
      ≡ (if text_eq request.capability name then rule request else rules_decide rules request)
unfolding rules_decide allow_with
rules_decide-allow_with rules name rule request =
    elim (Bool-cases (text_eq request.capability name)) [
      | inl e ↦ ground (arith, lookup-insert request.capability name rule rules)
      | inr e ↦ ground (arith, lookup-insert request.capability name rule rules)
    ]
