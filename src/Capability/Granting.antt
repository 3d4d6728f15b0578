-- ===== src/Capability/Granting.antt =====
-- What `approve_capabilities` grants and when it refuses.
use stanchion.Prelude.{
  ◌≡◌, refl, ap, true, false, ◌⊎◌, inl, inr, none, List, [], ◌∷◌, arith, In, here, there, Text, Map,
  Option-cases, is_some,
}
use stanchion.Value.{Value, map, Fields, Table}
use stanchion.Manifest.{Manifest}
use stanchion.Capability.{
  CapabilityRequest, Decision, grant, grant_with, deny, Policy, Approval, HostSetup, provider,
  Refusal, Result, ok, err, Answer, approve, skip, refuse, settle, decide, request_of, approve_each,
  approve_capabilities, split_optional, not_offered, not_table, denied,
}

-- The policy grants the request with these parameters: those asked for, or a table of its own.
abbrev pub Grants : Policy → CapabilityRequest → Value → Type 0
Grants policy request params =
    ((policy request ≡ grant) × (params ≡ request.params))
    ⊎ ((policy request ≡ grant_with params) × ((fs : Fields) × (params ≡ map fs)))

settle-approve :
    (request : CapabilityRequest) (d : Decision) {params : Value}
    → settle request d ≡ approve params
    → ((d ≡ grant) × (params ≡ request.params))
      ⊎ ((d ≡ grant_with params) × ((fs : Fields) × (params ≡ map fs)))
unfolding settle
settle-approve request grant h = inl (refl, ground arith)
settle-approve request (grant_with (map fs)) h = inr (ground arith, (fs, ground arith))
settle-approve request (grant_with v) h = ground arith
settle-approve request (deny reason) h = ground arith

-- Why one request ends a load: it is required and nothing offers it, or the policy denies it, or
-- the policy narrows it to something that is no table.
abbrev pub Refuses : HostSetup → Policy → CapabilityRequest → Refusal → Type 0
Refuses setup policy request e =
    ((provider setup request.capability ≡ none)
      × (request.optional ≡ false)
      × (e ≡ not_offered request.capability))
    ⊎ ((reason : Text) × (policy request ≡ deny reason)
        × (request.optional ≡ false)
        × (e ≡ denied request.capability reason))
    ⊎ ((params : Value) × (policy request ≡ grant_with params) × (e ≡ not_table request.capability))

settle-refuse :
    (request : CapabilityRequest) (d : Decision) {e : Refusal}
    → settle request d ≡ refuse e
    → ((reason : Text) × (d ≡ deny reason)
        × (request.optional ≡ false)
        × (e ≡ denied request.capability reason))
      ⊎ ((params : Value) × (d ≡ grant_with params) × (e ≡ not_table request.capability))
unfolding settle
settle-refuse request grant h = ground arith
settle-refuse request (grant_with v) h = inr (v, refl, ground arith)
settle-refuse request (deny reason) h = inl (reason, refl, ground arith, ground arith)

-- Only a request that is optional is skipped.
settle-skip :
    (request : CapabilityRequest) (d : Decision) → settle request d ≡ skip → request.optional ≡ true
unfolding settle
settle-skip request grant h = ground arith
settle-skip request (grant_with v) h = ground arith
settle-skip request (deny reason) h = ground arith

module _ (setup : HostSetup) (policy : Policy) (request : CapabilityRequest) where
  decide-approve :
      {params : Value}
      → decide setup policy request ≡ approve params
      → (is_some (provider setup request.capability) ≡ true) × Grants policy request params
  unfolding decide
  decide-approve h = elim (Option-cases (provider setup request.capability)) [
    | inl e ↦ absurd (ground arith)
    | inr (p, e) ↦ (ground arith, settle-approve request (policy request) (ground arith))
  ]

  decide-refuse :
      {e : Refusal} → decide setup policy request ≡ refuse e → Refuses setup policy request e
  unfolding decide
  decide-refuse h = elim (Option-cases (provider setup request.capability)) [
    | inl e ↦ inl (e, ground arith, ground arith)
    | inr (p, e) ↦ inr (settle-refuse request (policy request) (ground arith))
  ]

  decide-skip : decide setup policy request ≡ skip → request.optional ≡ true
  unfolding decide
  decide-skip h = elim (Option-cases (provider setup request.capability)) [
    | inl e ↦ ground arith
    | inr (p, e) ↦ settle-skip request (policy request) (ground arith)
  ]

pub Answer-cases :
    (a : Answer) → ((v : Value) × (a ≡ approve v)) ⊎ (a ≡ skip) ⊎ ((e : Refusal) × (a ≡ refuse e))
Answer-cases (approve v) = inl (v, refl)
Answer-cases skip = inr (inl refl)
Answer-cases (refuse e) = inr (inr (e, refl))

Result-cases : {A : Type 0} (r : Result A) → ((a : A) × (r ≡ ok a)) ⊎ ((e : Refusal) × (r ≡ err e))
Result-cases (ok a) = inl (a, refl)
Result-cases (err e) = inr (e, refl)

module _ (m : Manifest) (signer : Text) (setup : HostSetup) (policy : Policy) where
  abbrev ask : Text → Table → Answer
  ask name declared = decide setup policy (request_of m signer name declared)

  abbrev approval : Text → Value → Approval
  approval name params = record {
    name = name;
    grant = record { plugin = m.name; name = name; params = params };
  }

  -- What one round of the loop adds.
  each-ok :
      (name : Text) (declared : Table) (rest : Map Table) {approved : List Approval}
      → approve_each m signer setup policy ((name, declared) ∷ rest) ≡ ok approved
      → ((params : Value) × (later : List Approval) × (ask name declared ≡ approve params)
          × (approve_each m signer setup policy rest ≡ ok later)
          × (approved ≡ approval name params ∷ later))
        ⊎ ((ask name declared ≡ skip) × (approve_each m signer setup policy rest ≡ ok approved))
  unfolding approve_each
  each-ok name declared rest h = elim (Answer-cases (ask name declared)) [
    | inl (params, a) ↦ elim (Result-cases (approve_each m signer setup policy rest)) [
      | inl (later, l) ↦ inl (params, later, a, l, ground arith)
      | inr (e, l) ↦ absurd (ground arith)
    ]
    | inr (inl a) ↦ inr (a, ground arith)
    | inr (inr (e, a)) ↦ absurd (ground arith)
  ]

  each-IsGranted :
      (caps : Map Table) {approved : List Approval} (a : Approval)
      → approve_each m signer setup policy caps ≡ ok approved
      → In a approved
      → (declared : Table) × In (a.name, declared) caps
        × (is_some (provider setup a.name) ≡ true)
        × Grants policy (request_of m signer a.name declared) a.grant.params
        × (a.grant.plugin ≡ m.name)
        × (a.grant.name ≡ a.name)
  unfolding approve_each
  each-IsGranted [] a h i = elim (rw (← ok_value h) at i) [ ]
    where
      ok_value : {l : List Approval} → ok [] ≡ ok l → [] ≡ l
      ok_value e = ground arith
  each-IsGranted ((name, declared) ∷ rest) a h i = elim (each-ok name declared rest h) [
    | inl (params, later, q, l, e) ↦ elim (rw e at i) [
      | here same ↦
          let request = request_of m signer name declared in
          let (o, g) = decide-approve setup policy request q in
          rw same (declared, here refl, o, g, refl, refl)
      | there j ↦
          let (d, asked, o, g, p, n) = each-IsGranted rest a l j in (d, there asked, o, g, p, n)
    ]
    | inr (q, l) ↦
        let (d, asked, o, g, p, n) = each-IsGranted rest a l i in (d, there asked, o, g, p, n)
  ]

  each_required :
      (caps : Map Table) {approved : List Approval} {name : Text} {declared : Table}
      → approve_each m signer setup policy caps ≡ ok approved
      → In (name, declared) caps
      → (split_optional declared).1 ≡ false
      → (a : Approval) × In a approved × (a.name ≡ name)
  each_required [] h i required = elim i [ ]
  each_required ((n, d) ∷ rest) {approved} {name} {declared} h i required =
      elim (each-ok n d rest h) [
        | inl (params, later, q, l, e) ↦ rw e (elim i [
          | here same ↦ (approval n params, here refl, ground arith)
          | there j ↦ let (a, k, same) = each_required rest l j required in (a, there k, same)
        ])
        | inr (q, l) ↦ elim i [
          | here same ↦
              let optional = decide-skip setup policy (request_of m signer n d) q in
              absurd (ground (arith, ap (λ (t : Text × Table). (split_optional t.1).1) same))
          | there j ↦ each_required rest l j required
        ]
      ]

  each-Refuses :
      (caps : Map Table) {e : Refusal}
      → approve_each m signer setup policy caps ≡ err e
      → (name : Text) × (declared : Table) × In (name, declared) caps
        × Refuses setup policy (request_of m signer name declared) e
  unfolding approve_each
  each-Refuses [] h = absurd (ground arith)
  each-Refuses ((name, declared) ∷ rest) h = elim (Answer-cases (ask name declared)) [
    | inl (params, q) ↦ let (n, d, i, r) = each-Refuses rest (ground arith) in (n, d, there i, r)
    | inr (inl q) ↦ let (n, d, i, r) = each-Refuses rest (ground arith) in (n, d, there i, r)
    | inr (inr (e', q)) ↦ (
      name,
      declared,
      here refl,
      decide-refuse setup policy (request_of m signer name declared) (ground arith),
    )
  ]

  -- Every approved capability was declared in the manifest, is offered by the host, and was granted
  -- by the policy with exactly the approved parameters: those of the manifest, or a table that the
  -- policy put in their place. The grant names this plugin and this capability.
  pub approve_capabilities-IsGranted :
      {approved : List Approval} (a : Approval)
      → approve_capabilities m signer setup policy ≡ ok approved
      → In a approved
      → (declared : Table) × In (a.name, declared) m.capabilities
        × (is_some (provider setup a.name) ≡ true)
        × Grants policy (request_of m signer a.name declared) a.grant.params
        × (a.grant.plugin ≡ m.name)
        × (a.grant.name ≡ a.name)
  unfolding approve_capabilities
  approve_capabilities-IsGranted = each-IsGranted m.capabilities

  -- When the approval succeeds, no capability that the manifest requires was left out.
  pub approve_capabilities_required :
      {approved : List Approval} {name : Text} {declared : Table}
      → approve_capabilities m signer setup policy ≡ ok approved
      → In (name, declared) m.capabilities
      → (split_optional declared).1 ≡ false
      → (a : Approval) × In a approved × (a.name ≡ name)
  unfolding approve_capabilities
  approve_capabilities_required = each_required m.capabilities

  -- A plugin is refused only for a declared capability that is required and not offered, that is
  -- required and denied by the policy, or that the policy grants with something that is no table.
  pub approve_capabilities-Refuses :
      {e : Refusal}
      → approve_capabilities m signer setup policy ≡ err e
      → (name : Text) × (declared : Table) × In (name, declared) m.capabilities
        × Refuses setup policy (request_of m signer name declared) e
  unfolding approve_capabilities
  approve_capabilities-Refuses = each-Refuses m.capabilities
