-- ===== src/Services/Waiting.antt =====
-- What `WaitReady` of internal/servicesmgr/wait.go returns, and that it returns.
use workspace_gateway.Base.{
  ℕ, zero, suc, ◌+◌, Bool, true, false, ◌||◌, List, [], ◌∷◌, Option, none, some, ◌≡◌, ◌≢◌, ◌⊎◌, inl,
  inr, refl, sym, ap, ◌∙◌, arith, if◌then◌else◌, any, Any, ltb, Bool-cases, Option-cases, Text,
  Result, ok, err,
}
use workspace_gateway.Services.Readiness.{
  WaitResult, Notice, Container, Condition, Pod, Deployment, is_deterministic, newest,
  is_unschedulable, scheduling_failure, of_waiting, of_terminated, or_else, container_state,
  or_waiting, pod_state, pods_state, deployment_readiness, Poll, round, wait_ready,
}

-- The loop returns in the round in which the deadline has passed, if not before.
round_expired :
    (p : Poll) (d : Result Text Deployment) (rest : Option (Result Text WaitResult))
    → p.expired ≡ true
    → round p d rest ≢ none
round_expired p (err e) rest x h = cc
round_expired p (ok dep) rest x h = ground (arith, x, h)

round_passes :
    (p : Poll) (d : Result Text Deployment) (rest : Option (Result Text WaitResult))
    → rest ≢ none
    → round p d rest ≢ none
round_passes p (err e) rest x h = cc
round_passes p (ok dep) rest x h = elim (Option-cases p.cancelled) [
  | inl e ↦ x (ground (arith, e, h))
  | inr (t, e) ↦ ground (arith, e, h)
]

-- WaitReady returns: if the deadline has passed in the `k`-th round from where it stands, `k + 1`
-- rounds are enough.
pub wait_ready_returns :
    (k : ℕ) (polls : ℕ → Poll) (i : ℕ)
    → (polls (i + k)).expired ≡ true
    → wait_ready (suc k) polls i ≢ none
unfolding wait_ready
wait_ready_returns zero polls i h =
    let e : i + 0 ≡ i = omega arith in
    round_expired (polls i) (polls i).deployment _ (sym (ap (λ n. (polls n).expired) e) ∙ h)
wait_ready_returns (suc k) polls i h =
    let e : i + suc k ≡ i + 1 + k = omega arith in
    round_passes (polls i) (polls i).deployment _
      (wait_ready_returns k polls (i + 1) (sym (ap (λ n. (polls n).expired) e) ∙ h))

-- The container waits for a reason that does not resolve.
abbrev pub is_stuck : Option Notice → Bool
is_stuck none = false
is_stuck (some n) = is_deterministic n.reason

-- The pod cannot be scheduled, or a container of it is stuck.
abbrev pub is_hopeless : Pod → Bool
is_hopeless pod =
    any is_unschedulable pod.conditions || any (λ c. is_stuck c.waiting) pod.containers

-- The result, if any, is no failure.
abbrev fails : Option WaitResult → Bool
fails none = false
fails (some r) = r.failed

scheduling_fails :
    (cs : List Condition) → fails (scheduling_failure cs) ≡ true → any is_unschedulable cs ≡ true
unfolding scheduling_failure
scheduling_fails [] h = h
scheduling_fails (c ∷ cs) h = ground (arith, scheduling_fails cs)

fails_cases :
    (a b : Option WaitResult) → fails (or_else a b) ≡ true → (fails a ≡ true) ⊎ (fails b ≡ true)
fails_cases (some r) b h = inl h
fails_cases none b h = inr h

waiting_fails : (n : Option Notice) → fails (of_waiting n) ≡ true → is_stuck n ≡ true
waiting_fails none h = h
waiting_fails (some n) h = ground (arith, h)

terminated_fails : (n : Option Notice) → fails (of_terminated n) ≡ false
terminated_fails none = refl
terminated_fails (some n) = ground arith

containers_fail :
    (cs : List Container)
    → fails (container_state cs) ≡ true
    → any (λ c. is_stuck c.waiting) cs ≡ true
unfolding container_state
containers_fail [] h = h
containers_fail (c ∷ cs) h = elim (fails_cases (of_waiting c.waiting) _ h) [
  | inl w ↦ ground (arith, waiting_fails c.waiting w)
  | inr t ↦ elim (fails_cases (of_terminated c.terminated) _ t) [
    | inl w ↦ absurd (ground (arith, terminated_fails c.terminated, w))
    | inr w ↦ ground (arith, containers_fail cs w)
  ]
]

or_waiting-fails : (o : Option WaitResult) → (or_waiting o).failed ≡ true → fails o ≡ true
or_waiting-fails none h = h
or_waiting-fails (some r) h = h

pod_fails : (pod : Pod) → (pod_state pod).failed ≡ true → is_hopeless pod ≡ true
unfolding pod_state
pod_fails pod h =
    elim (fails_cases (scheduling_failure pod.conditions) (container_state pod.containers) (
      or_waiting-fails
        (or_else (scheduling_failure pod.conditions) (container_state pod.containers)) h)) [
          | inl s ↦ ground (arith, scheduling_fails pod.conditions s)
          | inr c ↦ ground (arith, containers_fail pod.containers c)
        ]

either_is_member :
    (b : Bool) (p q x y : Pod) (ps : List Pod)
    → Any (λ z. z ≡ x) (q ∷ ps)
    → Any (λ z. z ≡ y) (p ∷ ps)
    → Any (λ z. z ≡ (if b then x else y)) (p ∷ q ∷ ps)
either_is_member true p q x y ps hx hy = inr hx
either_is_member false p q x y ps hx (inl h) = inl h
either_is_member false p q x y ps hx (inr h) = inr (inr h)

newest_is_member : (p : Pod) (ps : List Pod) → Any (λ x. x ≡ newest p ps) (p ∷ ps)
unfolding newest
newest_is_member p [] = inl refl
newest_is_member p (q ∷ ps) =
    either_is_member (ltb p.created_at q.created_at) p q _ _ ps (newest_is_member q ps)
      (newest_is_member p ps)

-- Some of the pods is hopeless.
abbrev pub HasHopeless : Result Text (List Pod) → Type 0
HasHopeless r =
    (pods : List Pod) × (pod : Pod) × (r ≡ ok pods)
    × Any (λ x. x ≡ pod) pods
    × (is_hopeless pod ≡ true)

pods_fail : (r : Result Text (List Pod)) → (pods_state r).failed ≡ true → HasHopeless r
pods_fail (err e) h = cc
pods_fail (ok []) h = cc
pods_fail (ok (p ∷ ps)) h =
    (p ∷ ps, newest p ps, refl, newest_is_member p ps, pod_fails (newest p ps) h)

deployment_fails : (d : Deployment) → (deployment_readiness d).failed ≡ true → HasHopeless d.pods
unfolding deployment_readiness
deployment_fails d h = pods_fail d.pods (ground arith)

-- What a round saw that makes waiting pointless.
abbrev pub SawFailure : Poll → Type 0
SawFailure p = (d : Deployment) × (p.deployment ≡ ok d) × (HasHopeless d.pods ⊎ HasHopeless p.again)

round_fails :
    (p : Poll) (d : Result Text Deployment) (rest : Option (Result Text WaitResult))
    (r : WaitResult)
    → p.deployment ≡ d
    → round p d rest ≡ some (ok r)
    → r.failed ≡ true
    → SawFailure p ⊎ (rest ≡ some (ok r))
round_fails p (err e) rest r ep h f = cc
round_fails p (ok dep) rest r ep h f = elim (Bool-cases (deployment_readiness dep).ready) [
  | inl y ↦ absurd (ground (arith, y, h, f))
  | inr y ↦ elim (Bool-cases (deployment_readiness dep).failed) [
    | inl g ↦ inl (dep, ep, inl (deployment_fails dep g))
    | inr g ↦ elim (Bool-cases p.expired) [
      | inl x ↦
          let e : deployment_readiness (record dep { pods = p.again }) ≡ r =
            ground (arith, y, g, x, h) in
          inl (dep, ep, inr (deployment_fails (record dep { pods = p.again }) (rw e f)))
      | inr x ↦ inr (ground (arith, y, g, x, h))
    ]
  ]
]

-- WaitReady reports a failure only if in some round a pod of the Deployment, as that round saw its
-- pods, could not be scheduled, or had a container that waited for one of the reasons that do not
-- resolve.
pub wait_ready_failed :
    (fuel : ℕ) (polls : ℕ → Poll) (i : ℕ) (r : WaitResult)
    → wait_ready fuel polls i ≡ some (ok r)
    → r.failed ≡ true
    → (j : ℕ) × SawFailure (polls j)
unfolding wait_ready
wait_ready_failed zero polls i r h f = cc
wait_ready_failed (suc fuel) polls i r h f =
    elim (round_fails (polls i) (polls i).deployment _ r refl h f) [
      | inl s ↦ (i, s)
      | inr later ↦ wait_ready_failed fuel polls (i + 1) r later f
    ]
