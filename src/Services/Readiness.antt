-- ===== src/Services/Readiness.antt =====
-- internal/servicesmgr/wait.go: waiting until a Deployment is ready. The Kubernetes API and the clock are
-- parameters: what each round of the loop sees is a `Poll`.
use workspace_gateway.Base.{
  ℕ, zero, suc, ◌+◌, Bool, true, false, ◌&&◌, List, [], ◌∷◌, ◌++◌, Option, none, some,
  if◌then◌else◌, not, any, ltb, Text, codes, text_eq, has_prefix, Result, ok, err, null,
}

-- `WaitResult`
pub record WaitResult : Type 0 where
  pub ready : Bool
  pub failed : Bool
  pub reason : Text

abbrev pub still_waiting : WaitResult
still_waiting = record { ready = false; failed = false; reason = [] }

-- A reason and a message, as of a waiting or terminated container.
pub record Notice : Type 0 where
  pub reason : Text
  pub message : Text

pub record Container : Type 0 where
  pub waiting : Option Notice
  pub terminated : Option Notice

-- Whether a condition is `PodScheduled`, whether it is `False`, and why.
pub record Condition : Type 0 where
  pub is_pod_scheduled : Bool
  pub is_false : Bool
  pub notice : Notice

pub record Pod : Type 0 where
  pub created_at : ℕ
  pub conditions : List Condition
  pub containers : List Container

-- The answers about a Deployment: its ready replicas, and its pods, or the error of the selector or of
-- the list.
pub record Deployment : Type 0 where
  pub ready_replicas : ℕ
  pub pods : Result Text (List Pod)

abbrev pub deterministic_failure_reasons : List Text
deterministic_failure_reasons =
    codes "RunContainerError"
    ∷ codes "CreateContainerError"
    ∷ codes "CreateContainerConfigError"
    ∷ codes "InvalidImageName"
    ∷ codes "ErrImagePull"
    ∷ codes "ImagePullBackOff"
    ∷ codes "ImageInspectError"
    ∷ codes "ErrImageNeverPull"
    ∷ []

abbrev pub is_deterministic : Text → Bool
is_deterministic r = any (text_eq r) deterministic_failure_reasons

unfoldable pub waiting_text : Notice → Text
waiting_text n =
    if null n.message
    then n.reason
    else if has_prefix n.message n.reason
    then n.message
    else n.reason ++ (codes ": " ++ n.message)

-- The newest pod, the first of several.
unfoldable pub newest : Pod → List Pod → Pod
newest pod [] = pod
newest pod (p ∷ ps) =
    let take_it = newest p ps in
    let leave_it = newest pod ps in if ltb pod.created_at p.created_at then take_it else leave_it

abbrev pub is_unschedulable : Condition → Bool
is_unschedulable c =
    c.is_pod_scheduled && (c.is_false && text_eq c.notice.reason (codes "Unschedulable"))

unfoldable pub scheduling_failure : List Condition → Option WaitResult
scheduling_failure [] = none
scheduling_failure (c ∷ cs) =
    let rest = scheduling_failure cs in
    if is_unschedulable c
    then some (record {
      ready = false;
      failed = true;
      reason = codes "FailedScheduling: " ++ c.notice.message;
    })
    else rest

abbrev pub of_waiting : Option Notice → Option WaitResult
of_waiting none = none
of_waiting (some n) =
    if is_deterministic n.reason
    then some (record { ready = false; failed = true; reason = waiting_text n })
    else if not (null n.reason)
    then some (record { ready = false; failed = false; reason = waiting_text n })
    else none

abbrev pub of_terminated : Option Notice → Option WaitResult
of_terminated none = none
of_terminated (some n) =
    if not (null n.reason) && not (text_eq n.reason (codes "Completed"))
    then some (record { ready = false; failed = false; reason = waiting_text n })
    else none

abbrev pub or_else : {A : Type 0} → Option A → Option A → Option A
or_else (some a) o = some a
or_else none o = o

-- The loop over the container statuses.
unfoldable pub container_state : List Container → Option WaitResult
unfolding waiting_text
container_state [] = none
container_state (c ∷ cs) =
    or_else (of_waiting c.waiting) (or_else (of_terminated c.terminated) (container_state cs))

abbrev pub or_waiting : Option WaitResult → WaitResult
or_waiting (some r) = r
or_waiting none = still_waiting

unfoldable pub pod_state : Pod → WaitResult
unfolding scheduling_failure container_state
pod_state pod =
    or_waiting (or_else (scheduling_failure pod.conditions) (container_state pod.containers))

abbrev pub pods_state : Result Text (List Pod) → WaitResult
pods_state (err e) = still_waiting
pods_state (ok []) = still_waiting
pods_state (ok (p ∷ ps)) = pod_state (newest p ps)

-- `deploymentReadiness`, whose first result is the field `ready` of the second.
unfoldable pub deployment_readiness : Deployment → WaitResult
unfolding newest pod_state
deployment_readiness dep =
    if ltb 0 dep.ready_replicas
    then record { ready = true; failed = false; reason = [] }
    else pods_state dep.pods

-- What one round sees: the Deployment, or an error; whether the deadline has passed, and then the
-- Deployment's pods once more; and whether the context is done before the next round.
pub record Poll : Type 0 where
  pub deployment : Result Text Deployment
  pub expired : Bool
  pub again : Result Text (List Pod)
  pub cancelled : Option Text

abbrev pub next_round :
    Option Text → Option (Result Text WaitResult) → Option (Result Text WaitResult)
next_round (some e) rest = some (err e)
next_round none rest = rest

-- One round, with what the rest of the loop returns.
abbrev pub round :
    Poll
    → Result Text Deployment
    → Option (Result Text WaitResult)
    → Option (Result Text WaitResult)
round p (err e) rest = some (err e)
round p (ok dep) rest =
    let res = deployment_readiness dep in
    if res.ready
    then some (ok (record { ready = true; failed = false; reason = [] }))
    else if res.failed
    then some (ok res)
    else if p.expired
    then some (ok (deployment_readiness (record dep { pods = p.again })))
    else next_round p.cancelled rest

-- The loop of `WaitReady` from its round `i` on, for at most `fuel` rounds; `none` if it has not
-- returned by then.
unfoldable pub wait_ready : ℕ → (ℕ → Poll) → ℕ → Option (Result Text WaitResult)
unfolding deployment_readiness
wait_ready zero polls i = none
wait_ready (suc fuel) polls i =
    let rest = wait_ready fuel polls (i + 1) in round (polls i) (polls i).deployment rest
