-- ===== src/Examples/Cluster.antt =====
-- The theorems on sandboxes and services, on small clusters.
use workspace_gateway.Base.{
  trim_prefix, contains, has_prefix, ℕ, true, false, List, [], ◌∷◌, none, some, ◌≡◌, ◌≢◌, ◌↔◌, refl,
  any, Any, leb, Text, codes, text_eq, ok,
}
use workspace_gateway.Examples.Deployment.{acme, other, org, repo, cfg, store}
use workspace_gateway.Members.Ownership.{owns}
use workspace_gateway.Reaper.Idle.{IsReclaimable, sweep_once_lem}
use workspace_gateway.Reaper.Sweep.{Candidate, Fleet, sweep_once}
use workspace_gateway.Service.Access.{
  validate_sandbox_image, image_parts, behind_scheme, cut, cut_last,
}
use workspace_gateway.Service.Env.{Sandbox}
use workspace_gateway.Service.Proofs.Images.{IsImageOf, validate_sandbox_image_lem}
use workspace_gateway.Services.Readiness.{
  Poll, WaitResult, Deployment, deployment_readiness, scheduling_failure, container_state,
  pod_state, newest, waiting_text, wait_ready,
}
use workspace_gateway.Services.Rollback.{ReplicaSet, target_revision}
use workspace_gateway.Services.Target.{IsPrevious, target_revision-IsPrevious}
use workspace_gateway.Services.Waiting.{SawFailure, wait_ready_returns, wait_ready_failed}

abbrev box : Text → Text → ℕ → Sandbox
box name phase created_at = record {
  name = name;
  phase = phase;
  ready = false;
  creator = acme;
  session = codes "org:repo:dev";
  created_at = created_at;
}

-- An older sandbox that runs, and a newer one that does not.
abbrev boxes : List Sandbox
boxes = box (codes "a") (codes "Running") 1 ∷ box (codes "b") (codes "Pending") 2 ∷ []

other-owns_it : owns other org repo store ≡ true
unfolding text_eq
other-owns_it = refl

abbrev candidate : Candidate
candidate = record { name = codes "a"; created_at = 10 }

-- One sandbox, whose job finished long ago.
abbrev fleet : Fleet
fleet = record {
  list = ok (candidate ∷ []);
  resolve = λ n. ok (codes "http://a", codes "t");
  list_jobs = λ w. ok (record { state = codes "done"; finished_at = 20 } ∷ []);
}

sweep_once_example :
    (any (text_eq (codes "a")) (sweep_once fleet 200 100) ≡ true)
    ↔ Any (λ sb. (codes "a" ≡ sb.name) × IsReclaimable fleet 200 100 sb) (candidate ∷ [])
sweep_once_example = sweep_once_lem fleet 200 100 (candidate ∷ []) (codes "a") refl

abbrev replica_set : Text → ℕ → ReplicaSet
replica_set name revision = record {
  name = name;
  revision = revision;
  image = none;
  replicas = none;
  created = 0;
}

-- Three revisions, not in order, and a ReplicaSet without.
abbrev items : List ReplicaSet
items =
    replica_set (codes "c") 3
    ∷ replica_set (codes "a") 1
    ∷ replica_set (codes "x") 0
    ∷ replica_set (codes "b") 2
    ∷ []

target_revision-IsPrevious_example :
    (name : Text) × (target_revision 3 0 items ≡ ok name) × Any (IsPrevious 3 items name) items
target_revision-IsPrevious_example = target_revision-IsPrevious 3 items refl

-- A Deployment whose pod has an image that cannot be pulled, and a deadline in the third round.
abbrev stuck : Deployment
stuck = record {
  ready_replicas = 0;
  pods = ok (
      record {
        created_at = 1;
        conditions = [];
        containers =
            record {
              waiting = some (record { reason = codes "ErrImagePull"; message = [] });
              terminated = none;
            }
            ∷ [];
      }
      ∷ []);
}

abbrev polls : ℕ → Poll
polls i = record { deployment = ok stuck; expired = leb 2 i; again = ok []; cancelled = none }

wait_ready_returns_example : wait_ready 3 polls 0 ≢ none
wait_ready_returns_example = wait_ready_returns 2 polls 0 refl

abbrev pull_failed : WaitResult
pull_failed = record { ready = false; failed = true; reason = codes "ErrImagePull" }

fails_at_once : wait_ready 3 polls 0 ≡ some (ok pull_failed)
unfolding wait_ready deployment_readiness scheduling_failure container_state pod_state newest
    waiting_text text_eq
fails_at_once = refl

wait_ready_failed_example : (j : ℕ) × SawFailure (polls j)
wait_ready_failed_example = wait_ready_failed 3 polls 0 pull_failed fails_at_once refl

abbrev image : Text
image = codes "reg.io/ws/py:3"

image_is_accepted : validate_sandbox_image cfg image ≡ ok tt
unfolding validate_sandbox_image image_parts behind_scheme cut cut_last text_eq has_prefix
    trim_prefix contains
image_is_accepted = refl

validate_sandbox_image_example : IsImageOf image cfg.sandbox_image_registry_host cfg.sandbox_org
validate_sandbox_image_example = validate_sandbox_image_lem cfg image refl refl image_is_accepted
