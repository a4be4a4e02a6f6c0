-- ===== src/Services/Rollback.antt =====
-- internal/servicesmgr/rollback.go: the history of a service's Deployment, and what a rollback goes back
-- to. The Kubernetes API is a parameter.
use workspace_gateway.Base.{
  ℕ, Bool, List, [], ◌∷◌, Option, none, some, if◌then◌else◌, keep, map, not, ltb, ◌==◌, Text,
  Result, ok, err,
}
use workspace_gateway.Base.Sorting.{sort}

-- What is read of a ReplicaSet: its name, its revision by `revisionOf`, 0 where the annotation is
-- missing or no number, the image of its first container if any, and its replicas if set.
pub record ReplicaSet : Type 0 where
  pub name : Text
  pub revision : ℕ
  pub image : Option Text
  pub replicas : Option ℕ
  pub created : ℕ

-- `Revision`
pub record Revision : Type 0 where
  pub revision : ℕ
  pub image : Text
  pub replicas : ℕ
  pub created : ℕ
  pub current : Bool

pub data RollbackError : Type 0 where
  no_history no_previous_revision : RollbackError
  revision_not_found : ℕ → RollbackError
  api_failed : Text → RollbackError

abbrev or_empty : Option Text → Text
or_empty none = []
or_empty (some s) = s

abbrev or_zero : Option ℕ → ℕ
or_zero none = 0
or_zero (some n) = n

abbrev pub of_replica_set : ℕ → ReplicaSet → Revision
of_replica_set cur rs = record {
  revision = rs.revision;
  image = or_empty rs.image;
  replicas = or_zero rs.replicas;
  created = rs.created;
  current = rs.revision == cur;
}

-- The loop of `Revisions`, and the sort.
unfoldable pub revisions_of : ℕ → List ReplicaSet → List Revision
revisions_of cur items =
    sort (λ a b. ltb a.revision b.revision)
      (map (of_replica_set cur) (keep (λ rs. not (rs.revision == 0)) items))

-- The first ReplicaSet with the revision.
unfoldable pub find_revision : ℕ → List ReplicaSet → Option Text
find_revision n [] = none
find_revision n (r ∷ rs) =
    let rest = find_revision n rs in if r.revision == n then some r.name else rest

-- The loop from the end on: the last that is older than `cur`.
unfoldable pub last_below : ℕ → List ReplicaSet → Option Text
last_below cur [] = none
last_below cur (r ∷ rs) = elim (last_below cur rs) [
  | some name ↦ some name
  | none ↦ if ltb r.revision cur then some r.name else none
]

abbrev pub found_or : RollbackError → Option Text → Result RollbackError Text
found_or e none = err e
found_or e (some name) = ok name

-- The branches behind the sort; `n ≡ 0` is `revision <= 0`.
unfoldable pub pick_target : ℕ → ℕ → List ReplicaSet → Result RollbackError Text
unfolding find_revision last_below
pick_target cur n [] = err no_history
pick_target cur n (r ∷ rs) =
    if ltb 0 n
    then found_or (revision_not_found n) (find_revision n (r ∷ rs))
    else found_or no_previous_revision (last_below cur (r ∷ rs))

-- `targetRevision`, of the ReplicaSets that the API lists.
unfoldable pub target_revision : ℕ → ℕ → List ReplicaSet → Result RollbackError Text
unfolding pick_target
target_revision cur n items =
    pick_target cur n
      (sort (λ a b. ltb a.revision b.revision) (keep (λ rs. not (rs.revision == 0)) items))
