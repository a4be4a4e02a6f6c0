-- ===== src/Reaper/Sweep.antt =====
-- internal/sandboxreaper/reaper.go. Times and the idle TTL are in milliseconds, and `now - t < ttl` is
-- written `now < t + ttl`.
use workspace_gateway.Base.{
  ℕ, ◌+◌, Bool, true, false, ◌&&◌, ◌||◌, List, [], ◌∷◌, if◌then◌else◌, ltb, ◌==◌, Text, codes,
  text_eq, Result, ok, err,
}

-- The fields of `sandboxmgr.Sandbox` that are read.
pub record Candidate : Type 0 where
  pub name : Text
  -- 0 if unknown.
  pub created_at : ℕ

-- The fields of `workerclient.Job` that are read.
pub record Job : Type 0 where
  pub state : Text
  -- 0 or less while the job runs, written 0.
  pub finished_at : ℕ

-- What the cluster and the sandboxes' workers answer.
pub record Fleet : Type 0 where
  pub list : Result Text (List Candidate)
  -- The URL and the token of a worker.
  pub resolve : Text → Result Text (Text × Text)
  pub list_jobs : Text × Text → Result Text (List Job)

abbrev pub too_young : ℕ → ℕ → ℕ → Bool
too_young created_at now ttl = created_at == 0 || ltb now (created_at + ttl)

-- The loop of `isIdle`.
unfoldable pub jobs_are_old : ℕ → ℕ → List Job → Bool
jobs_are_old now ttl [] = true
jobs_are_old now ttl (j ∷ js) =
    let rest = jobs_are_old now ttl js in
    if text_eq j.state (codes "running")
    then false
    else if ltb 0 j.finished_at && ltb now (j.finished_at + ttl)
    then false
    else rest

unfoldable pub is_idle : ℕ → ℕ → ℕ → List Job → Bool
unfolding jobs_are_old
is_idle created_at now ttl jobs =
    if too_young created_at now ttl then false else jobs_are_old now ttl jobs

module _ (fleet : Fleet) (now ttl : ℕ) where
  -- A worker that does not answer is not idle.
  abbrev pub is_idle_by : ℕ → Result Text (List Job) → Bool
  is_idle_by created_at (ok jobs) = is_idle created_at now ttl jobs
  is_idle_by created_at (err e) = false

  abbrev pub is_idle_at : ℕ → Result Text (Text × Text) → Bool
  is_idle_at created_at (ok worker) = is_idle_by created_at (fleet.list_jobs worker)
  is_idle_at created_at (err e) = false

  unfoldable pub idle : Candidate → Bool
  unfolding is_idle
  idle sb =
      if too_young sb.created_at now ttl
      then false
      else is_idle_at sb.created_at (fleet.resolve sb.name)

  -- The sandboxes that the loop of `SweepOnce` asks the cluster to delete; whether it does so changes
  -- nothing for the next.
  unfoldable pub reclaim : List Candidate → List Text
  unfolding idle
  reclaim [] = []
  reclaim (sb ∷ sbs) = let rest = reclaim sbs in if idle sb then sb.name ∷ rest else rest

  abbrev pub reclaim_listed : Result Text (List Candidate) → List Text
  reclaim_listed (ok sbs) = reclaim sbs
  reclaim_listed (err e) = []

  unfoldable pub sweep_once : List Text
  unfolding reclaim
  sweep_once = reclaim_listed fleet.list
