-- ===== src/Reaper/Idle.antt =====
-- A sweep of internal/sandboxreaper/reaper.go deletes exactly the sandboxes that were idle for the TTL.
use workspace_gateway.Base.{
  ℕ, ◌+◌, ◌≤◌, true, false, ◌&&◌, List, [], ◌∷◌, ◌≡◌, ◌≢◌, ◌⊎◌, inl, inr, ◌↔◌, refl, sym, ap, ◌∙◌,
  arith, any, Any, All, ltb, Bool-cases, text_ne, text_eq_iff, Text, codes, text_eq, Result, ok,
  err,
}
use workspace_gateway.Reaper.Sweep.{
  Candidate, Job, Fleet, too_young, jobs_are_old, is_idle, is_idle_by, is_idle_at, idle, reclaim,
  reclaim_listed, sweep_once,
}

-- The job does not run, and if it finished, then at least the TTL ago.
abbrev pub IsOld : ℕ → ℕ → Job → Type 0
IsOld now ttl j = (j.state ≢ codes "running") × ((j.finished_at ≡ 0) ⊎ (j.finished_at + ttl ≤ now))

-- The sandbox was created, at least the TTL ago; its worker answers, and all jobs it knows are old.
pub data IsReclaimable (fleet : Fleet) (now ttl : ℕ) (sb : Candidate) : Type 0 where
  reclaimable :
      (worker : Text × Text) (jobs : List Job)
      → sb.created_at ≢ 0
      → sb.created_at + ttl ≤ now
      → fleet.resolve sb.name ≡ ok worker
      → fleet.list_jobs worker ≡ ok jobs
      → All (IsOld now ttl) jobs
      → IsReclaimable fleet now ttl sb

module _ (now ttl : ℕ) where
  job-IsOld :
      (j : Job)
      → text_eq j.state (codes "running") ≡ false
      → (ltb 0 j.finished_at && ltb now (j.finished_at + ttl)) ≡ false
      → IsOld now ttl j
  job-IsOld j r f = (
    text_ne _ _ r,
    elim (Bool-cases (ltb 0 j.finished_at)) [
      | inl pos ↦ inr (ground arith)
      | inr zero_ ↦ inl (ground arith)
    ],
  )

  jobs_sound : (js : List Job) → jobs_are_old now ttl js ≡ true → All (IsOld now ttl) js
  unfolding jobs_are_old
  jobs_sound [] h = tt
  jobs_sound (j ∷ js) h = (job-IsOld j (ground arith) (ground arith), jobs_sound js (ground arith))

  job_passes :
      (j : Job)
      → IsOld now ttl j
      → (text_eq j.state (codes "running") ≡ false)
        × ((ltb 0 j.finished_at && ltb now (j.finished_at + ttl)) ≡ false)
  job_passes j (r, inl z) = (ground (arith, text_eq_iff j.state (codes "running")), ground arith)
  job_passes j (r, inr o) = (ground (arith, text_eq_iff j.state (codes "running")), ground arith)

  jobs_complete : (js : List Job) → All (IsOld now ttl) js → jobs_are_old now ttl js ≡ true
  unfolding jobs_are_old
  jobs_complete [] h = refl
  jobs_complete (j ∷ js) (h, hs) = let (r, f) = job_passes j h in rw (r, f) (jobs_complete js hs)

module _ (fleet : Fleet) (now ttl : ℕ) where
  by_sound :
      (sb : Candidate) (worker : Text × Text) (r : Result Text (List Job))
      → fleet.resolve sb.name ≡ ok worker
      → fleet.list_jobs worker ≡ r
      → too_young sb.created_at now ttl ≡ false
      → is_idle_by fleet now ttl sb.created_at r ≡ true
      → IsReclaimable fleet now ttl sb
  unfolding is_idle
  by_sound sb worker (ok jobs) er ej y h =
      reclaimable worker jobs (ground arith) (ground arith) er ej
        (jobs_sound now ttl jobs (ground arith))
  by_sound sb worker (err e) er ej y h = cc

  at_sound :
      (sb : Candidate) (r : Result Text (Text × Text))
      → fleet.resolve sb.name ≡ r
      → too_young sb.created_at now ttl ≡ false
      → is_idle_at fleet now ttl sb.created_at r ≡ true
      → IsReclaimable fleet now ttl sb
  at_sound sb (ok worker) er y h = by_sound sb worker (fleet.list_jobs worker) er refl y h
  at_sound sb (err e) er y h = cc

  idle_sound : (sb : Candidate) → idle fleet now ttl sb ≡ true → IsReclaimable fleet now ttl sb
  unfolding idle
  idle_sound sb h = at_sound sb (fleet.resolve sb.name) refl (ground arith) (ground arith)

  idle_complete : (sb : Candidate) → IsReclaimable fleet now ttl sb → idle fleet now ttl sb ≡ true
  unfolding idle is_idle
  idle_complete sb (reclaimable worker jobs c o er ej old) =
      let y : too_young sb.created_at now ttl ≡ false = ground arith in
      rw (y, er, ej, y) (jobs_complete now ttl jobs old)

  reclaim_sound :
      (n : Text) (sbs : List Candidate)
      → any (text_eq n) (reclaim fleet now ttl sbs) ≡ true
      → Any (λ sb. (n ≡ sb.name) × IsReclaimable fleet now ttl sb) sbs
  unfolding reclaim
  reclaim_sound n [] h = cc
  reclaim_sound n (sb ∷ sbs) h = elim (Bool-cases (idle fleet now ttl sb && text_eq n sb.name)) [
    | inl e ↦ inl ((text_eq_iff n sb.name).0 (ground arith), idle_sound sb (ground arith))
    | inr e ↦ inr (reclaim_sound n sbs (ground arith))
  ]

  reclaim_complete :
      (n : Text) (sbs : List Candidate)
      → Any (λ sb. (n ≡ sb.name) × IsReclaimable fleet now ttl sb) sbs
      → any (text_eq n) (reclaim fleet now ttl sbs) ≡ true
  unfolding reclaim
  reclaim_complete n [] h = absurd h
  reclaim_complete n (sb ∷ sbs) (inl (e, r)) =
      rw (idle_complete sb r, (text_eq_iff n sb.name).1 e) refl
  reclaim_complete n (sb ∷ sbs) (inr later) = ground (arith, reclaim_complete n sbs later)

-- Where the cluster lists its sandboxes, a sweep has a name deleted exactly if it is the name of a
-- listed sandbox that was created, at least the TTL ago, and whose worker answers that no job runs or
-- finished within the TTL.
pub sweep_once_lem :
    (fleet : Fleet) (now ttl : ℕ) (sbs : List Candidate) (n : Text)
    → fleet.list ≡ ok sbs
    → (any (text_eq n) (sweep_once fleet now ttl) ≡ true)
      ↔ Any (λ sb. (n ≡ sb.name) × IsReclaimable fleet now ttl sb) sbs
unfolding sweep_once
sweep_once_lem fleet now ttl sbs n e =
    let listed : sweep_once fleet now ttl ≡ reclaim fleet now ttl sbs =
      ap (reclaim_listed fleet now ttl) e in
    (
      λ h. reclaim_sound fleet now ttl n sbs (ap (any (text_eq n)) (sym listed) ∙ h),
      λ h. ap (any (text_eq n)) listed ∙ reclaim_complete fleet now ttl n sbs h,
    )
