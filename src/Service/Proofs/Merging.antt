-- ===== src/Service/Proofs/Merging.antt =====
-- Who may merge a merge request: `MergeMR` and `CloseMR` of internal/workspacesvc/service.go.
use workspace_gateway.Base.{
  ℕ, true, List, [], Option, none, some, ◌≡◌, ◌⊎◌, refl, sym, ◌∙◌, arith, if◌then◌else◌, null, any,
  All, Text, text_eq_iff, Result, ok,
}
use workspace_gateway.Base.Exec.{
  ◌>>=◌, ◌>>◌, pure, Keeps, Keeps-pure, Keeps-if, Keeps-bind, Keeps-require, Keeps-inline,
}
use workspace_gateway.Members.Store.{Store, is_repo, owns_repo, delete_mr_submission}
use workspace_gateway.Roles.Names.{session_name}
use workspace_gateway.Service.Env.{
  Env, Config, Headers, World, Handler, not_found, permission_denied, failed_precondition,
  ForgeError, MrInfo, Call, statement, get_identity, get_mr, merge_mr, close_mr, delete_branch, ask,
  statement_on, on_store,
}
use workspace_gateway.Service.Proofs.Rules.{
  Keeps-ask, Keeps-bind-ask, Keeps-bind-fail_with, Keeps-fail_if, Keeps-statement,
  Keeps-bind-resolve, Keeps-tenant_of, Resolves, Steady, Steady-ask, Keeps-bind-owns,
}
use workspace_gateway.Service.Requests.{
  ensure_visible, may_target, merge_request, close_request, mr_error, is_mr_branch,
}
use workspace_gateway.Service.Tenant.{resolve_tenant, tenant_of}

module _ (env : Env) (cfg : Config) (hdr : Headers) (org repo : Text) (index : ℕ)
    (start : Store) where
  -- The caller's tenant owns the repository.
  abbrev pub Visible : Type 0
  Visible =
      (t : Text) × Resolves env cfg hdr t × (any (is_repo t org repo) start.repo_owners ≡ true)

  -- Forgejo answered with this merge request, and the caller may decide on its base branch.
  abbrev pub Decides : MrInfo → Type 0
  Decides mr =
      ((h : List Call) × (env.mr_found h org repo index ≡ ok mr))
      × ((null hdr.session_name ≡ true) ⊎ (hdr.session_name ≡ session_name org repo mr.base))

  -- The calls that merging or closing this request may make.
  pub data IsGranted : Call → Type 0 where
    stated : IsGranted statement
    identified : IsGranted get_identity
    looked_up : Visible → IsGranted (get_mr org repo index)
    merged :
        (mr : MrInfo)
        → Visible
        → Decides mr
        → mr.mergeable ≡ true
        → IsGranted (merge_mr org repo index)
    closed : (mr : MrInfo) → Visible → Decides mr → IsGranted (close_mr org repo index)
    dropped :
        (mr : MrInfo)
        → Visible
        → Decides mr
        → is_mr_branch mr.head ≡ true
        → IsGranted (delete_branch org repo mr.head)

  abbrev Granted : World → Type 0
  Granted = Steady start IsGranted

  visible-Keeps :
      {B : Type 0} (k : Handler B)
      → (Visible → Keeps Granted k)
      → Keeps Granted (ensure_visible env cfg hdr org repo >> k)
  unfolding ensure_visible
  visible-Keeps k h = Keeps-inline (resolve_tenant env cfg hdr) _ _ (
      Keeps-bind-resolve env cfg hdr (Steady-ask start IsGranted get_identity identified) _ λ t rt.
        Keeps-inline (on_store env (λ f. owns_repo f t org repo)) _ _ (
          Keeps-bind-owns start IsGranted env t org repo _ stated
            λ b e. Keeps-require b not_found k λ p. h (t, rt, sym e ∙ p)))

  may_target_cases :
      (base : Text)
      → may_target env cfg hdr org repo base ≡ true
      → (null hdr.session_name ≡ true) ⊎ (hdr.session_name ≡ session_name org repo base)
  may_target_cases base h =
      ground (arith, text_eq_iff hdr.session_name (session_name org repo base))

  kept :
      (t : Text) (f : Option Text) (w : World)
      → Granted w
      → Granted (record w { store = (delete_mr_submission f t org repo index w.store).1 })
  unfolding delete_mr_submission
  kept t none w p = p
  kept t (some e) w p = p

  -- The record of the submission is dropped, which owns no repository.
  dropped-Keeps : Keeps Granted (
      tenant_of env cfg hdr >>= λ tenant.
      statement_on env (λ f. delete_mr_submission f tenant org repo index) >>= λ r. pure true)
  dropped-Keeps =
      Keeps-bind _ _
        (Keeps-tenant_of env cfg hdr (Steady-ask start IsGranted get_identity identified))
        λ t.
          Keeps-bind _ _
            (Keeps-statement env (λ f. delete_mr_submission f t org repo index)
              λ f w p.
                Steady-ask start IsGranted statement stated
                  (record w { store = (delete_mr_submission f t org repo index w.store).1 })
                  (kept t f w p))
            λ r. Keeps-pure true

  merge_request-Keeps : Keeps Granted (merge_request env cfg hdr org repo index)
  unfolding merge_request
  merge_request-Keeps = visible-Keeps _ λ v.
      Keeps-bind-ask {A = Result ForgeError MrInfo} (get_mr org repo index) _ _
        (Steady-ask start IsGranted _ (looked_up v))
        λ h. Keeps-bind-fail_with mr_error (env.mr_found h org repo index) _ λ mr found.
          Keeps-require (may_target env cfg hdr org repo mr.base) permission_denied _ λ may.
            Keeps-require mr.mergeable failed_precondition _ λ able.
              let d : Decides mr = ((h, found), may_target_cases mr.base may) in
              Keeps-bind _ _
                (Keeps-ask (merge_mr org repo index) _
                  (Steady-ask start IsGranted _ (merged mr v d able)))
                λ e. Keeps-bind _ _ (Keeps-fail_if mr_error e) λ _. dropped-Keeps

  deletes_head-Keeps :
      (mr : MrInfo)
      → Visible
      → Decides mr
      → Keeps Granted (
          if is_mr_branch mr.head
          then (ask (delete_branch org repo mr.head) (λ h. env.branch_deleted h org repo mr.head)
              >>= λ r. pure tt)
          else pure tt)
  deletes_head-Keeps mr v d =
      Keeps-if (is_mr_branch mr.head) _ _
        (λ e.
          Keeps-bind _ _
            (Keeps-ask (delete_branch org repo mr.head) (λ h. env.branch_deleted h org repo mr.head)
              (Steady-ask start IsGranted _ (dropped mr v d e)))
            λ r. Keeps-pure tt)
        (λ _. Keeps-pure tt)

  close_request-Keeps : Keeps Granted (close_request env cfg hdr org repo index)
  unfolding close_request
  close_request-Keeps = visible-Keeps _ λ v.
      Keeps-bind-ask {A = Result ForgeError MrInfo} (get_mr org repo index) _ _
        (Steady-ask start IsGranted _ (looked_up v))
        λ h. Keeps-bind-fail_with mr_error (env.mr_found h org repo index) _ λ mr found.
          Keeps-require (may_target env cfg hdr org repo mr.base) permission_denied _ λ may.
            let d : Decides mr = ((h, found), may_target_cases mr.base may) in
            Keeps-bind _ _
              (Keeps-ask (close_mr org repo index) _ (Steady-ask start IsGranted _ (closed mr v d)))
              λ e.
                Keeps-bind _ _ (Keeps-fail_if mr_error e)
                  λ _. Keeps-bind _ _ (deletes_head-Keeps mr v d) λ _. dropped-Keeps

-- Whatever the agent, Forgejo and the database answer, `MergeMR` merges only the request that it is given,
-- and only where the caller's tenant owns the repository, Forgejo called the request mergeable, and the
-- caller is no session or the session of the request's base branch. It leaves the tables of the owners of
-- repositories and of organisations as they are, and each other call is an SQL statement, the identity, the lookup of the request by its owner, or one that
-- `CloseMR` may make.
pub merge_request-IsGranted :
    (env : Env) (cfg : Config) (hdr : Headers) (org repo : Text) (index : ℕ) (s : Store)
    → let w = (merge_request env cfg hdr org repo index (record { store = s; calls = [] })).1 in
      (w.store.repo_owners ≡ s.repo_owners)
      × (w.store.org_owners ≡ s.org_owners)
      × All (IsGranted env cfg hdr org repo index s) w.calls
merge_request-IsGranted env cfg hdr org repo index s =
    (merge_request-Keeps env cfg hdr org repo index s).at (record { store = s; calls = [] })
      (refl, refl, tt)

-- Whatever the agent, Forgejo and the database answer, `CloseMR` closes only the request that it is given,
-- and only where the caller's tenant owns the repository and the caller is no session or the session of
-- the request's base branch. Of the branches it deletes at most the head of the request, and that only if
-- its name begins with `mr/`. It leaves the tables of the owners of repositories and of
-- organisations as they are.
pub close_request-IsGranted :
    (env : Env) (cfg : Config) (hdr : Headers) (org repo : Text) (index : ℕ) (s : Store)
    → let w = (close_request env cfg hdr org repo index (record { store = s; calls = [] })).1 in
      (w.store.repo_owners ≡ s.repo_owners)
      × (w.store.org_owners ≡ s.org_owners)
      × All (IsGranted env cfg hdr org repo index s) w.calls
close_request-IsGranted env cfg hdr org repo index s =
    (close_request-Keeps env cfg hdr org repo index s).at (record { store = s; calls = [] })
      (refl, refl, tt)
