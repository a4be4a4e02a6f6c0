-- ===== src/Examples/Requests.antt =====
-- The theorems on the handlers, on the deployment of Examples/Deployment.
use workspace_gateway.Base.{
  true, [], ◌≡◌, refl, sym, All, null, ◌∙◌, ap, arith, Text, codes, text_eq, text_eq_iff, contains,
  has_prefix, has_suffix,
}
use workspace_gateway.Examples.Deployment.{
  acme, other, org, repo, env, cfg, hdr, store, world, caller_is_acme,
}
use workspace_gateway.Members.Ownership.{owns}
use workspace_gateway.Roles.Names.{valid_component}
use workspace_gateway.Service.Claims.{claim_org, claim_repo}
use workspace_gateway.Service.Proofs.MainBranch.{IsRemoval, delete_branch_session_calls}
use workspace_gateway.Service.Proofs.Merging.{
  IsGranted, merge_request-IsGranted, close_request-IsGranted,
}
use workspace_gateway.Service.Proofs.Orgs.{
  IsSingle, has_org, claim_org-IsSingle, claim_repo_shares_org,
}
use workspace_gateway.Service.Proofs.Presets.{
  Creates, NoFork, NoCreation, IsBranchSession, IsFork, ensure_branch_session-Creates,
  fork_branch_session-Creates,
}
use workspace_gateway.Service.Proofs.Sharing.{ensure_repository_shares}
use workspace_gateway.Service.Removal.{delete_branch_session}
use workspace_gateway.Service.Requests.{merge_request, close_request, ensure_repository}
use workspace_gateway.Service.Sessions.{ensure_branch_session, fork_branch_session, or_main}

abbrev dev : Text
dev = codes "dev"

merge_request-IsGranted_example :
    let w = (merge_request env cfg hdr org repo 1 world).1 in
    (w.store.repo_owners ≡ store.repo_owners)
    × (w.store.org_owners ≡ store.org_owners)
    × All (IsGranted env cfg hdr org repo 1 store) w.calls
merge_request-IsGranted_example = merge_request-IsGranted env cfg hdr org repo 1 store

close_request-IsGranted_example :
    let w = (close_request env cfg hdr org repo 1 world).1 in
    (w.store.repo_owners ≡ store.repo_owners)
    × (w.store.org_owners ≡ store.org_owners)
    × All (IsGranted env cfg hdr org repo 1 store) w.calls
close_request-IsGranted_example = close_request-IsGranted env cfg hdr org repo 1 store

ensure_branch_session-Creates_example :
    All
      (Creates (IsBranchSession org repo (or_main dev)) NoFork)
      (ensure_branch_session env cfg hdr org repo dev [] [] world).1.calls
ensure_branch_session-Creates_example =
    ensure_branch_session-Creates env cfg hdr org repo dev [] [] store

fork_branch_session-Creates_example :
    All
      (Creates NoCreation (IsFork hdr (codes "org:repo:main") dev))
      (fork_branch_session env cfg hdr (codes "org:repo:main") dev [] world).1.calls
fork_branch_session-Creates_example =
    fork_branch_session-Creates env cfg hdr (codes "org:repo:main") dev [] store

delete_branch_session_calls_example :
    let w = (delete_branch_session env cfg hdr (codes "org:repo:dev") world).1 in
    (w.store.repo_owners ≡ store.repo_owners)
    × (w.store.org_owners ≡ store.org_owners)
    × All (IsRemoval env cfg hdr store (codes "org:repo:dev")) w.calls
delete_branch_session_calls_example =
    delete_branch_session_calls env cfg hdr (codes "org:repo:dev") store

-- The new repository of `acme`.
abbrev fresh : Text
fresh = codes "new"

org_is_component : valid_component org ≡ true
unfolding valid_component contains has_prefix has_suffix
org_is_component = refl

repo_is_component : valid_component repo ≡ true
unfolding valid_component contains has_prefix has_suffix
repo_is_component = refl

other-owns : owns other org repo store ≡ true
unfolding text_eq
other-owns = refl

ensure_repository_shares_example :
    let w = (ensure_repository env cfg hdr org repo world).1 in
    (owns acme org repo w.store ≡ true) × (owns other org repo w.store ≡ true)
ensure_repository_shares_example =
    ensure_repository_shares env cfg hdr org repo acme other true store caller_is_acme
      org_is_component repo_is_component (λ h. refl) (λ h. refl) other-owns

other-has_org : has_org other org store ≡ true
unfolding text_eq
other-has_org = refl

claim_repo_shares_org_example :
    let s = (claim_repo env acme org repo world).1.store in
    (has_org acme org s ≡ true) × (has_org other org s ≡ true)
claim_repo_shares_org_example =
    claim_repo_shares_org env acme other org repo true world (λ h. refl) (λ h. refl) (λ h. refl)
      other-has_org

owner_is_other : (t o : Text) → has_org t o store ≡ true → t ≡ other
owner_is_other t o h = ground (arith, text_eq_iff other t)

store-IsSingle : IsSingle store
store-IsSingle = record {
  one = λ t t' o h h'. owner_is_other t o h ∙ sym (owner_is_other t' o h');
  named = λ t o h. ap null (owner_is_other t o h);
}

claim_org-IsSingle_example : IsSingle (claim_org env acme (codes "mine") world).1.store
claim_org-IsSingle_example = claim_org-IsSingle env acme (codes "mine") world refl store-IsSingle
