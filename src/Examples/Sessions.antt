-- ===== src/Examples/Sessions.antt =====
-- The theorems on submissions and on listed sessions, on a deployment with two sessions of `acme`.
use workspace_gateway.Base.{
  [], ◌∷◌, ◌≡◌, refl, All, Text, codes, text_eq, ok, contains, has_prefix, has_suffix, trim_space,
  trim_prefix,
}
use workspace_gateway.Base.Exec.{◌>>=◌}
use workspace_gateway.Base.Sorting.{sort}
use workspace_gateway.Base.Split.{split}
use workspace_gateway.Examples.Deployment.{acme, org, repo, env, cfg, hdr, store, world}
use workspace_gateway.Members.Store.{Store, owns_repo, free_role}
use workspace_gateway.Roles.Names.{valid_component, parse_session}
use workspace_gateway.Service.Access.{session_sandboxes}
use workspace_gateway.Service.Env.{Env, World, ask, fail_with, on_store, statement_on}
use workspace_gateway.Service.Proofs.Rules.{Resolves}
use workspace_gateway.Service.Proofs.Submitting.{Submits, submit_request-Submits}
use workspace_gateway.Service.Proofs.Visible.{
  IsShown, list_branch_sessions-IsShown, get_branch_session-IsShown,
}
use workspace_gateway.Service.Removal.{list_branch_sessions, get_branch_session}
use workspace_gateway.Service.Requests.{SubmitRequest, submit_request}
use workspace_gateway.Service.Sessions.{
  BranchSession, branch_session, free_session, explorer, sandbox_fields,
}
use workspace_gateway.Service.Tenant.{resolve_tenant, service_tenant}

abbrev submission : SubmitRequest
submission = record {
  org = org;
  repo = repo;
  base = codes "main";
  title = [];
  body = [];
  files =
      record {
        path = codes "a";
        operation = codes "write";
        content_bytes = [];
        content = codes "x";
      }
      ∷ [];
}

submit_request-Submits_example :
    All (Submits submission) (submit_request env cfg hdr submission world).1.calls
submit_request-Submits_example = submit_request-Submits env cfg hdr submission store

abbrev owners : Store
owners = record store {
  repo_owners = record { tenant = acme; org = org; repo = repo } ∷ [];
  free_sessions = record { tenant = acme; session = codes "ops"; role = explorer } ∷ [];
}

abbrev busy : Env
busy = record env {
  sessions = λ h. ok (codes "org:repo:main" ∷ codes "ops" ∷ codes "not:mine:main" ∷ []);
}

abbrev main_session : BranchSession
main_session = branch_session (codes "org:repo:main") org repo (codes "main") []

abbrev ops_session : BranchSession
ops_session = free_session (codes "ops") explorer []

abbrev start : World
start = record { store = owners; calls = [] }

listed : (list_branch_sessions busy cfg hdr start).0 ≡ ok (main_session ∷ ops_session ∷ [])
unfolding list_branch_sessions ◌>>=◌ resolve_tenant service_tenant text_eq has_prefix trim_space
    trim_prefix valid_component contains has_suffix ask fail_with on_store statement_on owns_repo
    free_role parse_session split session_sandboxes sort
listed = refl

list_branch_sessions-IsShown_example :
    ((list_branch_sessions busy cfg hdr start).1.store ≡ owners)
    × ((t : Text) × Resolves busy cfg hdr t
        × All (IsShown owners t) (main_session ∷ ops_session ∷ []))
list_branch_sessions-IsShown_example =
    list_branch_sessions-IsShown busy cfg hdr owners (main_session ∷ ops_session ∷ []) listed

answered : (get_branch_session busy cfg hdr (codes "org:repo:main") start).0 ≡ ok main_session
unfolding get_branch_session ◌>>=◌ resolve_tenant service_tenant text_eq has_prefix trim_space
    trim_prefix valid_component contains has_suffix ask fail_with on_store statement_on owns_repo
    parse_session split session_sandboxes sandbox_fields sort
answered = refl

get_branch_session-IsShown_example :
    ((get_branch_session busy cfg hdr (codes "org:repo:main") start).1.store ≡ owners)
    × (main_session.session ≡ codes "org:repo:main")
    × ((t : Text) × Resolves busy cfg hdr t × IsShown owners t main_session)
get_branch_session-IsShown_example =
    get_branch_session-IsShown busy cfg hdr owners (codes "org:repo:main") main_session answered
