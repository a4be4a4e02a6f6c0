-- ===== src/Service/Removal.antt =====
-- internal/workspacesvc/service.go: listing, reading and deleting sessions, branches and repositories.
use workspace_gateway.Base.{
  Bool, true, false, ◌&&◌, ◌||◌, not, List, [], ◌∷◌, ◌++◌, Option, none, some, if◌then◌else◌, null,
  Text, text_eq, has_prefix, Result, ok, err,
}
use workspace_gateway.Base.Exec.{◌>>=◌, ◌>>◌, pure, raise, require}
use workspace_gateway.Members.Store.{owns_repo, remove_repo, free_role, delete_free_session}
use workspace_gateway.Roles.Names.{main_branch, colon, valid_component, parse_session, session_name}
use workspace_gateway.Service.Access.{session_sandboxes}
use workspace_gateway.Service.Env.{
  Env, Config, Headers, Handler, invalid_argument, not_found, internal, from_agent, Sandbox,
  ServiceRow, list_sessions, list_sandboxes, list_services, delete_session, delete_sandbox,
  delete_service, delete_branch, delete_repo, ask, fail_with, fail_if, statement_on, on_store,
}
use workspace_gateway.Service.Sessions.{BranchSession, branch_session, free_session, sandbox_fields}
use workspace_gateway.Service.Tenant.{resolve_tenant}

abbrev pub or_nil : {A : Type 0} → Result Text (List A) → List A
or_nil (ok l) = l
or_nil (err e) = []

-- A failed read of a free session's role counts as none.
abbrev pub found_role : Result Text (Option Text) → Option Text
found_role (ok r) = r
found_role (err e) = none

abbrev pub is_true : Result Text Bool → Bool
is_true (ok b) = b
is_true (err e) = false

abbrev pub is_known : Option Text → Bool
is_known none = false
is_known (some r) = true

module _ (env : Env) where
  abbrev pub read_free_role : Text → Text → Handler (Option Text)
  read_free_role tenant session =
      statement_on env (λ f. free_role f tenant session) >>= λ r. pure (found_role r)

  -- The test of the loop over the sandboxes in `deleteSessionCascade`.
  abbrev pub in_cascade : Text → Text → Sandbox → Bool
  in_cascade tenant session sb =
      (null sb.creator || text_eq sb.creator tenant)
      && (text_eq sb.session session || (null sb.session && text_eq sb.name session))

  -- The errors of the deletions are ignored.
  unfoldable pub delete_sandboxes : Text → Text → List Sandbox → Handler (Unit {0})
  delete_sandboxes tenant session [] = pure tt
  delete_sandboxes tenant session (sb ∷ sbs) =
      (if in_cascade tenant session sb
        then (ask (delete_sandbox sb.name) (λ h. env.sandbox_deleted h sb.name) >>= λ e. pure tt)
        else pure tt)
      >> delete_sandboxes tenant session sbs

  unfoldable pub delete_session_cascade : Config → Text → Text → Handler (Unit {0})
  unfolding delete_sandboxes
  delete_session_cascade cfg tenant session = do
    (if cfg.has_sandboxes
        then (ask list_sandboxes env.sandboxes >>= λ r. delete_sandboxes tenant session (or_nil r))
        else pure tt)
    ask (delete_session session) (λ h. env.session_deleted h session)
    statement_on env (λ f. delete_free_session f tenant session)
    pure tt

  abbrev pub listed_free :
      Text → List Sandbox → Option Text → List BranchSession → List BranchSession
  listed_free name refs none out = out
  listed_free name refs (some role) out = out ++ free_session name role refs ∷ []

  -- The loop of `ListBranchSessions` over the agent's sessions.
  abbrev pub list_one :
      Text
      → List Sandbox
      → Text
      → Option (Text × Text × Text)
      → List BranchSession
      → Handler (List BranchSession)
  list_one tenant refs name (some (org, repo, branch)) out = do
    is_owned ← on_store env (λ f. owns_repo f tenant org repo)
    pure (if is_owned then out ++ branch_session name org repo branch refs ∷ [] else out)
  list_one tenant refs name none out =
      read_free_role tenant name >>= λ r. pure (listed_free name refs r out)

  unfoldable pub list_each :
      Text → List Sandbox → List Text → List BranchSession → Handler (List BranchSession)
  list_each tenant all [] out = pure out
  list_each tenant all (name ∷ names) out =
      list_one tenant (session_sandboxes all name) name (parse_session name) out >>= λ out'.
      list_each tenant all names out'

module _ (env : Env) (cfg : Config) (hdr : Headers) where
  unfoldable pub list_branch_sessions : Handler (List BranchSession)
  unfolding list_each
  list_branch_sessions = do
    tenant ← resolve_tenant env cfg hdr
    r ← ask list_sessions env.sessions
    names ← fail_with from_agent r
    sbxs ← ask list_sandboxes env.sandboxes
    list_each env tenant (or_nil sbxs) names []

  abbrev pub role_session : Text → Option Text → Handler BranchSession
  role_session session none = raise not_found
  role_session session (some role) =
      sandbox_fields env cfg hdr session >>= λ refs. pure (free_session session role refs)

  abbrev pub get_parsed : Text → Text → Option (Text × Text × Text) → Handler BranchSession
  get_parsed tenant session (some (org, repo, branch)) = do
    is_owned ← on_store env (λ f. owns_repo f tenant org repo)
    require is_owned not_found
    refs ← sandbox_fields env cfg hdr session
    pure (branch_session session org repo branch refs)
  get_parsed tenant session none = read_free_role env tenant session >>= role_session session

  unfoldable pub get_branch_session : Text → Handler BranchSession
  get_branch_session session =
      resolve_tenant env cfg hdr >>= λ tenant. get_parsed tenant session (parse_session session)

  -- The branch is deleted with its session, but never main.
  abbrev pub delete_parsed : Text → Text → Option (Text × Text × Text) → Handler Bool
  delete_parsed tenant session (some (org, repo, branch)) = do
    r ← statement_on env (λ f. owns_repo f tenant org repo)
    require (is_true r) not_found
    delete_session_cascade env cfg tenant session
    if text_eq branch main_branch then pure true else (do
      e ← ask (delete_branch org repo branch) (λ h. env.branch_deleted h org repo branch)
      fail_if (λ _. internal) e
      pure true)
  delete_parsed tenant session none = do
    role ← read_free_role env tenant session
    require (is_known role) not_found
    delete_session_cascade env cfg tenant session
    pure true

  unfoldable pub delete_branch_session : Text → Handler Bool
  unfolding delete_session_cascade
  delete_branch_session session =
      resolve_tenant env cfg hdr >>= λ tenant. delete_parsed tenant session (parse_session session)

  -- `DeleteBranch`
  unfoldable pub remove_branch : Text → Text → Text → Handler Bool
  unfolding delete_session_cascade
  remove_branch org repo branch = do
    tenant ← resolve_tenant env cfg hdr
    require (valid_component org && (valid_component repo && valid_component branch))
        invalid_argument
    require (not (text_eq branch main_branch)) invalid_argument
    is_owned ← on_store env (λ f. owns_repo f tenant org repo)
    require is_owned not_found
    delete_session_cascade env cfg tenant (session_name org repo branch)
    e ← ask (delete_branch org repo branch) (λ h. env.branch_deleted h org repo branch)
    fail_if (λ _. internal) e
    pure true

  unfoldable pub cascade_each : Text → Text → List Text → Handler (Unit {0})
  unfolding delete_session_cascade
  cascade_each tenant prefix [] = pure tt
  cascade_each tenant prefix (name ∷ names) =
      (if has_prefix name prefix then delete_session_cascade env cfg tenant name else pure tt)
      >> cascade_each tenant prefix names

  unfoldable pub delete_services : Text → List ServiceRow → Handler (Unit {0})
  delete_services prefix [] = pure tt
  delete_services prefix (svc ∷ svcs) =
      (if has_prefix svc.session prefix
        then (ask (delete_service svc.name) (λ h. env.service_deleted h svc.name) >>= λ e. pure tt)
        else pure tt)
      >> delete_services prefix svcs

  -- `DeleteRepo`
  unfoldable pub remove_repository : Text → Text → Handler Bool
  unfolding cascade_each delete_services
  remove_repository org repo = do
    tenant ← resolve_tenant env cfg hdr
    require (valid_component org && valid_component repo) invalid_argument
    is_owned ← on_store env (λ f. owns_repo f tenant org repo)
    require is_owned not_found
    let prefix = org ++ colon ∷ (repo ++ colon ∷ [])
    names ← ask list_sessions env.sessions
    cascade_each tenant prefix (or_nil names)
    (if cfg.has_services
        then (ask list_services env.services >>= λ r. delete_services prefix (or_nil r))
        else pure tt)
    e ← ask (delete_repo org repo) (λ h. env.repo_deleted h org repo)
    fail_if (λ _. internal) e
    on_store env (λ f. remove_repo f tenant org repo)
    pure true
