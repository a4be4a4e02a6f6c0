-- ===== src/Service/Sessions.antt =====
-- internal/workspacesvc/service.go: creating, listing and deleting sessions.
use workspace_gateway.Base.{
  ◌+◌, Bool, true, ◌&&◌, ◌||◌, not, List, [], Option, none, some, if◌then◌else◌, null, map, Text,
  codes, text_eq, trim_space, Result, ok, err,
}
use workspace_gateway.Base.Exec.{◌>>=◌, ◌>>◌, pure, raise, require}
use workspace_gateway.Members.Store.{owns_repo, add_free_session}
use workspace_gateway.Roles.Names.{
  main_branch, is_upper, valid_component, parse_session, session_name,
}
use workspace_gateway.Roles.Tools
use workspace_gateway.Service.Access.{session_sandboxes}
use workspace_gateway.Service.Claims.{claim_repo}
use workspace_gateway.Service.Env.{
  Env, Config, Headers, Handler, permission_denied, invalid_argument, not_found, from_agent,
  Sandbox, get_config, get_session, create_session, fork, list_sandboxes, ask, fail_if, on_store,
}
use workspace_gateway.Service.Tenant.{resolve_tenant}

-- The roles as the texts that are sent.
abbrev pub developer : Text
developer = codes Tools.developer

abbrev pub admin : Text
admin = codes Tools.admin

abbrev pub explorer : Text
explorer = codes Tools.explorer

-- `wsv1.BranchSession`; the sandbox and its phase are those of the first of `sandboxes`.
pub record BranchSession : Type 0 where
  pub session : Text
  pub org : Text
  pub repo : Text
  pub branch : Text
  pub role : Text
  pub preset : Text
  pub sandboxes : List Sandbox

abbrev pub branch_session : Text → Text → Text → Text → List Sandbox → BranchSession
branch_session session org repo branch refs = record {
  session = session;
  org = org;
  repo = repo;
  branch = branch;
  role = developer;
  preset = developer;
  sandboxes = refs;
}

abbrev pub free_session : Text → Text → List Sandbox → BranchSession
free_session session role refs = record {
  session = session;
  org = [];
  repo = [];
  branch = [];
  role = role;
  preset = role;
  sandboxes = refs;
}

-- strings.ToLower of an ASCII text.
abbrev pub lower : Text → Text
lower = map (λ c. if is_upper c then c + 32 else c)

unfoldable pub normalize_locale : Text → Text
normalize_locale l =
    let m = lower (trim_space l) in
    if text_eq m (codes "zh") then codes "zh" else if text_eq m (codes "en") then codes "en" else []

-- `branch == ""` means main.
abbrev pub or_main : Text → Text
or_main branch = if null branch then main_branch else branch

abbrev trimmed_or_empty : Result Text Text → Text
trimmed_or_empty (ok v) = trim_space v
trimmed_or_empty (err e) = []

abbrev listed_or_none : Result Text (List Sandbox) → List Sandbox
listed_or_none (ok l) = l
listed_or_none (err e) = []

abbrev branch_target_allowed_for : Option (Text × Text × Text) → Text → Text → Bool
branch_target_allowed_for none org repo = true
branch_target_allowed_for (some (s_org, s_repo, _)) org repo =
    text_eq s_org org && text_eq s_repo repo

unfoldable pub branch_target_allowed : Text → Text → Text → Bool
branch_target_allowed caller org repo =
    if null caller then true else branch_target_allowed_for (parse_session caller) org repo

module _ (env : Env) (cfg : Config) (hdr : Headers) where
  unfoldable pub sandbox_fields : Text → Handler (List Sandbox)
  sandbox_fields session =
      ask list_sandboxes env.sandboxes >>= λ r. pure (session_sandboxes (listed_or_none r) session)

  unfoldable pub session_exists : Text → Handler Bool
  session_exists session = ask (get_session session) (λ h. env.has_session h session)

  abbrev pub tenant_locale : Handler Text
  tenant_locale = ask (get_config (codes "locale")) (λ h. env.config h (codes "locale")) >>= λ r.
      pure (trimmed_or_empty r)

  -- `createSession`
  unfoldable pub create_with : Text → Text → Text → Text → Handler (Unit {0})
  create_with name preset model locale = do
    l ← (if null (trim_space locale) then tenant_locale else pure locale)
    e ← ask (create_session name preset model (normalize_locale l)) (λ h. env.created h name)
    fail_if from_agent e

  unfoldable pub ensure_branch_session : Text → Text → Text → Text → Text → Handler BranchSession
  unfolding create_with session_exists sandbox_fields
  ensure_branch_session org repo branch_in model locale = do
    tenant ← resolve_tenant env cfg hdr
    let branch = or_main branch_in
    require (valid_component org && (valid_component repo && valid_component branch))
        invalid_argument
    claim_repo env tenant org repo
    let session = session_name org repo branch
    exists ← session_exists session
    (if exists then pure tt else create_with session developer model locale)
    refs ← sandbox_fields session
    pure (branch_session session org repo branch refs)

  abbrev pub fork_from :
      Text → Text → Text → Text → Option (Text × Text × Text) → Handler BranchSession
  fork_from tenant parent branch message none = raise invalid_argument
  fork_from tenant parent branch message (some (org, repo, parent_branch)) = do
    require (not (null branch || (not (valid_component branch) || text_eq branch main_branch)))
        invalid_argument
    require (text_eq parent_branch main_branch) permission_denied
    require (branch_target_allowed hdr.session_name org repo) permission_denied
    is_owned ← on_store env (λ f. owns_repo f tenant org repo)
    require is_owned not_found
    exists ← session_exists parent
    require exists not_found
    let session = session_name org repo branch
    e ← ask (fork parent session message developer) (λ h. env.forked h session)
    fail_if from_agent e
    refs ← sandbox_fields session
    pure (branch_session session org repo branch refs)

  unfoldable pub fork_branch_session : Text → Text → Text → Handler BranchSession
  unfolding branch_target_allowed session_exists sandbox_fields
  fork_branch_session parent branch message = resolve_tenant env cfg hdr >>= λ tenant.
      fork_from tenant parent branch message (parse_session parent)

  unfoldable pub create_free_session : Text → Text → Text → Text → Handler (Text × Text)
  unfolding create_with
  create_free_session role name model locale = do
    tenant ← resolve_tenant env cfg hdr
    require (text_eq role admin || text_eq role explorer) invalid_argument
    require (not (null name || not (valid_component name))) invalid_argument
    on_store env (λ f. add_free_session f tenant name role)
    create_with name role model locale
    pure (name, role)
