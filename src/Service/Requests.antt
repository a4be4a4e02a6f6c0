-- ===== src/Service/Requests.antt =====
-- internal/workspacesvc/service.go: merge requests, branches and repositories; mr_notify.go.
use workspace_gateway.Base.{
  ℕ, Bool, true, ◌&&◌, ◌||◌, not, List, [], ◌∷◌, ◌++◌, if◌then◌else◌, null, map, ◌==◌, Text, codes,
  text_eq, has_prefix, trim_space, Result, ok, err,
}
use workspace_gateway.Base.Exec.{◌>>=◌, ◌>>◌, pure, raise, attempt, require}
use workspace_gateway.Members.Store.{owns_repo, add_repo, add_mr_submission, delete_mr_submission}
use workspace_gateway.Roles.Names.{main_branch, colon, valid_component, session_name}
use workspace_gateway.Service.Claims.{claim_org}
use workspace_gateway.Service.Env.{
  Env, Config, Headers, Handler, Code, permission_denied, invalid_argument, not_found,
  failed_precondition, internal, ForgeError, conflict, missing, forge_failed, FileOp, SubmitError,
  rejected_files, submit_failed, ensure_repo, branch_exists, create_branch, delete_branch, submit,
  create_mr, get_mr, merge_mr, close_mr, comment_mr, publish, ask, fail_with, fail_if, statement_on,
  on_store,
}
use workspace_gateway.Service.Sessions.{
  developer, branch_target_allowed, session_exists, create_with, ensure_branch_session, or_main,
}
use workspace_gateway.Service.Tenant.{resolve_tenant, tenant_of}

-- `mrError`
abbrev pub mr_error : ForgeError → Code
mr_error (conflict reason) = failed_precondition
mr_error missing = not_found
mr_error (forge_failed e) = internal

abbrev pub submit_error : SubmitError → Code
submit_error rejected_files = invalid_argument
submit_error submit_failed = internal

-- `isMRBranch`
unfoldable pub is_mr_branch : Text → Bool
is_mr_branch ref = has_prefix ref (codes "mr/")

-- strings.NewReplacer(":", "-", "/", "-")
abbrev pub slug : Text → Text
slug = map (λ c. if c == colon || c == b'/' then b'-' else c)

-- `mrBranchName`, at a time in nanoseconds, printed.
unfoldable pub mr_branch_name : Text → Text → Text
mr_branch_name origin nanos = codes "mr/" ++ (slug origin ++ b'-' ∷ nanos)

-- A file of the request: the bytes, or the text where there are none.
pub record RequestFile : Type 0 where
  pub path : Text
  pub operation : Text
  pub content_bytes : Text
  pub content : Text

unfoldable pub file_op : RequestFile → FileOp
file_op f = record {
  path = f.path;
  operation = f.operation;
  content = if null f.content_bytes then f.content else f.content_bytes;
}

pub record SubmitRequest : Type 0 where
  pub org : Text
  pub repo : Text
  pub base : Text
  pub title : Text
  pub body : Text
  pub files : List RequestFile

pub record SubmitResponse : Type 0 where
  pub index : ℕ
  pub url : Text
  pub head : Text

module _ (env : Env) (cfg : Config) (hdr : Headers) where
  unfoldable pub ensure_visible : Text → Text → Handler (Unit {0})
  ensure_visible org repo = do
    tenant ← resolve_tenant env cfg hdr
    is_owned ← on_store env (λ f. owns_repo f tenant org repo)
    require is_owned not_found

  -- `authorizeMRTarget`: no error.
  abbrev pub may_target : Text → Text → Text → Bool
  may_target org repo base =
      null hdr.session_name || text_eq hdr.session_name (session_name org repo base)

  unfoldable pub merge_request : Text → Text → ℕ → Handler Bool
  unfolding ensure_visible
  merge_request org repo index = do
    ensure_visible org repo
    found ← ask (get_mr org repo index) (λ h. env.mr_found h org repo index)
    mr ← fail_with mr_error found
    require (may_target org repo mr.base) permission_denied
    require mr.mergeable failed_precondition
    e ← ask (merge_mr org repo index) (λ h. env.mr_merged h org repo index)
    fail_if mr_error e
    tenant ← tenant_of env cfg hdr
    statement_on env (λ f. delete_mr_submission f tenant org repo index)
    pure true

  unfoldable pub close_request : Text → Text → ℕ → Handler Bool
  unfolding ensure_visible
  close_request org repo index = do
    ensure_visible org repo
    found ← ask (get_mr org repo index) (λ h. env.mr_found h org repo index)
    mr ← fail_with mr_error found
    require (may_target org repo mr.base) permission_denied
    e ← ask (close_mr org repo index) (λ h. env.mr_closed h org repo index)
    fail_if mr_error e
    (if is_mr_branch mr.head
        then (ask (delete_branch org repo mr.head) (λ h. env.branch_deleted h org repo mr.head)
            >>= λ r. pure tt)
        else pure tt)
    tenant ← tenant_of env cfg hdr
    statement_on env (λ f. delete_mr_submission f tenant org repo index)
    pure true

  unfoldable pub comment_request : Text → Text → ℕ → Text → Handler Bool
  unfolding ensure_visible
  comment_request org repo index body = do
    ensure_visible org repo
    e ← ask (comment_mr org repo index body) (λ h. env.mr_commented h org repo index)
    fail_if (λ _. internal) e
    pure true

  -- `notifyMRSubmitted`; its failures are ignored. The tenant's mailbox of the base session gets the
  -- text of the request.
  unfoldable pub notify_submitted : Text → Text → Text → Text → Handler (Unit {0})
  notify_submitted tenant org repo base_in =
      let base = or_main base_in in
      let base_session = session_name org repo base in
      if not cfg.has_bus || text_eq base_session hdr.session_name then pure tt else (do
        attempt (ensure_branch_session env cfg hdr org repo base [] [])
        ask (publish tenant base_session) (λ h. env.published h base_session)
        pure tt)

  -- A failed merge request does not strand its branch.
  abbrev pub created_or_cleaned :
      Text → Text → Text → Result ForgeError (ℕ × Text) → Handler (ℕ × Text)
  created_or_cleaned org repo head (ok r) = pure r
  created_or_cleaned org repo head (err e) =
      ask (delete_branch org repo head) (λ h. env.branch_deleted h org repo head) >>= λ d.
      raise (mr_error e)

  -- From `gitcommit.Submit` on.
  abbrev pub sent : SubmitRequest → Text → Text → Text → Handler SubmitResponse
  sent m origin title head = do
    s ← ask (submit m.org m.repo m.base head) (λ h. env.submitted h head (map file_op m.files))
    fail_if submit_error s
    made ← ask (create_mr m.org m.repo title head m.base) (λ h. env.mr_created h head)
    r ← created_or_cleaned m.org m.repo head made
    tenant ← tenant_of env cfg hdr
    (λ w.
        statement_on env
          (λ f. add_mr_submission f (env.now w.calls) tenant m.org m.repo r.0 m.base head origin) w)
    tenant' ← tenant_of env cfg hdr
    notify_submitted tenant' m.org m.repo m.base
    pure (record { index = r.0; url = r.1; head = head })

  unfoldable pub submit_request : SubmitRequest → Handler SubmitResponse
  submit_request m = do
    ensure_visible m.org m.repo
    require (not (null m.base)) invalid_argument
    require (valid_component m.base) invalid_argument
    require (not (is_mr_branch m.base)) invalid_argument
    found ← ask (branch_exists m.org m.repo m.base) (λ h. env.branch_found h m.org m.repo m.base)
    exists ← fail_with (λ _. internal) found
    require exists not_found
    require (not (null m.files)) invalid_argument
    let origin =
        if null hdr.session_name then session_name m.org m.repo m.base else hdr.session_name
    let title =
        if null (trim_space m.title)
        then codes "MR from " ++ (origin ++ (codes " into " ++ m.base))
        else m.title
    nanos ← (λ w. (ok (env.unix_nano w.calls), w))
    sent m origin title (mr_branch_name origin nanos)

  -- `CreateBranch`
  unfoldable pub new_branch : Text → Text → Text → Text → Handler Bool
  unfolding ensure_visible
  new_branch org repo name from = do
    ensure_visible org repo
    require (branch_target_allowed hdr.session_name org repo) permission_denied
    e ← ask (create_branch org repo name from) (λ h. env.branch_created h org repo name)
    fail_if mr_error e
    pure true

  -- `ensureMainSession`; its failure is ignored.
  unfoldable pub ensure_main_session : Text → Text → Handler (Unit {0})
  ensure_main_session org repo = do
    let session = session_name org repo main_branch
    exists ← session_exists env cfg hdr session
    (if exists
        then pure tt
        else (attempt (create_with env cfg hdr session developer [] []) >>= λ r. pure tt))

  -- `EnsureRepo`; `requireAdmin` never fails.
  unfoldable pub ensure_repository : Text → Text → Handler Bool
  unfolding ensure_main_session
  ensure_repository org repo = do
    tenant ← resolve_tenant env cfg hdr
    require (valid_component org && valid_component repo) invalid_argument
    r ← ask (ensure_repo org repo) (λ h. env.repo_ensured h org repo)
    made ← fail_with (λ _. internal) r
    on_store env (λ f. add_repo f tenant org repo)
    ensure_main_session org repo
    pure made

  -- `CreateOrg`
  unfoldable pub create_org : Text → Handler Text
  create_org org = do
    tenant ← resolve_tenant env cfg hdr
    require (valid_component org) invalid_argument
    claim_org env tenant org
    pure org
