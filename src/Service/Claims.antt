-- ===== src/Service/Claims.antt =====
-- internal/workspacesvc/service.go: claiming organisations and repositories.
use workspace_gateway.Base.{◌||◌, if◌then◌else◌, null, Text, text_eq}
use workspace_gateway.Base.Exec.{◌>>=◌, ◌>>◌, pure, require}
use workspace_gateway.Members.Store.{add_repo, owns_repo, add_org, owns_org, org_owner}
use workspace_gateway.Service.Env.{
  Env, Handler, permission_denied, internal, ensure_org, repo_exists, ensure_repo, ask, fail_with,
  fail_if, statement_on, on_store,
}

module _ (env : Env) where
  abbrev pub claim_new_org : Text → Text → Text → Handler (Unit {0})
  claim_new_org tenant org other = do
    require (null other || text_eq other tenant) permission_denied
    e ← ask (ensure_org org) (λ h. env.org_ensured h org)
    fail_if (λ _. internal) e
    on_store env (λ f. add_org f tenant org)

  unfoldable pub claim_org : Text → Text → Handler (Unit {0})
  claim_org tenant org = do
    is_owned ← on_store env (λ f. owns_org f tenant org)
    if is_owned
        then pure tt
        else (on_store env (λ f. org_owner f org) >>= λ other. claim_new_org tenant org other)

  abbrev pub claim_existing : Text → Text → Text → Handler (Unit {0})
  claim_existing tenant org repo = do
    is_owned ← on_store env (λ f. owns_repo f tenant org repo)
    require is_owned permission_denied

  -- The last statement's failure is ignored.
  abbrev pub claim_new : Text → Text → Text → Handler (Unit {0})
  claim_new tenant org repo = do
    r ← ask (ensure_repo org repo) (λ h. env.repo_ensured h org repo)
    fail_with (λ _. internal) r
    on_store env (λ f. add_repo f tenant org repo)
    statement_on env (λ f. add_org f tenant org)
    pure tt

  unfoldable pub claim_repo : Text → Text → Text → Handler (Unit {0})
  claim_repo tenant org repo = do
    r ← ask (repo_exists org repo) (λ h. env.repo_found h org repo)
    exists ← fail_with (λ _. internal) r
    if exists then claim_existing tenant org repo else claim_new tenant org repo
