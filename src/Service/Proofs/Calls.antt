-- ===== src/Service/Proofs/Calls.antt =====
-- Handlers that make only calls that a predicate allows: the helpers that create sessions in
-- internal/workspacesvc/service.go, and EnsureBranchSession.
use workspace_gateway.Base.{
  Bool, true, ◌&&◌, List, [], ◌∷◌, ◌++◌, Option, ◌≡◌, arith, All, All-append, Text,
}
use workspace_gateway.Base.Exec.{
  Exec, Keeps, Keeps-pure, Keeps-if, Keeps-bind, Keeps-require, require-Keeps, keeps_rules,
}
use workspace_gateway.Members.Store.{Store}
use workspace_gateway.Roles.Names.{valid_component, session_name}
use workspace_gateway.Service.Claims.{claim_repo}
use workspace_gateway.Service.Env.{
  Env, Config, Headers, World, invalid_argument, Call, statement, get_identity, get_config,
  list_sandboxes, get_session, create_session, repo_exists, ensure_repo, ask, statement_on,
  on_store,
}
use workspace_gateway.Service.Proofs.Rules.{
  Keeps-ask, Keeps-fail_with, Keeps-fail_if, Keeps-statement, Keeps-on_store, Keeps-resolve,
  Keeps-tenant_of,
}
use workspace_gateway.Service.Sessions.{
  developer, or_main, sandbox_fields, session_exists, create_with, ensure_branch_session,
}
use workspace_gateway.Service.Tenant.{resolve_tenant, tenant_of}

-- The calls that every handler with a session makes are allowed.
pub record Allows (A : Call → Type 0) : Type 0 where
  pub states : A statement
  pub identifies : A get_identity
  pub configures : (key : Text) → A (get_config key)
  pub finds_session : (name : Text) → A (get_session name)
  pub lists_sandboxes : A list_sandboxes
  pub finds_repo : (org repo : Text) → A (repo_exists org repo)
  pub ensures_repo : (org repo : Text) → A (ensure_repo org repo)

pub valid_parts : (a b c : Bool) → (a && (b && c)) ≡ true → (a ≡ true) × (b ≡ true) × (c ≡ true)
valid_parts a b c h = ground arith

module _ (A : Call → Type 0) (al : Allows A) where
  abbrev pub Only : World → Type 0
  Only w = All A w.calls

  pub Only-ask :
      (c : Call) → A c → (w : World) → Only w → Only (record w { calls = w.calls ++ c ∷ [] })
  Only-ask c a w h = All-append A w.calls (c ∷ []) h (a, tt)

  pub asks : {B : Type 0} (c : Call) (f : List Call → B) → A c → Keeps Only (ask c f)
  asks c f a = Keeps-ask c f (Only-ask c a)

  pub states :
      {B : Type 0} (env : Env) (m : Option Text → Exec Text Store B) → Keeps Only (on_store env m)
  states env m = Keeps-on_store env m (λ f w p. Only-ask statement al.states w p)

  pub settles :
      {B : Type 0} (env : Env) (m : Option Text → Exec Text Store B)
      → Keeps Only (statement_on env m)
  settles env m = Keeps-statement env m (λ f w p. Only-ask statement al.states w p)

  pub resolves :
      (env : Env) (cfg : Config) (hdr : Headers) → Keeps Only (resolve_tenant env cfg hdr)
  resolves env cfg hdr = Keeps-resolve env cfg hdr (Only-ask get_identity al.identifies)

  pub names_tenant : (env : Env) (cfg : Config) (hdr : Headers) → Keeps Only (tenant_of env cfg hdr)
  names_tenant env cfg hdr = Keeps-tenant_of env cfg hdr (Only-ask get_identity al.identifies)

  pub claims : (env : Env) (t o r : Text) → Keeps Only (claim_repo env t o r)
  unfolding claim_repo
  claims env t o r = Keeps-bind _ _ (asks (repo_exists o r) _ (al.finds_repo o r)) λ a.
      Keeps-bind _ _ (Keeps-fail_with _ a) λ found.
        Keeps-if found _ _
          (λ _. Keeps-bind _ _ (states env _) λ b. search (keeps_rules, require-Keeps))
          (λ _. Keeps-bind _ _ (asks (ensure_repo o r) _ (al.ensures_repo o r)) λ made.
            Keeps-bind _ _ (Keeps-fail_with _ made) λ _.
              Keeps-bind _ _ (states env _) λ _. Keeps-bind _ _ (settles env _) λ _. Keeps-pure tt)

  pub creates :
      (env : Env) (cfg : Config) (hdr : Headers) (n p m l : Text)
      → ((l : Text) → A (create_session n p m l))
      → Keeps Only (create_with env cfg hdr n p m l)
  unfolding create_with
  creates env cfg hdr n p m l a =
      search (keeps_rules, asks, Keeps-fail_if, a, al.configures) depth 20

  pub fields :
      (env : Env) (cfg : Config) (hdr : Headers) (n : Text)
      → Keeps Only (sandbox_fields env cfg hdr n)
  unfolding sandbox_fields
  fields env cfg hdr n = search (keeps_rules, asks, al.lists_sandboxes) depth 12

  pub exists :
      (env : Env) (cfg : Config) (hdr : Headers) (n : Text)
      → Keeps Only (session_exists env cfg hdr n)
  unfolding session_exists
  exists env cfg hdr n = asks (get_session n) _ (al.finds_session n)

  -- EnsureBranchSession makes only allowed calls if the creation of the branch's session is one.
  pub ensures :
      (env : Env) (cfg : Config) (hdr : Headers) (org repo branch model locale : Text)
      → ((valid_component org && (valid_component repo && valid_component (or_main branch))) ≡ true
          → (l : Text)
          → A (create_session (session_name org repo (or_main branch)) developer model l))
      → Keeps Only (ensure_branch_session env cfg hdr org repo branch model locale)
  unfolding ensure_branch_session
  ensures env cfg hdr org repo branch model locale a = Keeps-bind _ _ (resolves env cfg hdr) λ t.
      Keeps-require _ invalid_argument _ λ v. Keeps-bind _ _ (claims env t org repo) λ _.
        Keeps-bind _ _ (exists env cfg hdr _) λ e.
          Keeps-bind _ _
            (Keeps-if e _ _ (λ _. Keeps-pure tt) (λ _. creates env cfg hdr _ _ model locale (a v)))
            λ _. Keeps-bind _ _ (fields env cfg hdr _) λ refs. Keeps-pure _
