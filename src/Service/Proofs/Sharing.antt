-- ===== src/Service/Proofs/Sharing.antt =====
-- Several owners: EnsureRepo, claimRepo and claimOrg of internal/workspacesvc/service.go.
use workspace_gateway.Base.{
  Bool, true, List, [], none, some, ◌≡◌, refl, ◌∙◌, arith, Text, text_eq_refl, ok,
}
use workspace_gateway.Base.Exec.{
  ◌>>=◌, Keeps, Keeps-pure, Keeps-if, Keeps-bind, Keeps-attempt, keeps_rules,
}
use workspace_gateway.Members.Store.{Store, add_repo}
use workspace_gateway.Members.Ownership.{owns, same_repo, owns-add_repo}
use workspace_gateway.Roles.Names.{valid_component}
use workspace_gateway.Service.Env.{
  Env, Config, Headers, World, Call, get_session, ask, fail_with, statement_on, on_store,
}
use workspace_gateway.Service.Proofs.Rules.{Keeps-ask, Keeps-fail_if}
use workspace_gateway.Service.Requests.{ensure_main_session, ensure_repository}
use workspace_gateway.Service.Sessions.{session_exists, create_with, developer}
use workspace_gateway.Service.Tenant.{service_tenant, resolve_tenant}

module _ (env : Env) (cfg : Config) (hdr : Headers) (P : Store → Type 0) where
  abbrev On : World → Type 0
  On w = P w.store

  asks : {A : Type 0} (c : Call) (f : List Call → A) → Keeps On (ask c f)
  asks c f = Keeps-ask c f (λ w p. p)

  creates : (n p m l : Text) → Keeps On (create_with env cfg hdr n p m l)
  unfolding create_with
  creates n p m l = search (keeps_rules, asks, Keeps-fail_if) depth 20

  exists : (n : Text) → Keeps On (session_exists env cfg hdr n)
  unfolding session_exists
  exists n = asks (get_session n) _

  main_session : (org repo : Text) → Keeps On (ensure_main_session env cfg hdr org repo)
  unfolding ensure_main_session
  main_session org repo = Keeps-bind _ _ (exists _) λ e.
      Keeps-if e _ _ (λ _. Keeps-pure tt)
        (λ _. Keeps-bind _ _ (Keeps-attempt _ (creates _ developer [] [])) λ r. Keeps-pure tt)

same_repo_refl : (t o r : Text) → same_repo t o r t o r ≡ true
same_repo_refl t o r = rw (text_eq_refl t, text_eq_refl o, text_eq_refl r) refl

-- Where the caller speaks for a tenant by the service token, both names are legal, Forgejo has or
-- makes the repository and no SQL statement fails, EnsureRepo leaves the repository to the caller's
-- tenant and to another that owned it before: it does not ask whose it is.
pub ensure_repository_shares :
    (env : Env) (cfg : Config) (hdr : Headers) (org repo t t' : Text) (made : Bool) (s : Store)
    → service_tenant cfg hdr ≡ some t
    → valid_component org ≡ true
    → valid_component repo ≡ true
    → ((h : List Call) → env.statement_fault h ≡ none)
    → ((h : List Call) → env.repo_ensured h org repo ≡ ok made)
    → owns t' org repo s ≡ true
    → let w = (ensure_repository env cfg hdr org repo (record { store = s; calls = [] })).1 in
      (owns t org repo w.store ≡ true) × (owns t' org repo w.store ≡ true)
unfolding ensure_repository resolve_tenant ◌>>=◌ ask fail_with on_store statement_on add_repo
ensure_repository_shares env cfg hdr org repo t t' made s e vo vr quiet known has =
    rw (e, vo, vr, known, quiet)
      ((Keeps-bind _ _ (main_session env cfg hdr P org repo) λ _. Keeps-pure made).at _
        (mine, theirs))
  where
    P : Store → Type 0
    P u = (owns t org repo u ≡ true) × (owns t' org repo u ≡ true)

    mine : owns t org repo (add_repo none t org repo s).1 ≡ true
    mine = owns-add_repo t org repo t org repo s ∙ rw (same_repo_refl t org repo) refl

    theirs : owns t' org repo (add_repo none t org repo s).1 ≡ true
    theirs = ground (arith, owns-add_repo t org repo t' org repo s)
