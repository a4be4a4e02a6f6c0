-- ===== src/Service/Proofs/Demolition.antt =====
-- The calls that the deletion of a repository may make, and what keeps to them: the loops of DeleteRepo
-- and `deleteSessionCascade` of internal/workspacesvc/service.go.
use workspace_gateway.Base.{
  true, List, [], ◌∷◌, ◌++◌, Option, none, some, ◌≡◌, ◌⊎◌, refl, All, All-append, Text, has_prefix,
}
use workspace_gateway.Base.Exec.{Keeps, Keeps-pure, Keeps-if, Keeps-bind}
use workspace_gateway.Members.Store.{Store, delete_free_session}
use workspace_gateway.Members.Ownership.{owns}
use workspace_gateway.Roles.Names.{colon}
use workspace_gateway.Service.Env.{
  Env, Config, Headers, World, Sandbox, ServiceRow, Call, statement, get_identity, list_sandboxes,
  list_sessions, list_services, delete_session, delete_sandbox, delete_service, delete_repo, ask,
}
use workspace_gateway.Service.Proofs.Rules.{
  Reported, All-Reported, Keeps-ask, Keeps-bind-ask, Keeps-statement, Resolves,
}
use workspace_gateway.Service.Removal.{
  or_nil, in_cascade, delete_sandboxes, delete_session_cascade, cascade_each, delete_services,
}

-- How the names of a repository's sessions begin.
abbrev pub repo_prefix : Text → Text → Text
repo_prefix org repo = org ++ colon ∷ (repo ++ colon ∷ [])

module _ (env : Env) (cfg : Config) (hdr : Headers) (org repo : Text) (s : Store) where
  -- A tenant that the caller speaks for owns the repository at the start.
  abbrev pub IsOwner : Text → Type 0
  IsOwner t = Resolves env cfg hdr t × (owns t org repo s ≡ true)

  -- The calls that the deletion of the repository may make.
  pub data IsDemolition : Call → Type 0 where
    stated : IsDemolition statement
    identified : IsDemolition get_identity
    sandboxes_listed : IsDemolition list_sandboxes
    sessions_listed : IsDemolition list_sessions
    services_listed : IsDemolition list_services
    sandbox_removed :
        (t name : Text) (sb : Sandbox)
        → IsOwner t
        → Reported env.sessions name
        → has_prefix name (repo_prefix org repo) ≡ true
        → Reported env.sandboxes sb
        → in_cascade env t name sb ≡ true
        → IsDemolition (delete_sandbox sb.name)
    session_removed :
        (t name : Text)
        → IsOwner t
        → Reported env.sessions name
        → has_prefix name (repo_prefix org repo) ≡ true
        → IsDemolition (delete_session name)
    service_removed :
        (t : Text) (svc : ServiceRow)
        → IsOwner t
        → Reported env.services svc
        → has_prefix svc.session (repo_prefix org repo) ≡ true
        → IsDemolition (delete_service svc.name)
    repo_removed : (t : Text) → IsOwner t → IsDemolition (delete_repo org repo)

  -- Calls of these kinds only, and nobody gains a repository or loses another than this.
  pub record Sound (w : World) : Type 0 where
    pub allowed : All IsDemolition w.calls
    pub kept : (t o r : Text) → owns t o r w.store ≡ true → owns t o r s ≡ true
    pub lost :
        (t o r : Text)
        → owns t o r s ≡ true
        → (owns t o r w.store ≡ true) ⊎ ((o ≡ org) × (r ≡ repo) × Resolves env cfg hdr t)

  pub asked :
      (c : Call)
      → IsDemolition c
      → (w : World) → Sound w
      → Sound (record w { calls = w.calls ++ c ∷ [] })
  asked c a w p = record {
    allowed = All-append IsDemolition w.calls (c ∷ []) p.allowed (a, tt);
    kept = p.kept;
    lost = p.lost;
  }

  pub asks : {A : Type 0} (c : Call) (f : List Call → A) → IsDemolition c → Keeps Sound (ask c f)
  asks c f a = Keeps-ask c f (asked c a)

  sandboxes :
      (t name : Text) (sbs : List Sandbox)
      → IsOwner t
      → Reported env.sessions name
      → has_prefix name (repo_prefix org repo) ≡ true
      → All (Reported env.sandboxes) sbs
      → Keeps Sound (delete_sandboxes env t name sbs)
  unfolding delete_sandboxes
  sandboxes t name [] o n h _ = Keeps-pure tt
  sandboxes t name (sb ∷ sbs) o n h (l, ls) =
      Keeps-bind _ _
        (Keeps-if (in_cascade env t name sb) _ _
          (λ e.
            Keeps-bind _ _ (asks (delete_sandbox sb.name) _ (sandbox_removed t name sb o n h l e))
              λ _. Keeps-pure tt)
          (λ _. Keeps-pure tt))
        λ _. sandboxes t name sbs o n h ls

  forgets :
      (t name : Text) (f : Option Text) (w : World)
      → Sound w
      → Sound (record {
        store = (delete_free_session f t name w.store).1;
        calls = w.calls ++ statement ∷ [];
      })
  unfolding delete_free_session
  forgets t name none w p =
      let q = asked statement stated w p in
      record { allowed = q.allowed; kept = q.kept; lost = q.lost }
  forgets t name (some x) w p = asked statement stated w p

  cascade :
      (t name : Text)
      → IsOwner t
      → Reported env.sessions name
      → has_prefix name (repo_prefix org repo) ≡ true
      → Keeps Sound (delete_session_cascade env cfg t name)
  unfolding delete_session_cascade
  cascade t name o n h =
      Keeps-bind _ _
        (Keeps-if cfg.has_sandboxes _ _
          (λ _. Keeps-bind-ask list_sandboxes env.sandboxes _ (asked _ sandboxes_listed) λ calls.
            sandboxes t name (or_nil (env.sandboxes calls)) o n h
              (All-Reported env.sandboxes calls (env.sandboxes calls) refl))
          (λ _. Keeps-pure tt))
        λ _. Keeps-bind _ _ (asks (delete_session name) _ (session_removed t name o n h)) λ _.
          Keeps-bind _ _ (Keeps-statement env (λ f. delete_free_session f t name) (forgets t name))
            λ _. Keeps-pure tt

  pub each :
      (t : Text) (names : List Text)
      → IsOwner t
      → All (Reported env.sessions) names
      → Keeps Sound (cascade_each env cfg hdr t (repo_prefix org repo) names)
  unfolding cascade_each
  each t [] o _ = Keeps-pure tt
  each t (name ∷ names) o (n, ns) =
      Keeps-bind _ _
        (Keeps-if (has_prefix name (repo_prefix org repo)) _ _ (λ h. cascade t name o n h)
          (λ _. Keeps-pure tt))
        λ _. each t names o ns

  pub services :
      (t : Text) (svcs : List ServiceRow)
      → IsOwner t
      → All (Reported env.services) svcs
      → Keeps Sound (delete_services env cfg hdr (repo_prefix org repo) svcs)
  unfolding delete_services
  services t [] o _ = Keeps-pure tt
  services t (svc ∷ svcs) o (l, ls) =
      Keeps-bind _ _
        (Keeps-if (has_prefix svc.session (repo_prefix org repo)) _ _
          (λ h.
            Keeps-bind _ _ (asks (delete_service svc.name) _ (service_removed t svc o l h))
              λ _. Keeps-pure tt)
          (λ _. Keeps-pure tt))
        λ _. services t svcs o ls
