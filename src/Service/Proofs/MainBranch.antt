-- ===== src/Service/Proofs/MainBranch.antt =====
-- Which sessions and branches DeleteBranch and DeleteBranchSession of internal/workspacesvc/service.go
-- delete, whatever the agent, Forgejo and the database answer.
use workspace_gateway.Base.{
  not-true, true, ◌&&◌, List, [], ◌∷◌, ◌++◌, Option, none, some, ◌≡◌, ◌≢◌, refl, sym, ◌∙◌, any, All,
  Text, text_ne, text_eq,
}
use workspace_gateway.Base.Exec.{
  ◌>>=◌, ◌>>◌, pure, Keeps, Keeps-pure, Keeps-if, Keeps-bind, Keeps-require,
}
use workspace_gateway.Members.Store.{Store, is_repo, delete_free_session, free_role}
use workspace_gateway.Roles.Names.{main_branch, valid_component, parse_session, session_name}
use workspace_gateway.Roles.Sessions.{parse-session_name, parse_session_sound}
use workspace_gateway.Service.Env.{
  Env, Config, Headers, World, invalid_argument, not_found, internal, Sandbox, Call, statement,
  get_identity, list_sandboxes, delete_session, delete_sandbox, delete_branch, ask, fail_if,
}
use workspace_gateway.Service.Proofs.Calls.{valid_parts}
use workspace_gateway.Service.Proofs.Rules.{
  Reported, All-Reported, Keeps-bind-ask, Keeps-ask, Keeps-fail_if, Keeps-statement,
  Keeps-bind-resolve, Resolves, Steady, Steady-ask, Keeps-bind-owns, Keeps-bind-statement_owns,
}
use workspace_gateway.Service.Removal.{
  or_nil, in_cascade, delete_sandboxes, delete_session_cascade, is_true, delete_parsed,
  delete_branch_session, remove_branch,
}

module _ (env : Env) (cfg : Config) (hdr : Headers) (start : Store) where
  -- A tenant that the caller speaks for owns the repository.
  abbrev pub Owned : Text → Text → Type 0
  Owned org repo =
      (t : Text) × Resolves env cfg hdr t × (any (is_repo t org repo) start.repo_owners ≡ true)

  -- The calls that the deletion of a session may make: of the session itself, of its own sandboxes,
  -- and of the branch that it stands for, unless that is main.
  pub data IsRemoval (session : Text) : Call → Type 0 where
    stated : IsRemoval session statement
    identified : IsRemoval session get_identity
    listed : IsRemoval session list_sandboxes
    sandbox_removed :
        (t : Text) (sb : Sandbox)
        → Resolves env cfg hdr t
        → Reported env.sandboxes sb
        → in_cascade env t session sb ≡ true
        → IsRemoval session (delete_sandbox sb.name)
    branch_session_removed :
        (org repo branch : Text)
        → parse_session session ≡ some (org, repo, branch)
        → Owned org repo
        → IsRemoval session (delete_session session)
    free_session_removed : parse_session session ≡ none → IsRemoval session (delete_session session)
    branch_removed :
        (org repo branch : Text)
        → session ≡ session_name org repo branch
        → Owned org repo
        → branch ≢ main_branch
        → IsRemoval session (delete_branch org repo branch)

  module _ (session : Text) where
    abbrev Calm : World → Type 0
    Calm = Steady start (IsRemoval session)

    does :
        (c : Call)
        → IsRemoval session c
        → (w : World) → Calm w
        → Calm (record w { calls = w.calls ++ c ∷ [] })
    does = Steady-ask start (IsRemoval session)

    sandboxes-Keeps :
        (t : Text) (sbs : List Sandbox)
        → Resolves env cfg hdr t
        → All (Reported env.sandboxes) sbs
        → Keeps Calm (delete_sandboxes env t session sbs)
    unfolding delete_sandboxes
    sandboxes-Keeps t [] rt _ = Keeps-pure tt
    sandboxes-Keeps t (sb ∷ sbs) rt (l, ls) =
        Keeps-bind _ _
          (Keeps-if (in_cascade env t session sb) _ _
            (λ e.
              Keeps-bind _ _
                (Keeps-ask (delete_sandbox sb.name) _ (does _ (sandbox_removed t sb rt l e)))
                λ _. Keeps-pure tt)
            (λ _. Keeps-pure tt))
          λ _. sandboxes-Keeps t sbs rt ls

    cascade-Keeps :
        (t : Text)
        → Resolves env cfg hdr t
        → IsRemoval session (delete_session session)
        → Keeps Calm (delete_session_cascade env cfg t session)
    unfolding delete_session_cascade delete_free_session
    cascade-Keeps t rt a =
        Keeps-bind _ _
          (Keeps-if cfg.has_sandboxes _ _
            (λ _. Keeps-bind-ask list_sandboxes env.sandboxes _ (does _ listed) λ h.
              sandboxes-Keeps t (or_nil (env.sandboxes h)) rt
                (All-Reported env.sandboxes h (env.sandboxes h) refl))
            (λ _. Keeps-pure tt))
          λ _. Keeps-bind _ _ (Keeps-ask (delete_session session) _ (does _ a)) λ _.
            Keeps-bind _ _ (Keeps-statement env (λ f. delete_free_session f t session) forgets)
              λ _. Keeps-pure tt
      where
        forgets :
            (f : Option Text) (w : World)
            → Calm w
            → Calm (record {
              store = (delete_free_session f t session w.store).1;
              calls = w.calls ++ statement ∷ [];
            })
        forgets none w p =
            does statement stated
              (record w { store = (delete_free_session none t session w.store).1 }) p
        forgets (some x) w p = does statement stated w p

    branch-Keeps :
        (org repo branch : Text)
        → IsRemoval session (delete_branch org repo branch)
        → Keeps Calm (
            ask (delete_branch org repo branch) (λ h. env.branch_deleted h org repo branch) >>= λ e.
            fail_if (λ _. internal) e >> pure true)
    branch-Keeps org repo branch a =
        Keeps-bind _ _ (Keeps-ask _ _ (does _ a))
          λ e. Keeps-bind _ _ (Keeps-fail_if _ e) λ _. Keeps-pure true

    parsed-Keeps :
        (t : Text) (p : Option (Text × Text × Text))
        → parse_session session ≡ p
        → Resolves env cfg hdr t
        → Keeps Calm (delete_parsed env cfg hdr t session p)
    unfolding delete_branch_session free_role
    parsed-Keeps t none e rt =
        Keeps-bind _ _
          (Keeps-bind _ _ (Keeps-statement env (λ f. free_role f t session) unread)
            λ r. Keeps-pure _)
          λ role.
            Keeps-require _ not_found _
              λ _. Keeps-bind _ _ (cascade-Keeps t rt (free_session_removed e)) λ _. Keeps-pure true
      where
        unread :
            (f : Option Text) (w : World)
            → Calm w
            → Calm (record {
              store = (free_role f t session w.store).1;
              calls = w.calls ++ statement ∷ [];
            })
        unread none w p = does statement stated w p
        unread (some x) w p = does statement stated w p
    parsed-Keeps t (some (org, repo, branch)) e rt =
        Keeps-bind-statement_owns start (IsRemoval session) env t org repo _ stated λ b own.
          Keeps-require (is_true b) not_found _ λ is_owned.
            let has : Owned org repo = (t, rt, own is_owned) in
            Keeps-bind _ _ (cascade-Keeps t rt (branch_session_removed org repo branch e has)) λ _.
              Keeps-if (text_eq branch main_branch) _ _ (λ _. Keeps-pure true)
                (λ m. branch-Keeps org repo branch (
                  branch_removed org repo branch (parse_session_sound session org repo branch e).0
                    has (text_ne branch main_branch m)))

    delete_branch_session-Keeps : Keeps Calm (delete_branch_session env cfg hdr session)
    unfolding delete_branch_session
    delete_branch_session-Keeps =
        Keeps-bind-resolve env cfg hdr (does get_identity identified) _
          λ t rt. parsed-Keeps t (parse_session session) refl rt

  module _ (org repo branch : Text) where
    remove_branch-Keeps :
        Keeps (Calm (session_name org repo branch)) (remove_branch env cfg hdr org repo branch)
    unfolding remove_branch
    remove_branch-Keeps =
        let session = session_name org repo branch in
        Keeps-bind-resolve env cfg hdr (does session get_identity identified) _ λ t rt.
          Keeps-require _ invalid_argument _ λ v. Keeps-require _ invalid_argument _ λ m.
            Keeps-bind-owns start (IsRemoval session) env t org repo _ stated λ b own.
              Keeps-require b not_found _ λ is_owned.
                let has : Owned org repo = (t, rt, sym own ∙ is_owned) in
                Keeps-bind _ _
                  (cascade-Keeps session t rt
                    (branch_session_removed org repo branch (parses v) has))
                  λ _. branch-Keeps session org repo branch (
                    branch_removed org repo branch refl has
                      (text_ne branch main_branch (not-true _ m)))
      where
        parses :
            (valid_component org && (valid_component repo && valid_component branch)) ≡ true
            → parse_session (session_name org repo branch) ≡ some (org, repo, branch)
        parses v =
            let (ho, hr, hb) = valid_parts _ _ _ v in parse-session_name org repo branch ho hr hb

-- DeleteBranchSession deletes only the session that it is given, sandboxes that the manager listed, are
-- the caller's tenant's or nobody's and belong to the session, and the branch that it stands for, which is never main. A branch
-- session is deleted, with its branch, only where a tenant of the caller's owns its repository. The tables of
-- the owners of repositories and of organisations stay as they are.
pub delete_branch_session_calls :
    (env : Env) (cfg : Config) (hdr : Headers) (session : Text) (s : Store)
    → let w = (delete_branch_session env cfg hdr session (record { store = s; calls = [] })).1 in
      (w.store.repo_owners ≡ s.repo_owners)
      × (w.store.org_owners ≡ s.org_owners)
      × All (IsRemoval env cfg hdr s session) w.calls
delete_branch_session_calls env cfg hdr session s =
    (delete_branch_session-Keeps env cfg hdr s session).at (record { store = s; calls = [] })
      (refl, refl, tt)

-- DeleteBranch makes only calls that the deletion of the branch's session may make: it too never
-- deletes main, nor a branch of a repository that no tenant of the caller's owns.
remove_branch_calls :
    (env : Env) (cfg : Config) (hdr : Headers) (org repo branch : Text) (s : Store)
    → let w = (remove_branch env cfg hdr org repo branch (record { store = s; calls = [] })).1 in
      (w.store.repo_owners ≡ s.repo_owners)
      × (w.store.org_owners ≡ s.org_owners)
      × All (IsRemoval env cfg hdr s (session_name org repo branch)) w.calls
remove_branch_calls env cfg hdr org repo branch s =
    (remove_branch-Keeps env cfg hdr s org repo branch).at (record { store = s; calls = [] })
      (refl, refl, tt)
