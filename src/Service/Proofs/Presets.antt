-- ===== src/Service/Proofs/Presets.antt =====
-- The sessions that EnsureBranchSession, ForkBranchSession and CreateFreeSession of
-- internal/workspacesvc/service.go have the agent create: their names and their presets.
use workspace_gateway.Base.{
  true, ◌||◌, not, [], Option, none, some, ◌≡◌, ◌≢◌, ◌⊎◌, refl, ap, ◌∙◌, arith, null, All, Text,
  text_eq, text_eq_iff,
}
use workspace_gateway.Base.Exec.{Keeps, Keeps-pure, Keeps-raise, Keeps-bind, Keeps-require}
use workspace_gateway.Members.Store.{Store}
use workspace_gateway.Roles.Names.{main_branch, valid_component, parse_session, session_name}
use workspace_gateway.Roles.Sessions.{parse_session_of_component}
use workspace_gateway.Service.Env.{
  Env, Config, Headers, permission_denied, invalid_argument, not_found, from_agent, Call,
  create_session, fork,
}
use workspace_gateway.Service.Proofs.Calls.{
  Allows, Only, asks, states, resolves, creates, fields, exists, ensures, valid_parts,
}
use workspace_gateway.Service.Proofs.Rules.{Keeps-fail_if}
use workspace_gateway.Service.Sessions.{
  developer, admin, explorer, or_main, ensure_branch_session, fork_from, fork_branch_session,
  create_free_session, branch_target_allowed,
}

-- Each session that the calls create has a name and a preset that `R` allows, and each that they fork a
-- parent, a name and a preset that `F` allows.
abbrev pub Creates : (Text → Text → Type 0) → (Text → Text → Text → Type 0) → Call → Type 0
Creates R F (create_session name preset model locale) = R name preset
Creates R F (fork parent name message preset) = F parent name preset
Creates R F c = Unit {0}

abbrev pub NoCreation : Text → Text → Type 0
NoCreation name preset = ⊥

abbrev pub NoFork : Text → Text → Text → Type 0
NoFork parent name preset = ⊥

Creates-Allows : (R : Text → Text → Type 0) (F : Text → Text → Text → Type 0) → Allows (Creates R F)
Creates-Allows R F = record {
  states = tt;
  identifies = tt;
  configures = λ key. tt;
  finds_session = λ name. tt;
  lists_sandboxes = tt;
  finds_repo = λ org repo. tt;
  ensures_repo = λ org repo. tt;
}

-- The name and preset of a branch session.
abbrev pub IsBranchSession : Text → Text → Text → Text → Text → Type 0
IsBranchSession org repo branch name preset =
    (name ≡ session_name org repo branch)
    × (preset ≡ developer)
    × (valid_component org ≡ true)
    × (valid_component repo ≡ true)
    × (valid_component branch ≡ true)

-- EnsureBranchSession creates no session but the one of the branch, main where none is named, with
-- the preset of a developer, and that only for three valid components. It forks none.
pub ensure_branch_session-Creates :
    (env : Env) (cfg : Config) (hdr : Headers) (org repo branch model locale : Text) (s : Store)
    → All
        (Creates (IsBranchSession org repo (or_main branch)) NoFork)
        (ensure_branch_session env cfg hdr org repo branch model locale
          (record { store = s; calls = [] })).1.calls
ensure_branch_session-Creates env cfg hdr org repo branch model locale s =
    let R = IsBranchSession org repo (or_main branch) in
    (ensures (Creates R NoFork) (Creates-Allows R NoFork) env cfg hdr org repo branch model locale
        (λ v l. let vs = valid_parts _ _ _ v in (refl, refl, vs.0, vs.1, vs.2))).at
      (record { store = s; calls = [] }) tt

-- The parent, the name and the preset of a session forked from `main`, the session of the main branch of
-- a repository.
abbrev pub IsFork : Headers → Text → Text → Text → Text → Text → Type 0
IsFork hdr main branch parent name preset =
    (parent ≡ main)
    × (org : Text) × (repo : Text) × (parse_session main ≡ some (org, repo, main_branch))
    × (name ≡ session_name org repo branch)
    × (preset ≡ developer)
    × (branch ≢ main_branch)
    × (valid_component branch ≡ true)
    × (branch_target_allowed hdr.session_name org repo ≡ true)

fork_name :
    (b : Text)
    → not (null b || (not (valid_component b) || text_eq b main_branch)) ≡ true
    → (valid_component b ≡ true) × (b ≢ main_branch)
fork_name b h = ground (arith, text_eq_iff b main_branch)

module _ (env : Env) (cfg : Config) (hdr : Headers) (parent branch message : Text) where
  abbrev F : Text → Text → Text → Type 0
  F = IsFork hdr parent branch

  forked :
      (t : Text) (p : Option (Text × Text × Text))
      → parse_session parent ≡ p
      → Keeps
          (Only (Creates NoCreation F) (Creates-Allows NoCreation F))
          (fork_from env cfg hdr t parent branch message p)
  unfolding fork_branch_session
  forked t none e = Keeps-raise invalid_argument
  forked t (some (org, repo, parent_branch)) e = Keeps-require _ invalid_argument _ λ v.
      Keeps-require _ permission_denied _ λ main. Keeps-require _ permission_denied _ λ may.
        Keeps-bind _ _ (states (Creates NoCreation F) (Creates-Allows NoCreation F) env _)
          λ is_owned. Keeps-require is_owned not_found _ λ _.
            Keeps-bind _ _
              (exists (Creates NoCreation F) (Creates-Allows NoCreation F) env cfg hdr parent)
              λ ex. Keeps-require ex not_found _ λ _.
                let parsed : parse_session parent ≡ some (org, repo, main_branch) =
                  e
                  ∙ ap (λ b. some (org, repo, b))
                      ((text_eq_iff parent_branch main_branch).0 main) in
                let (valid, other) = fork_name branch v in
                Keeps-bind _ _
                  (asks (Creates NoCreation F) (Creates-Allows NoCreation F)
                    (fork parent (session_name org repo branch) message developer) _
                    (refl, org, repo, parsed, refl, refl, other, valid, may))
                  λ r. Keeps-bind _ _ (Keeps-fail_if from_agent r) λ _.
                    Keeps-bind _ _
                      (fields (Creates NoCreation F) (Creates-Allows NoCreation F) env cfg hdr _)
                      λ refs. Keeps-pure _

  fork_branch_session-Keeps :
      Keeps
        (Only (Creates NoCreation F) (Creates-Allows NoCreation F))
        (fork_branch_session env cfg hdr parent branch message)
  unfolding fork_branch_session
  fork_branch_session-Keeps =
      Keeps-bind _ _ (resolves (Creates NoCreation F) (Creates-Allows NoCreation F) env cfg hdr)
        λ t. forked t (parse_session parent) refl

-- ForkBranchSession forks only the session that it is given, and that only if it is the session of a main
-- branch, to another branch of the same repository, as a developer, and not out of the session of
-- another repository. It creates no other session.
pub fork_branch_session-Creates :
    (env : Env) (cfg : Config) (hdr : Headers) (parent branch message : Text) (s : Store)
    → All
        (Creates NoCreation (IsFork hdr parent branch))
        (fork_branch_session env cfg hdr parent branch message
          (record { store = s; calls = [] })).1.calls
fork_branch_session-Creates env cfg hdr parent branch message s =
    (fork_branch_session-Keeps env cfg hdr parent branch message).at
      (record { store = s; calls = [] }) tt

-- The name and preset of a free session.
abbrev pub IsFreeSession : Text → Text → Type 0
IsFreeSession name preset = ((preset ≡ admin) ⊎ (preset ≡ explorer)) × (parse_session name ≡ none)

free_role_cases :
    (r : Text) → (text_eq r admin || text_eq r explorer) ≡ true → (r ≡ admin) ⊎ (r ≡ explorer)
free_role_cases r h = ground (arith, text_eq_iff r admin, text_eq_iff r explorer)

free_name : (n : Text) → not (null n || not (valid_component n)) ≡ true → parse_session n ≡ none
free_name n h = ground (arith, parse_session_of_component n)

-- CreateFreeSession creates only sessions of the two free roles, under a name that does
-- not parse as a branch's session name.
create_free_session-Creates :
    (env : Env) (cfg : Config) (hdr : Headers) (role name model locale : Text) (s : Store)
    → All
        (Creates IsFreeSession NoFork)
        (create_free_session env cfg hdr role name model locale
          (record { store = s; calls = [] })).1.calls
unfolding create_free_session
create_free_session-Creates env cfg hdr role name model locale s =
    let R = IsFreeSession in
    (Keeps-bind _ _ (resolves (Creates R NoFork) (Creates-Allows R NoFork) env cfg hdr) λ t.
        Keeps-require _ invalid_argument _ λ r. Keeps-require _ invalid_argument _ λ n.
          Keeps-bind _ _ (states (Creates R NoFork) (Creates-Allows R NoFork) env _) λ _.
            Keeps-bind _ _
              (creates (Creates R NoFork) (Creates-Allows R NoFork) env cfg hdr name role model
                locale (λ l. (free_role_cases role r, free_name name n)))
              λ _. Keeps-pure _).at
      (record { store = s; calls = [] }) tt
