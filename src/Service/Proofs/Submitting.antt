-- ===== src/Service/Proofs/Submitting.antt =====
-- What SubmitMR of internal/workspacesvc/service.go and notifyMRSubmitted of mr_notify.go do.
use workspace_gateway.Base.{
  true, false, ◌||◌, not, not-true, [], ◌∷◌, ◌≡◌, refl, ap, null, All, Text, codes, text_eq, Result,
  ok, err, ℕ, has_prefix-append,
}
use workspace_gateway.Base.Exec.{
  Keeps, Keeps-pure, Keeps-raise, Keeps-if, Keeps-bind, Keeps-require, Keeps-attempt, require-Keeps,
}
use workspace_gateway.Members.Store.{Store, add_mr_submission}
use workspace_gateway.Roles.Names.{valid_component, session_name}
use workspace_gateway.Service.Env.{
  Env, Config, Headers, World, invalid_argument, not_found, Call, ForgeError, create_session, fork,
  branch_exists, submit, create_mr, delete_branch, merge_mr, close_mr, create_branch, delete_repo,
  delete_session, delete_sandbox, publish,
}
use workspace_gateway.Service.Proofs.Calls.{
  Allows, Only, asks, states, settles, resolves, names_tenant, ensures,
}
use workspace_gateway.Service.Proofs.Rules.{Keeps-fail_with, Keeps-fail_if}
use workspace_gateway.Service.Requests.{
  SubmitRequest, is_mr_branch, mr_branch_name, ensure_visible, notify_submitted, created_or_cleaned,
  sent, submit_request, submit_error, mr_error,
}
use workspace_gateway.Service.Sessions.{developer, or_main}

-- The request names a target: a legal branch that is not itself the branch of a request, and files.
abbrev pub IsTarget : SubmitRequest → Type 0
IsTarget m =
    (valid_component m.base ≡ true) × (is_mr_branch m.base ≡ false) × (null m.files ≡ false)

-- What a submission may do to the repository and to the agent's sessions.
abbrev pub Submits : SubmitRequest → Call → Type 0
Submits m (submit o r base head) =
    (o ≡ m.org) × (r ≡ m.repo) × (base ≡ m.base) × (is_mr_branch head ≡ true) × IsTarget m
Submits m (create_mr o r title head base) =
    (o ≡ m.org) × (r ≡ m.repo) × (base ≡ m.base) × (is_mr_branch head ≡ true) × IsTarget m
Submits m (delete_branch o r b) = (o ≡ m.org) × (r ≡ m.repo) × (is_mr_branch b ≡ true)
Submits m (create_session name preset model locale) =
    (name ≡ session_name m.org m.repo (or_main m.base)) × (preset ≡ developer)
Submits m (publish tenant session) = session ≡ session_name m.org m.repo (or_main m.base)
Submits m (merge_mr o r i) = ⊥
Submits m (close_mr o r i) = ⊥
Submits m (create_branch o r name from) = ⊥
Submits m (delete_repo o r) = ⊥
Submits m (delete_session name) = ⊥
Submits m (delete_sandbox name) = ⊥
Submits m (fork parent name message preset) = ⊥
Submits m c = Unit {0}

Submits-Allows : (m : SubmitRequest) → Allows (Submits m)
Submits-Allows m = record {
  states = tt;
  identifies = tt;
  configures = λ key. tt;
  finds_session = λ name. tt;
  lists_sandboxes = tt;
  finds_repo = λ org repo. tt;
  ensures_repo = λ org repo. tt;
}

or_main_twice : (b : Text) → or_main (or_main b) ≡ or_main b
or_main_twice [] = refl
or_main_twice (c ∷ b) = refl

-- A generated name is that of a request's branch.
mr_branch_name-is_mr_branch :
    (origin nanos : Text) → is_mr_branch (mr_branch_name origin nanos) ≡ true
unfolding is_mr_branch mr_branch_name
mr_branch_name-is_mr_branch origin nanos = has_prefix-append (codes "mr/") _

module _ (env : Env) (cfg : Config) (hdr : Headers) (m : SubmitRequest) where
  abbrev Fine : World → Type 0
  Fine = Only (Submits m) (Submits-Allows m)

  sees : Keeps Fine (ensure_visible env cfg hdr m.org m.repo)
  unfolding ensure_visible
  sees = Keeps-bind _ _ (resolves (Submits m) (Submits-Allows m) env cfg hdr) λ t.
      Keeps-bind _ _ (states (Submits m) (Submits-Allows m) env _) λ b. require-Keeps b not_found

  notifies : (tenant : Text) → Keeps Fine (notify_submitted env cfg hdr tenant m.org m.repo m.base)
  unfolding notify_submitted
  notifies tenant =
      Keeps-if
        (not cfg.has_bus || text_eq (session_name m.org m.repo (or_main m.base)) hdr.session_name) _
        _ (λ _. Keeps-pure tt)
        (λ _.
          Keeps-bind _ _
            (Keeps-attempt _ (
              ensures (Submits m) (Submits-Allows m) env cfg hdr m.org m.repo (or_main m.base) [] []
                (λ v l. (ap (session_name m.org m.repo) (or_main_twice m.base), refl))))
            λ r.
              Keeps-bind _ _ (asks (Submits m) (Submits-Allows m) (publish tenant _) _ refl)
                λ e. Keeps-pure tt)

  abbrev Aimed : Text → Type 0
  Aimed head =
      (m.org ≡ m.org)
      × (m.repo ≡ m.repo)
      × (m.base ≡ m.base)
      × (is_mr_branch head ≡ true)
      × IsTarget m

  cleans :
      (head : Text) (made : Result ForgeError (ℕ × Text))
      → is_mr_branch head ≡ true
      → Keeps Fine (created_or_cleaned env cfg hdr m.org m.repo head made)
  cleans head (ok r) h = Keeps-pure r
  cleans head (err e) h =
      Keeps-bind _ _
        (asks (Submits m) (Submits-Allows m) (delete_branch m.org m.repo head) _ (refl, refl, h))
        λ d. Keeps-raise (mr_error e)

  -- From the submission of the files on.
  sends :
      (origin title nanos : Text)
      → IsTarget m
      → Keeps Fine (sent env cfg hdr m origin title (mr_branch_name origin nanos))
  unfolding submit_request
  sends origin title nanos target =
      let head = mr_branch_name origin nanos in
      let h = mr_branch_name-is_mr_branch origin nanos in
      let aim : Aimed head = (refl, refl, refl, h, target) in
      let S = Submits m in
      let al = Submits-Allows m in
      Keeps-bind _ _ (asks S al (submit m.org m.repo m.base head) _ aim) λ s.
        Keeps-bind _ _ (Keeps-fail_if submit_error s) λ _.
          Keeps-bind _ _ (asks S al (create_mr m.org m.repo title head m.base) _ aim) λ made.
            Keeps-bind _ _ (cleans head made h) λ r.
              Keeps-bind _ _ (names_tenant S al env cfg hdr) λ tenant.
                Keeps-bind _ _
                  (record {
                    at = λ w p.
                        (settles S al env (λ f.
                            add_mr_submission f (env.now w.calls) tenant m.org m.repo r.0 m.base
                              head origin)).at
                          w p;
                  })
                  λ _.
                    Keeps-bind _ _ (names_tenant S al env cfg hdr)
                      λ tenant'. Keeps-bind _ _ (notifies tenant') λ _. Keeps-pure _

  submit_request-Keeps : Keeps Fine (submit_request env cfg hdr m)
  unfolding submit_request
  submit_request-Keeps =
      let S = Submits m in
      let al = Submits-Allows m in
      Keeps-bind _ _ sees λ _. Keeps-require _ invalid_argument _ λ named.
        Keeps-require _ invalid_argument _ λ valid. Keeps-require _ invalid_argument _ λ plain.
          Keeps-bind _ _ (asks S al (branch_exists m.org m.repo m.base) _ tt) λ found.
            Keeps-bind _ _ (Keeps-fail_with _ found) λ exists. Keeps-require exists not_found _ λ _.
              Keeps-require _ invalid_argument _ λ files.
                Keeps-bind _ _ (record { at = λ w p. p })
                  λ nanos. sends _ _ nanos (valid, not-true _ plain, not-true _ files)

-- SubmitMR submits only to the base branch that it is given, which is a legal name and no request's own
-- branch, and only with files, on a branch whose name begins with `mr/`; it deletes no branch but such a
-- one, neither merges, closes nor forks anything, and creates no session but the base branch's, for a
-- developer.
pub submit_request-Submits :
    (env : Env) (cfg : Config) (hdr : Headers) (m : SubmitRequest) (s : Store)
    → All (Submits m) (submit_request env cfg hdr m (record { store = s; calls = [] })).1.calls
submit_request-Submits env cfg hdr m s =
    (submit_request-Keeps env cfg hdr m).at (record { store = s; calls = [] }) tt
