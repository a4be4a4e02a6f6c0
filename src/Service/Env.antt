-- ===== src/Service/Env.antt =====
-- What the handlers of internal/workspacesvc/service.go ask of others. The agent, Forgejo, the
-- cluster and the SQLite driver are parameters: each answer is any function of the calls made before.
-- Those calls are the state beside the ownership tables.
use workspace_gateway.Base.{ℕ, Bool, List, [], ◌∷◌, ◌++◌, Option, none, some, Text, Result, ok, err}
use workspace_gateway.Base.Exec.{Exec, ◌>>=◌}
use workspace_gateway.Members.Store.{Store}

-- The connect codes that the handlers return.
pub data Code : Type 0 where
  unauthenticated permission_denied invalid_argument not_found failed_precondition internal
        unavailable :
      Code
  -- An error of the agent, passed on.
  from_agent : Text → Code

-- An error of the Forgejo client: `ErrConflict`, `ErrNotFound` or another.
pub data ForgeError : Type 0 where
  conflict : Text → ForgeError
  missing : ForgeError
  forge_failed : Text → ForgeError

-- The fields of `MRInfo` that the handlers read.
pub record MrInfo : Type 0 where
  pub base : Text
  pub head : Text
  pub mergeable : Bool

-- An error of `gitcommit.Submit`: `ErrNoChanges` or `ErrIgnoredPath`, or another.
pub data SubmitError : Type 0 where
  rejected_files submit_failed : SubmitError

-- `gitcommit.FileOp`
pub record FileOp : Type 0 where
  pub path : Text
  pub operation : Text
  pub content : Text

-- `sandboxmgr.Sandbox`, as far as this service reads it.
pub record Sandbox : Type 0 where
  pub name : Text
  pub phase : Text
  pub ready : Bool
  pub creator : Text
  pub session : Text
  pub created_at : ℕ

-- The fields of `servicesmgr.Service` that the deletion of a repository reads.
pub record ServiceRow : Type 0 where
  pub name : Text
  pub session : Text

pub data Call : Type 0 where
  statement get_identity list_sessions list_sandboxes list_services : Call
  get_config get_session delete_session delete_sandbox delete_service ensure_org : Text → Call
  -- name, preset, model, locale
  create_session : Text → Text → Text → Text → Call
  -- parent, name, message, preset
  fork : Text → Text → Text → Text → Call
  repo_exists ensure_repo delete_repo : Text → Text → Call
  branch_exists delete_branch : Text → Text → Text → Call
  -- org, repo, name, from
  create_branch : Text → Text → Text → Text → Call
  -- org, repo, base, head
  submit : Text → Text → Text → Text → Call
  -- org, repo, title, head, base
  create_mr : Text → Text → Text → Text → Text → Call
  get_mr merge_mr close_mr : Text → Text → ℕ → Call
  comment_mr : Text → Text → ℕ → Text → Call
  find_sandbox resolve_sandbox tail_logs : Text → Call
  -- A request to the worker of a sandbox: its URL and its token.
  work : Text → Text → Call
  -- tenant, session
  publish : Text → Text → Call

pub record Env : Type 0 where
  -- The driver's error for the next SQL statement, and its clock.
  pub statement_fault : List Call → Option Text
  pub now : List Call → ℕ
  pub unix_nano : List Call → Text
  pub identity : List Call → Result Text Text
  pub config : List Call → Text → Result Text Text
  -- GetSession answers with a session.
  pub has_session : List Call → Text → Bool
  pub sessions : List Call → Result Text (List Text)
  pub created : List Call → Text → Option Text
  pub forked : List Call → Text → Option Text
  pub session_deleted : List Call → Text → Option Text
  pub sandboxes : List Call → Result Text (List Sandbox)
  pub sandbox_deleted : List Call → Text → Option Text
  pub services : List Call → Result Text (List ServiceRow)
  pub service_deleted : List Call → Text → Option Text
  pub org_ensured : List Call → Text → Option ForgeError
  pub repo_found : List Call → Text → Text → Result ForgeError Bool
  -- Whether the repository was created.
  pub repo_ensured : List Call → Text → Text → Result ForgeError Bool
  pub repo_deleted : List Call → Text → Text → Option ForgeError
  pub branch_found : List Call → Text → Text → Text → Result ForgeError Bool
  pub branch_created : List Call → Text → Text → Text → Option ForgeError
  pub branch_deleted : List Call → Text → Text → Text → Option ForgeError
  pub submitted : List Call → Text → List FileOp → Option SubmitError
  -- The index and the URL of the new merge request.
  pub mr_created : List Call → Text → Result ForgeError (ℕ × Text)
  pub mr_found : List Call → Text → Text → ℕ → Result ForgeError MrInfo
  pub mr_merged : List Call → Text → Text → ℕ → Option ForgeError
  pub mr_closed : List Call → Text → Text → ℕ → Option ForgeError
  pub mr_commented : List Call → Text → Text → ℕ → Option ForgeError
  pub published : List Call → Text → Option Text

-- The deployment's settings that the handlers read. The optional backends are wired or not.
pub record Config : Type 0 where
  pub svc_token : Text
  pub svc_tenant : Text
  pub sandbox_org : Text
  pub sandbox_image_registry_host : Text
  pub has_sandboxes : Bool
  pub has_services : Bool
  pub has_bus : Bool

-- The inbound headers that are read: `Authorization` may have several values. Absent headers, and a
-- handler without any, are empty texts.
pub record Headers : Type 0 where
  pub authorization : List Text
  pub abc_tenant : Text
  pub session_name : Text

pub record World : Type 0 where
  pub store : Store
  pub calls : List Call

abbrev pub Handler : Type 0 → Type 0
Handler = Exec Code World

-- The call is recorded, and answered from the calls before it.
unfoldable pub ask : {A : Type 0} → Call → (List Call → A) → Handler A
ask c answer w = (ok (answer w.calls), record w { calls = w.calls ++ c ∷ [] })

-- An error as a code, by a function of the handler.
unfoldable pub fail_with : {E A : Type 0} → (E → Code) → Result E A → Handler A
fail_with f (ok a) w = (ok a, w)
fail_with f (err e) w = (err (f e), w)

unfoldable pub fail_if : {E : Type 0} → (E → Code) → Option E → Handler (Unit {0})
fail_if f none w = (ok tt, w)
fail_if f (some e) w = (err (f e), w)

-- A statement on the tables, whose result stays a value.
unfoldable pub statement_on :
    {A : Type 0} → Env → (Option Text → Exec Text Store A) → Handler (Result Text A)
statement_on env m w =
    let (r, s') = m (env.statement_fault w.calls) w.store in
    (ok r, record { store = s'; calls = w.calls ++ statement ∷ [] })

-- A statement whose failure is an internal error.
unfoldable pub on_store : {A : Type 0} → Env → (Option Text → Exec Text Store A) → Handler A
on_store env m = statement_on env m >>= fail_with (λ e. internal)
