-- ===== src/Service/Sandboxes.antt =====
-- internal/workspacesvc/service.go: the handlers that act on one sandbox. The sandbox manager and the
-- workers of the sandboxes answer from the calls made before.
use workspace_gateway.Base.{
  ℕ, Bool, List, Option, none, some, Text, Result, ok, err, if◌then◌else◌, ◌==◌,
}
use workspace_gateway.Base.Exec.{◌>>=◌, ◌>>◌, pure, raise, require}
use workspace_gateway.Service.Access.{sandbox_accessible}
use workspace_gateway.Service.Env.{
  Env, Config, Headers, Handler, Sandbox, Call, find_sandbox, resolve_sandbox, delete_sandbox,
  tail_logs, work, not_found, internal, ask, fail_with,
}
use workspace_gateway.Service.Tenant.{sandbox_auth}

-- A job of a worker (less its exit code), a piece of its output, an entry of a directory and a piece of a file.
pub record Job : Type 0 where
  pub id : Text
  pub command : Text
  pub state : Text
  pub started_at : ℕ
  pub finished_at : ℕ

pub record Window : Type 0 where
  pub lines : List Text
  pub total_lines : ℕ
  pub start_line : ℕ
  pub end_line : ℕ
  pub done : Bool

pub record FileEntry : Type 0 where
  pub path : Text
  pub size : ℕ
  pub is_dir : Bool

pub record Logs : Type 0 where
  pub lines : List Text
  pub phase : Text
  pub restarts : ℕ
  pub message : Text

-- A request to a worker, at a URL with a token.
abbrev pub Request : Type 0 → Type 0
Request A = List Call → Text → Text → Result Text A

pub record Manager : Type 0 where
  pub found : List Call → Text → Result Text (Option Sandbox)
  pub resolved : List Call → Text → Result Text (Text × Text)
  pub deleted : List Call → Text → Result Text Bool
  -- The number of lines, and whether the container that ran before is meant.
  pub logs : List Call → Text → ℕ → Bool → Result Text Logs
  pub info : Request (Text × Text)
  pub jobs : Request (List Job)
  -- The job, the first and the last line, and the stream.
  pub job_output : Text → ℕ → ℕ → Text → Request Window
  -- The path, the depth and the limit.
  pub file_list : Text → ℕ → ℕ → Request (Bool × List FileEntry)
  -- The path, the first and the last line.
  pub file_read : Text → ℕ → ℕ → Request (Text × ℕ × ℕ × ℕ)

module _ (manager : Manager) (env : Env) (cfg : Config) (hdr : Headers) where
  abbrev pub accessed : Text → Option Sandbox → Handler Sandbox
  accessed tenant none = raise not_found
  accessed tenant (some sb) =
      require (sandbox_accessible sb tenant hdr.session_name) not_found >> pure sb

  -- What each handler starts with: a sandbox that the caller may not act on is not found.
  unfoldable pub accessible : Text → Handler Sandbox
  unfolding sandbox_auth
  accessible name = do
    tenant ← sandbox_auth env cfg hdr
    r ← ask (find_sandbox name) (λ h. manager.found h name)
    found ← fail_with (λ _. internal) r
    accessed tenant found

  -- `ownedSandbox`
  unfoldable pub owned_sandbox : Text → Handler (Text × Text)
  unfolding accessible
  owned_sandbox name = do
    sb ← accessible name
    r ← ask (resolve_sandbox name) (λ h. manager.resolved h name)
    fail_with (λ _. not_found) r

  -- `ResolveSandbox`
  unfoldable pub resolve_box : Text → Handler (Sandbox × Text × Text)
  unfolding accessible
  resolve_box name = do
    sb ← accessible name
    r ← ask (resolve_sandbox name) (λ h. manager.resolved h name)
    endpoint ← fail_with (λ _. not_found) r
    pure (sb, endpoint.0, endpoint.1)

  -- `DeleteSandbox`
  unfoldable pub delete_box : Text → Handler Bool
  unfolding accessible
  delete_box name = do
    sb ← accessible name
    r ← ask (delete_sandbox name) (λ h. manager.deleted h name)
    fail_with (λ _. internal) r

  -- The workspace and the home of a worker, if it answers.
  abbrev pub info_of : Result Text (Text × Text) → Handler (Option (Text × Text))
  info_of (ok (url, token)) = do
    r ← ask (work url token) (λ h. manager.info h url token)
    pure (elim r [ ok i ↦ some i | err _ ↦ none ])
  info_of (err _) = pure none

  -- `GetSandbox`
  unfoldable pub get_box : Text → Handler (Sandbox × Option (Text × Text))
  unfolding accessible
  get_box name = do
    sb ← accessible name
    r ← ask (resolve_sandbox sb.name) (λ h. manager.resolved h sb.name)
    info ← info_of r
    pure (sb, info)

  -- `SandboxLogs`, with the number of lines that is used where none is given.
  unfoldable pub sandbox_logs : ℕ → Text → ℕ → Bool → Handler Logs
  unfolding owned_sandbox
  sandbox_logs default_tail name tail previous = do
    endpoint ← owned_sandbox name
    r ←
        ask (tail_logs name)
          (λ h. manager.logs h name (if tail == 0 then default_tail else tail) previous)
    fail_with (λ _. internal) r

  -- A request to the worker of a sandbox that the caller may act on.
  unfoldable pub ask_worker : {A : Type 0} → Text → Request A → Handler A
  unfolding owned_sandbox
  ask_worker name request = owned_sandbox name >>= λ (url, token).
      ask (work url token) (λ h. request h url token) >>= fail_with (λ _. internal)

  -- `ListSandboxJobs`
  unfoldable pub list_sandbox_jobs : Text → Handler (List Job)
  unfolding ask_worker
  list_sandbox_jobs name = ask_worker name manager.jobs

  -- `GetSandboxJobOutput`
  unfoldable pub get_sandbox_job_output : Text → Text → ℕ → ℕ → Text → Handler Window
  unfolding ask_worker
  get_sandbox_job_output name job first last stream =
      ask_worker name (manager.job_output job first last stream)

  -- `ListSandboxFiles`
  unfoldable pub list_sandbox_files : Text → Text → ℕ → ℕ → Handler (Bool × List FileEntry)
  unfolding ask_worker
  list_sandbox_files name path depth limit = ask_worker name (manager.file_list path depth limit)

  -- `ReadSandboxFile`
  unfoldable pub read_sandbox_file : Text → Text → ℕ → ℕ → Handler (Text × ℕ × ℕ × ℕ)
  unfolding ask_worker
  read_sandbox_file name path first last = ask_worker name (manager.file_read path first last)
