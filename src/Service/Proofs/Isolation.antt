-- ===== src/Service/Proofs/Isolation.antt =====
-- The calls that the handlers of one sandbox in internal/workspacesvc/service.go make.
use workspace_gateway.Base.{
  ℕ, Bool, true, false, List, [], ◌∷◌, ◌++◌, Option, none, some, ◌≡◌, inl, refl, ap, ◌∙◌, All,
  All-append, Text, Result, ok, err,
}
use workspace_gateway.Base.Exec.{◌>>=◌, ◌>>◌, resume, require, pure, Keeps, Keeps-pure, Keeps-bind}
use workspace_gateway.Service.Access.{sandbox_accessible}
use workspace_gateway.Service.Env.{
  Env, Config, Headers, World, Code, Handler, Sandbox, Call, get_identity, find_sandbox,
  resolve_sandbox, delete_sandbox, tail_logs, work, not_found, ask,
}
use workspace_gateway.Service.Proofs.Rules.{
  Keeps-ask, Keeps-bind-ask, Keeps-bind-fail_with, Keeps-fail_with, Resolves, Keeps-bind-resolve,
}
use workspace_gateway.Service.Sandboxes.{
  Manager, Request, accessed, accessible, owned_sandbox, resolve_box, delete_box, info_of, get_box,
  sandbox_logs, ask_worker, list_sandbox_jobs, get_sandbox_job_output, list_sandbox_files,
  read_sandbox_file,
}
use workspace_gateway.Service.Tenant.{service_tenant, service_or, resolve_tenant, sandbox_auth}

module _ {A B C : Type 0} (P : World → Type 0) (f : A → Handler B) (k : B → Handler C) where
  resumed :
      (r : Result Code A) (s : World)
      → P (resume r (λ a. f a >>= k) s).1
      → P (resume (resume r f s).0 k (resume r f s).1).1
  unfolding ◌>>=◌
  resumed (ok a) s h = h
  resumed (err e) s h = h

  -- Two calls after one another are followed by a third.
  reassociate : (m : Handler A) → Keeps P (m >>= λ a. f a >>= k) → Keeps P (m >>= f >>= k)
  unfolding ◌>>=◌
  reassociate m h = record { at = λ s p. resumed (m s).0 (m s).1 (h.at s p) }

module _ (manager : Manager) (env : Env) (cfg : Config) (hdr : Headers) (name : Text) where
  -- The manager finds the sandbox under the name, and a tenant that the caller speaks for may act on it
  -- in the caller's session.
  pub record IsOpen (sb : Sandbox) : Type 0 where
    pub tenant : Text
    pub resolves : Resolves env cfg hdr tenant
    pub calls : List Call
    pub is_found : manager.found calls name ≡ ok (some sb)
    pub accessible : sandbox_accessible sb tenant hdr.session_name ≡ true

  -- The calls that may be made. A worker is asked at an endpoint that the manager gave.
  pub data IsAccess : Call → Type 0 where
    identified : IsAccess get_identity
    looked_up : IsAccess (find_sandbox name)
    endpoint : (sb : Sandbox) → IsOpen sb → IsAccess (resolve_sandbox name)
    own_endpoint : (sb : Sandbox) → IsOpen sb → IsAccess (resolve_sandbox sb.name)
    removed : (sb : Sandbox) → IsOpen sb → IsAccess (delete_sandbox name)
    read : (sb : Sandbox) → IsOpen sb → IsAccess (tail_logs name)
    asked :
        (sb : Sandbox) (box url token : Text) (h : List Call)
        → IsOpen sb
        → IsAccess (resolve_sandbox box)
        → manager.resolved h box ≡ ok (url, token)
        → IsAccess (work url token)

  abbrev pub Isolated : World → Type 0
  Isolated w = All IsAccess w.calls

  allowed :
      (c : Call)
      → IsAccess c
      → (w : World) → Isolated w
      → Isolated (record w { calls = w.calls ++ c ∷ [] })
  allowed c a w h = All-append IsAccess w.calls (c ∷ []) h (a, tt)

  asks : {B : Type 0} (c : Call) (f : List Call → B) → IsAccess c → Keeps Isolated (ask c f)
  asks c f a = Keeps-ask c f (allowed c a)

  module _ {B : Type 0} where
    authorized :
        (k : Text → Handler B) (o : Option Text)
        → service_tenant cfg hdr ≡ o
        → ((t : Text) → Resolves env cfg hdr t → Keeps Isolated (k t))
        → Keeps Isolated (service_or o (resolve_tenant env cfg hdr) >>= k)
    unfolding ◌>>=◌
    authorized k (some t) e h = record { at = λ w p. (h t (inl e)).at w p }
    authorized k none e h = record {
      at = λ w p. (Keeps-bind-resolve env cfg hdr (allowed get_identity identified) k h).at w p;
    }

    given :
        (k : Sandbox → Handler B) (t : Text) (o : Option Sandbox)
        → ((sb : Sandbox)
            → o ≡ some sb
            → sandbox_accessible sb t hdr.session_name ≡ true
            → Keeps Isolated (k sb))
        → Keeps Isolated (accessed manager env cfg hdr t o >>= k)
    unfolding ◌>>=◌
    given k t none h = record { at = λ w p. p }
    given k t (some sb) h = record {
      at = λ w p. (test (sandbox_accessible sb t hdr.session_name) (h sb refl)).at w p;
    }
      where
        test :
            (b : Bool)
            → (b ≡ true → Keeps Isolated (k sb))
            → Keeps Isolated (require b not_found >> pure sb >>= k)
        test true g = record { at = λ w p. (g refl).at w p }
        test false g = record { at = λ w p. p }

    -- What follows may use that the sandbox is open to the caller.
    opens :
        (k : Sandbox → Handler B)
        → ((sb : Sandbox) → IsOpen sb → Keeps Isolated (k sb))
        → Keeps Isolated (accessible manager env cfg hdr name >>= k)
    unfolding accessible sandbox_auth
    opens k h = reassociate Isolated _ k _ (
        authorized _ (service_tenant cfg hdr) refl λ t rt. reassociate Isolated _ k _ (
          Keeps-bind-ask _ _ _ (allowed _ looked_up) λ calls. reassociate Isolated _ k _ (
            Keeps-bind-fail_with _ (manager.found calls name) _ λ o e. given k t o λ sb is a.
              h sb (record {
                tenant = t;
                resolves = rt;
                calls = calls;
                is_found = e ∙ ap ok is;
                accessible = a;
              }))))

    owned_opens :
        (k : Text × Text → Handler B)
        → ((sb : Sandbox)
            → IsOpen sb
            → (calls : List Call) (url token : Text) → manager.resolved calls name ≡ ok (url, token)
            → Keeps Isolated (k (url, token)))
        → Keeps Isolated (owned_sandbox manager env cfg hdr name >>= k)
    unfolding owned_sandbox
    owned_opens k h = reassociate Isolated _ k _ (
        opens _ λ sb o. reassociate Isolated _ k _ (
          Keeps-bind-ask _ _ _ (allowed _ (endpoint sb o)) λ calls.
            Keeps-bind-fail_with _ (manager.resolved calls name) _
              λ (url, token) e. h sb o calls url token e))

    ask_worker-Keeps :
        (request : Request B) → Keeps Isolated (ask_worker manager env cfg hdr name request)
    unfolding ask_worker
    ask_worker-Keeps request = owned_opens _ λ sb o calls url token e.
        Keeps-bind _ _ (asks (work url token) _ (asked sb name url token calls o (endpoint sb o) e))
          λ r. Keeps-fail_with _ r

  info_of-Keeps :
      (sb : Sandbox) (calls : List Call) (r : Result Text (Text × Text))
      → IsOpen sb
      → manager.resolved calls sb.name ≡ r
      → Keeps Isolated (info_of manager env cfg hdr r)
  info_of-Keeps sb calls (ok (url, token)) o e =
      Keeps-bind _ _
        (asks (work url token) _ (asked sb sb.name url token calls o (own_endpoint sb o) e))
        λ r. Keeps-pure _
  info_of-Keeps sb calls (err x) o e = Keeps-pure none

  get_box-Keeps : Keeps Isolated (get_box manager env cfg hdr name)
  unfolding get_box
  get_box-Keeps = opens _ λ sb o. Keeps-bind-ask _ _ _ (allowed _ (own_endpoint sb o)) λ calls.
      Keeps-bind _ _ (info_of-Keeps sb calls (manager.resolved calls sb.name) o refl)
        λ i. Keeps-pure _

  delete_box-Keeps : Keeps Isolated (delete_box manager env cfg hdr name)
  unfolding delete_box
  delete_box-Keeps =
      opens _ λ sb o. Keeps-bind _ _ (asks _ _ (removed sb o)) λ r. Keeps-fail_with _ r

  resolve_box-Keeps : Keeps Isolated (resolve_box manager env cfg hdr name)
  unfolding resolve_box
  resolve_box-Keeps = opens _ λ sb o.
      Keeps-bind _ _ (asks _ _ (endpoint sb o))
        λ r. Keeps-bind _ _ (Keeps-fail_with _ r) λ e. Keeps-pure _

  sandbox_logs-Keeps :
      (default_tail tail : ℕ) (previous : Bool)
      → Keeps Isolated (sandbox_logs manager env cfg hdr default_tail name tail previous)
  unfolding sandbox_logs
  sandbox_logs-Keeps default_tail tail previous =
      owned_opens _
        λ sb o calls url token e. Keeps-bind _ _ (asks _ _ (read sb o)) λ r. Keeps-fail_with _ r

  -- The requests on one sandbox.
  pub data Action : Type 0 where
    get delete resolve list_jobs : Action
    logs : ℕ → ℕ → Bool → Action
    job_output : Text → ℕ → ℕ → Text → Action
    list_files read_file : Text → ℕ → ℕ → Action

  -- The calls of the handler of a request, behind those of a world.
  unfoldable pub run : Action → World → World
  run get w = (get_box manager env cfg hdr name w).1
  run delete w = (delete_box manager env cfg hdr name w).1
  run resolve w = (resolve_box manager env cfg hdr name w).1
  run (logs default_tail tail previous) w =
      (sandbox_logs manager env cfg hdr default_tail name tail previous w).1
  run list_jobs w = (list_sandbox_jobs manager env cfg hdr name w).1
  run (job_output job first last stream) w =
      (get_sandbox_job_output manager env cfg hdr name job first last stream w).1
  run (list_files path depth limit) w =
      (list_sandbox_files manager env cfg hdr name path depth limit w).1
  run (read_file path first last) w =
      (read_sandbox_file manager env cfg hdr name path first last w).1

  -- Take a request on one sandbox: get, delete, resolve, logs, list of jobs, output of a job, list of
  -- files or read of a file. Its handler, whatever the manager and the workers answer, only finds out who
  -- the caller is and looks the sandbox up, unless the manager finds it and it is accessible to a tenant
  -- that the caller speaks for, in the caller's session. Only then it is resolved, deleted or its log
  -- read, and a worker is asked only at an endpoint that resolving it gave.
  pub run-IsAccess : (a : Action) (w : World) → Isolated w → Isolated (run a w)
  unfolding run list_sandbox_jobs get_sandbox_job_output list_sandbox_files read_sandbox_file
  run-IsAccess get w h = get_box-Keeps.at w h
  run-IsAccess delete w h = delete_box-Keeps.at w h
  run-IsAccess resolve w h = resolve_box-Keeps.at w h
  run-IsAccess (logs d t p) w h = (sandbox_logs-Keeps d t p).at w h
  run-IsAccess list_jobs w h = (ask_worker-Keeps _).at w h
  run-IsAccess (job_output j f l st) w h = (ask_worker-Keeps _).at w h
  run-IsAccess (list_files p d l) w h = (ask_worker-Keeps _).at w h
  run-IsAccess (read_file p f l) w h = (ask_worker-Keeps _).at w h
