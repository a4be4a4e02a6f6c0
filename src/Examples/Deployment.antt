-- ===== src/Examples/Deployment.antt =====
-- A deployment on which the handlers of internal/workspacesvc/service.go are run: Forgejo has no
-- repository yet, the agent no session, and every call succeeds.
use workspace_gateway.Base.{
  true, false, [], ◌∷◌, none, some, ◌≡◌, refl, Text, codes, text_eq, has_prefix, trim_prefix,
  trim_space, ok,
}
use workspace_gateway.Members.Store.{Store}
use workspace_gateway.Service.Env.{Env, Config, Headers, World, MrInfo}
use workspace_gateway.Service.Tenant.{service_tenant}

abbrev pub acme : Text
acme = codes "acme"

abbrev pub other : Text
other = codes "other"

abbrev pub org : Text
org = codes "org"

abbrev pub repo : Text
repo = codes "repo"

abbrev pub request : MrInfo
request = record { base = codes "main"; head = codes "mr/org-repo-x-1"; mergeable = true }

abbrev pub env : Env
env = record {
  statement_fault = λ h. none;
  now = λ h. 7;
  unix_nano = λ h. codes "1";
  identity = λ h. ok acme;
  config = λ h k. ok (codes "zh");
  has_session = λ h n. false;
  sessions = λ h. ok [];
  created = λ h n. none;
  forked = λ h n. none;
  session_deleted = λ h n. none;
  sandboxes = λ h. ok [];
  sandbox_deleted = λ h n. none;
  services = λ h. ok [];
  service_deleted = λ h n. none;
  org_ensured = λ h o. none;
  repo_found = λ h o r. ok false;
  repo_ensured = λ h o r. ok true;
  repo_deleted = λ h o r. none;
  branch_found = λ h o r b. ok true;
  branch_created = λ h o r b. none;
  branch_deleted = λ h o r b. none;
  submitted = λ h b fs. none;
  mr_created = λ h b. ok (1, codes "http://forge/1");
  mr_found = λ h o r i. ok request;
  mr_merged = λ h o r i. none;
  mr_closed = λ h o r i. none;
  mr_commented = λ h o r i. none;
  published = λ h t. none;
}

abbrev pub cfg : Config
cfg = record {
  svc_token = codes "s";
  svc_tenant = acme;
  sandbox_org = codes "ws";
  sandbox_image_registry_host = codes "reg.io";
  has_sandboxes = true;
  has_services = true;
  has_bus = false;
}

-- A caller with the deployment's token.
abbrev pub hdr : Headers
hdr = record { authorization = codes "Bearer s" ∷ []; abc_tenant = []; session_name = [] }

-- `other` owns the organisation and the repository.
abbrev pub store : Store
store = record {
  org_owners = record { tenant = other; org = org } ∷ [];
  repo_owners = record { tenant = other; org = org; repo = repo } ∷ [];
  free_sessions = [];
  mr_submissions = [];
}

abbrev pub world : World
world = record { store = store; calls = [] }

pub caller_is_acme : service_tenant cfg hdr ≡ some acme
unfolding service_tenant text_eq has_prefix trim_prefix trim_space
caller_is_acme = refl
