-- ===== src/Lib.antt =====
-- The workspace gateway: sessions of an agent, bound to branches of Forgejo repositories, with their
-- sandboxes, merge requests and services. This library is a model of its logic and of what makes it
-- correct. Paths are from the root of the repository.
--
-- * Roles models internal/roles/roles.go: the tool whitelists of the three roles, the names of services,
--   and the names of sessions, `org:repo:branch`, which decide whom a request is about. The release
--   name check of internal/helmmgr/helmmgr.go stands beside the service name check in Roles/Labels.
-- * Members models internal/members/members.go: the four SQLite tables as lists of rows, each statement
--   as what it does to them. A statement takes the error of the driver, if any; one that fails
--   changes nothing. Timestamps are parameters.
-- * Gitmerge models internal/gitmerge: the resolution of one path (policies.go, merge3.go), the markers
--   (marker.go) and `Sync` (merge.go). The package diff3 is a parameter, and so is each answer of
--   go-git and the file system (`Repository` of Gitmerge/Sync); what `Sync` does is a log of effects.
-- * Service models handlers of internal/workspacesvc/service.go and mr_notify.go. Service/Env has the
--   parameters: what the agent, Forgejo, the cluster and the driver answer is any function of the calls
--   made so far, so that a theorem holds for all of their behaviours, failures included. A handler is
--   a function of the tables and the calls so far, which returns both beside its result or its code;
--   its name is close to the method's: `ensure_branch_session` for EnsureBranchSession, `merge_request`
--   for MergeMR, `remove_repository` for DeleteRepo, `ensure_repository` for EnsureRepo. The requests on
--   one sandbox are in Service/Sandboxes, where the sandbox manager and the workers are a parameter too.
--   Service/Ports is what DeployService makes of the ports it is asked for.
-- * Reaper models internal/sandboxreaper/reaper.go: the rule and one sweep. Times are milliseconds.
-- * Services models internal/servicesmgr/services.go, rollback.go and wait.go: Services/Deploying the ports
--   and the objects that `Deploy` writes, for a pod template or an error that is given, Services/Scaling
--   `Pause`, `Resume` and `Scale`, Services/Volumes the persistent volume claims. The Kubernetes API is a
--   parameter (`Cluster` of Services/Api). `Deploy` and `Pause` end with a read by `Get`, which is left
--   out, as it changes nothing. What each round of `WaitReady` sees is a parameter; its loop has fuel, one
--   unit a round, and enough is one more than the round in which the deadline has passed.
-- * Gitcommit models internal/gitcommit/gitcommit.go: Gitcommit/Files file operations and `Submit`,
--   Gitcommit/Staging the placeholder commit at the head of a branch, Gitcommit/Cache the clones that a
--   `Manager` keeps, Gitcommit/Compare the differences of two commits. go-git and the file system are a
--   parameter (`Git` of Gitcommit/Git), one for each directory of a clone. The loop of `evictLocked` has
--   fuel, one unit for each clone, since each round removes one.
-- * Helm models internal/helmmgr/helmmgr.go: Helm/Manifest what a rendered chart may hold, Helm/Apply
--   rendering and applying, Helm/Records the ConfigMaps of a release (its head, and a body for each
--   revision), Helm/Releases the operations Get, List, Apply, Rollback and Uninstall. The ConfigMaps of
--   the Kubernetes API are an interface (`MapsApi` of Helm/Api) with what the API documents as laws,
--   under which any call may fail; the chart engine, the YAML parser and the dynamic client are
--   fields of a parameter (`Engine`). A value in a ConfigMap is what it decodes to.
-- * Base has what these share: Go strings as lists of bytes, lists, tables with a key, sorting, and the
--   methods that change a state and may fail, with rules for what they keep (Base/Exec) and what they
--   leave behind (Base/Leaves).
-- * Examples runs the theorems on one small deployment, and on a cluster held in lists.
--
-- The handlers call Members for ownership, Roles for names and roles, and Services for the ports of a
-- service; Gitmerge, Gitcommit, Reaper, Services and Helm stand alone, but for the release name check of
-- Helm, which is in Roles.
-- Numbers are natural: indices of merge requests and times are never negative here. Go's sort is
-- modelled by insertion, and an SQL query without an order by the order of insertion. White space
-- is that of ASCII. Recursion is on lists, except in Services/Readiness and Gitcommit/Cache.
--
-- Not modelled: the HTTP and gRPC layers, the clients of Forgejo, the agent, the registry and the
-- sandbox worker, construction of Kubernetes objects, generated code and texts of prompts and
-- scripts. Concurrent requests are not modelled: a handler runs alone.
pub mod Base
pub mod Roles
pub mod Gitmerge
pub mod Members
pub mod Service
pub mod Reaper
pub mod Services
pub mod Gitcommit
pub mod Helm
pub mod Examples
