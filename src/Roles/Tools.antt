-- ===== src/Roles/Tools.antt =====
-- internal/roles/roles.go, the roles and their tool whitelists. A Go slice of names is a list of
-- texts, and a role is a string, as in the source.
use text.Mathlib.Text.{◌==◌}
use Prim.Native.String.{String}
use workspace_gateway.Base.{Bool, List, [], ◌∷◌, ◌++◌, ◌||◌, if◌then◌else◌, any}

abbrev pub Role : Type 0
Role = String

abbrev pub admin : Role
admin = "admin"

abbrev pub developer : Role
developer = "developer"

abbrev pub explorer : Role
explorer = "explorer"

-- The preset id of a role is the role.
unfoldable pub preset_for : Role → String
preset_for r = r

abbrev pub general_tools : List String
general_tools =
    "todo-write" ∷ "time-wait" ∷ "history-search" ∷ "history-range" ∷ "web-fetch" ∷ "brave-search"
    ∷ "file-info" ∷ "image-read" ∷ []

abbrev pub sandbox_base : List String
sandbox_base =
    "sandbox-create" ∷ "sandbox-list" ∷ "sandbox-status" ∷ "sandbox-delete" ∷ "list-oci-images"
    ∷ "sandbox-info" ∷ "sandbox-exec" ∷ "sandbox-job-start" ∷ "sandbox-job-output"
    ∷ "sandbox-job-wait" ∷ "sandbox-job-kill" ∷ "sandbox-job-stdin" ∷ "sandbox-job-list"
    ∷ "sandbox-file-read" ∷ "sandbox-file-patch" ∷ "sandbox-file-ls" ∷ "sandbox-file-download"
    ∷ "sandbox-file-upload" ∷ "sandbox-checkout" ∷ []

abbrev pub browser_tools : List String
browser_tools =
    "browser-create-context" ∷ "browser-close-context" ∷ "browser-navigate"
    ∷ "browser-navigate-back" ∷ "browser-snapshot" ∷ "browser-find" ∷ "browser-wait-for"
    ∷ "browser-resize" ∷ "browser-tabs" ∷ "browser-click" ∷ "browser-type" ∷ "browser-hover"
    ∷ "browser-select-option" ∷ "browser-press-key" ∷ "browser-drag" ∷ "browser-fill-form"
    ∷ "browser-handle-dialog" ∷ "browser-evaluate" ∷ "browser-run-code-unsafe"
    ∷ "browser-console-messages" ∷ "browser-network-requests" ∷ "browser-network-request"
    ∷ "browser-take-screenshot" ∷ "browser-pdf-save" ∷ "browser-file-upload" ∷ "browser-drop"
    ∷ "browser-storage-state" ∷ "browser-set-storage-state" ∷ []

abbrev pub computer_tools : List String
computer_tools =
    "sandbox-computer-apps" ∷ "sandbox-computer-snapshot" ∷ "sandbox-computer-find"
    ∷ "sandbox-computer-action" ∷ "sandbox-computer-click" ∷ "sandbox-computer-type"
    ∷ "sandbox-computer-key" ∷ "sandbox-computer-scroll" ∷ "sandbox-computer-drag"
    ∷ "sandbox-computer-screenshot" ∷ []

abbrev pub repo_read_tools : List String
repo_read_tools =
    "repo-explore" ∷ "repo-file-read" ∷ "repo-file-list" ∷ "repo-log" ∷ "repo-show" ∷ "repo-diff"
    ∷ "repo-branches" ∷ "repo-tags" ∷ []

abbrev pub repo_dev_tools : List String
repo_dev_tools =
    "sandbox-submit-mr" ∷ "repo-mr-list" ∷ "repo-mr-comment" ∷ "repo-mr-merge" ∷ "repo-mr-close"
    ∷ "repo-mail-send" ∷ "repo-tag-create" ∷ "repo-build-image" ∷ "repo-build-status"
    ∷ "service-create" ∷ "service-update" ∷ "service-deploy" ∷ "service-list" ∷ "service-delete"
    ∷ "service-logs" ∷ "service-rollback" ∷ "config-put" ∷ "config-list" ∷ "config-delete"
    ∷ "secret-put" ∷ "secret-list" ∷ "secret-delete" ∷ "helm-deploy" ∷ "helm-list" ∷ "helm-history"
    ∷ "helm-rollback" ∷ "helm-uninstall" ∷ "helm-objects" ∷ "helm-object-logs" ∷ []

abbrev pub admin_tools : List String
admin_tools =
    "repo-create-org" ∷ "repo-create-repo" ∷ "repo-import" ∷ "repo-remove" ∷ "repo-set-push-mirror"
    ∷ "repo-list-push-mirrors" ∷ "repo-delete-push-mirror" ∷ "oci-import" ∷ "service-create"
    ∷ "service-update" ∷ "service-deploy" ∷ "service-list" ∷ "service-delete" ∷ "service-logs"
    ∷ "service-rollback" ∷ "pvc-create" ∷ "pvc-list" ∷ "pvc-delete" ∷ "config-put" ∷ "config-list"
    ∷ "config-delete" ∷ "secret-put" ∷ "secret-list" ∷ "secret-delete" ∷ "helm-deploy" ∷ "helm-list"
    ∷ "helm-history" ∷ "helm-rollback" ∷ "helm-uninstall" ∷ "helm-objects" ∷ "helm-object-logs" ∷ []

abbrev pvc_tools : List String
pvc_tools = "pvc-create" ∷ "pvc-list" ∷ "pvc-delete" ∷ []

-- The switch of `ToolsFor`; `concat` of the source is the append of its parts.
unfoldable pub tools_for : Role → List String
tools_for r =
    if r == admin
    then general_tools ++ repo_read_tools ++ admin_tools ++ sandbox_base ++ browser_tools
      ++ computer_tools
    else if r == developer
    then general_tools ++ repo_read_tools ++ repo_dev_tools ++ sandbox_base ++ browser_tools
      ++ computer_tools ++ pvc_tools
    else if r == explorer
    then general_tools
      ++ repo_read_tools
      ++ sandbox_base
      ++ browser_tools
      ++ computer_tools
      ++ "service-list" ∷ "service-logs" ∷ pvc_tools
    else general_tools ++ repo_read_tools

unfoldable pub can_create_repo : Role → Bool
can_create_repo r = r == admin

-- Every branch session has one role.
unfoldable pub role_for_branch : {T : Type 0} → T → Role
role_for_branch branch = developer

unfoldable pub valid_role : Role → Bool
valid_role s = s == admin || (s == developer || s == explorer)

-- The agent lets a session of role `r` call the tool `t`.
unfoldable pub may_use : Role → String → Bool
unfolding tools_for
may_use r t = any (λ u. u == t) (tools_for r)
