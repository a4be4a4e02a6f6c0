-- ===== src/Roles/Policy.antt =====
-- What the tool whitelists of internal/roles/roles.go allow.
use text.Mathlib.Text.{◌==◌}
use Prim.Native.String.{String}
use workspace_gateway.Base.{
  not-true, Bool, false, List, [], ◌∷◌, ◌≡◌, refl, arith, null, any, if◌then◌else◌, not, all, All,
  ◌||◌, All-of_all, if_ap, ◌∙◌,
}
use workspace_gateway.Roles.Tools.{Role, admin, developer, explorer, tools_for, may_use}

-- The tools that would write a branch, or create one, without a merge request.
abbrev pub direct_writes : List String
direct_writes =
    "sandbox-port" ∷ "repo-file-write" ∷ "repo-file-edit" ∷ "repo-commit" ∷ "repo-branch-create"
    ∷ "repo-mr-create" ∷ []

abbrev lacks : Role → List String → Bool
lacks r ts = all (λ t. not (may_use r t)) ts

-- What a role may use, by the cases of the switch.
may_use_cases :
    (t : String) (r : Role)
    → may_use r t ≡ (
        if r == admin
        then may_use admin t
        else if r == developer
        then may_use developer t
        else if r == explorer
        then may_use explorer t
        else may_use "" t)
unfolding may_use
may_use_cases t r = simp (if_ap (any (λ u. u == t)))

-- The branches of the switch collapse to the test of the one role that answers.
all_false :
    (a d e : Bool) → (if a then false else if d then false else if e then false else false) ≡ false
all_false a d e = ground arith

tools_for-ne-nil : (r : Role) → null (tools_for r) ≡ false
unfolding tools_for
tools_for-ne-nil r =
    simp (if_ap (null {A = String})) (all_false (r == admin) (r == developer) (r == explorer))

-- Some role is given the tool.
offered : String → Bool
unfolding may_use
offered t = may_use admin t || (may_use developer t || (may_use explorer t || may_use "" t))

no_case :
    (a d e x y z w : Bool)
    → (x || (y || (z || w))) ≡ false
    → (if a then x else if d then y else if e then z else w) ≡ false
no_case a d e x y z w h = ground arith

denied : (t : String) (r : Role) → offered t ≡ false → may_use r t ≡ false
unfolding offered
denied t r h = may_use_cases t r ∙ no_case (r == admin) (r == developer) (r == explorer) _ _ _ _ h

-- No role, known or not, may use a tool that writes or creates a branch directly, and no whitelist
-- is empty (an empty one would mean all tools).
no_direct_write :
    (r : Role) → All (λ t. may_use r t ≡ false) direct_writes × (null (tools_for r) ≡ false)
unfolding offered
no_direct_write r = (
  All-of_all (λ t. not (offered t)) (λ t h. denied t r (not-true _ h)) direct_writes refl,
  tools_for-ne-nil r,
)
