-- ===== src/Service/Proofs/Owners.antt =====
-- Who comes to own a repository or an organisation by the handlers of
-- internal/workspacesvc/service.go that claim them.
use workspace_gateway.Base.{true, false, List, ◌≡◌, ◌⊎◌, arith, Text, text_eq_iff, ok}
use workspace_gateway.Base.Exec.{Exec}
use workspace_gateway.Members.Store.{Store}
use workspace_gateway.Members.Ownership.{owns, same_repo}
use workspace_gateway.Service.Env.{Env, World, Call}
use workspace_gateway.Service.Proofs.Orgs.{has_org}

pub same_repo_sound :
    (t o r t' o' r' : Text) → same_repo t o r t' o' r' ≡ true → (t ≡ t') × (o ≡ o') × (r ≡ r')
same_repo_sound t o r t' o' r' h =
    ground (arith, text_eq_iff t t', text_eq_iff o o', text_eq_iff r r')

-- Forgejo said that the repository does not exist.
abbrev pub SaidAbsent : Env → Text → Text → Type 0
SaidAbsent env org repo = (h : List Call) × (env.repo_found h org repo ≡ ok false)

module _ (env : Env) (s : Store) (Claimant : Text → Type 0) (org repo : Text) where
  -- What is owned was owned before, or is the repository claimed, or its organisation, by a claimant.
  pub record Gains (w : World) : Type 0 where
    pub repos :
        (t o r : Text)
        → owns t o r w.store ≡ true
        → (owns t o r s ≡ true) ⊎ ((o ≡ org) × (r ≡ repo) × Claimant t × SaidAbsent env org repo)
    pub orgs :
        (t o : Text)
        → has_org t o w.store ≡ true
        → (has_org t o s ≡ true) ⊎ ((o ≡ org) × Claimant t × SaidAbsent env org repo)
