-- ===== src/Service/Proofs/Visible.antt =====
-- Which sessions ListBranchSessions and GetBranchSession of internal/workspacesvc/service.go show.
use workspace_gateway.Base.{
  Bool, true, false, List, [], ◌∷◌, ◌++◌, Option, none, some, ◌≡◌, ◌⊎◌, inl, inr, refl, ap, sym,
  ◌∙◌, All, All-append, Text, Result, ok, err, if◌then◌else◌,
}
use workspace_gateway.Base.Exec.{
  ◌>>=◌, OfResult, Yields, Yields-pure, Yields-raise, Yields-bind, Yields-require,
}
use workspace_gateway.Base.Table.{first}
use workspace_gateway.Members.Store.{Store, is_free, free_role, role_of}
use workspace_gateway.Members.Ownership.{owns}
use workspace_gateway.Roles.Names.{parse_session}
use workspace_gateway.Service.Env.{
  Env, Config, Headers, World, Handler, Code, not_found, from_agent, Sandbox, statement,
  list_sessions, list_sandboxes, statement_on,
}
use workspace_gateway.Service.Access.{session_sandboxes}
use workspace_gateway.Service.Proofs.Rules.{Resolves}
use workspace_gateway.Service.Removal.{
  or_nil, found_role, read_free_role, listed_free, list_one, list_each, list_branch_sessions,
  role_session, get_parsed, get_branch_session,
}
use workspace_gateway.Service.Sessions.{BranchSession, branch_session, sandbox_fields}
use workspace_gateway.Service.Proofs.Answers.{Same, answers, succeeds, owned, resolved, result_of}

-- A session of a repository that the tenant owns, or one of its free sessions in its role.
abbrev pub IsShown : Store → Text → BranchSession → Type 0
IsShown s t b =
    (parse_session b.session ≡ some (b.org, b.repo, b.branch)) × (owns t b.org b.repo s ≡ true)
    ⊎ (parse_session b.session ≡ none)
      × (role_of (first (is_free t b.session) s.free_sessions) ≡ some b.role)

module _ (env : Env) (s : Store) where
  -- The role that is read is the stored one, or none.
  abbrev IsRole : Text → Text → Option Text → Type 0
  IsRole t name o = (o ≡ none) ⊎ (o ≡ role_of (first (is_free t name) s.free_sessions))

  reads-IsRole : (t name : Text) → Yields (Same env s) (IsRole t name) (read_free_role env t name)
  unfolding statement_on ◌>>=◌ free_role
  reads-IsRole t name = record { run = λ w p. told w p (env.statement_fault w.calls) }
    where
      told :
          (w : World)
          → Same env s w
          → (f : Option Text)
          → Same env s
              (record { store = (free_role f t name w.store).1; calls = w.calls ++ statement ∷ [] })
            × IsRole t name (found_role (free_role f t name w.store).0)
      told w p none = (p, inr (ap (λ u. role_of (first (is_free t name) u.free_sessions)) p))
      told w p (some x) = (p, inl refl)

  module _ (t : Text) where
    abbrev Shown : List BranchSession → Type 0
    Shown = All (IsShown s t)

    one_more :
        (out : List BranchSession) (b : BranchSession)
        → Shown out
        → IsShown s t b
        → Shown (out ++ b ∷ [])
    one_more out b h i = All-append (IsShown s t) out (b ∷ []) h (i, tt)

    free_listed :
        (name : Text) (refs : List Sandbox) (o : Option Text) (out : List BranchSession)
        → parse_session name ≡ none
        → IsRole t name o
        → Shown out
        → Shown (listed_free env name refs o out)
    free_listed name refs none out e i h = h
    free_listed name refs (some role) out e (inl x) h = cc
    free_listed name refs (some role) out e (inr x) h = one_more out _ h (inr (e, sym x))

    branch_listed :
        (name o r b : Text) (refs : List Sandbox) (v : Bool) (out : List BranchSession)
        → parse_session name ≡ some (o, r, b)
        → v ≡ owns t o r s
        → Shown out
        → Shown (if v then out ++ branch_session name o r b refs ∷ [] else out)
    branch_listed name o r b refs true out e i h = one_more out _ h (inl (e, sym i))
    branch_listed name o r b refs false out e i h = h

    one :
        (refs : List Sandbox) (name : Text) (p : Option (Text × Text × Text))
        (out : List BranchSession)
        → parse_session name ≡ p
        → Shown out
        → Yields (Same env s) Shown (list_one env t refs name p out)
    one refs name (some (o, r, b)) out e h =
        Yields-bind _ _ _ _ (owned env s t o r)
          λ v i. Yields-pure _ (branch_listed name o r b refs v out e i h)
    one refs name none out e h =
        Yields-bind _ _ _ _ (reads-IsRole t name)
          λ o i. Yields-pure _ (free_listed name refs o out e i h)

    each :
        (sbxs : List Sandbox) (names : List Text) (out : List BranchSession)
        → Shown out
        → Yields (Same env s) Shown (list_each env t sbxs names out)
    unfolding list_each
    each sbxs [] out h = Yields-pure out h
    each sbxs (name ∷ names) out h =
        Yields-bind _ _ _ _ (one (session_sandboxes sbxs name) name (parse_session name) out refl h)
          λ out' h'. each sbxs names out' h'

  module _ (cfg : Config) (hdr : Headers) where
    -- Shown to a tenant that the request may speak for.
    abbrev ShownTo : List BranchSession → Type 0
    ShownTo l = (t : Text) × Resolves env cfg hdr t × All (IsShown s t) l

    lists : Yields (Same env s) ShownTo (list_branch_sessions env cfg hdr)
    unfolding list_branch_sessions
    lists = Yields-bind _ _ _ _ (resolved env s cfg hdr) λ t rt.
        Yields-bind _ _ _ _ (answers env s list_sessions env.sessions) λ r _.
          Yields-bind _ _ _ _ (succeeds env s from_agent r) λ names _.
            Yields-bind _ _ _ _ (answers env s list_sandboxes env.sandboxes)
              λ sbxs _. for_tenant t rt (each t (or_nil sbxs) names [] tt)
      where
        for_tenant :
            (t : Text)
            → Resolves env cfg hdr t
            → {m : Handler (List BranchSession)} → Yields (Same env s) (All (IsShown s t)) m
            → Yields (Same env s) ShownTo m
        for_tenant t rt {m} y = record {
          run = λ w p. let (p', q) = y.run w p in (p', told (m w).0 q);
        }
          where
            told :
                (r : Result Code (List BranchSession))
                → OfResult (All (IsShown s t)) r
                → OfResult ShownTo r
            told (ok l) q = (t, rt, q)
            told (err e) q = tt

    abbrev SeenBy : Text → BranchSession → Type 0
    SeenBy session b = (b.session ≡ session) × (t : Text) × Resolves env cfg hdr t × IsShown s t b

    shown_refs :
        (session : Text)
        → Yields (Same env s) (λ refs. Unit {0}) (sandbox_fields env cfg hdr session)
    unfolding sandbox_fields
    shown_refs session =
        Yields-bind _ _ _ _ (answers env s list_sandboxes env.sandboxes) λ r _. Yields-pure _ tt

    gets :
        (t session : Text) (p : Option (Text × Text × Text))
        → Resolves env cfg hdr t
        → parse_session session ≡ p
        → Yields (Same env s) (SeenBy session) (get_parsed env cfg hdr t session p)
    gets t session (some (o, r, b)) rt e = Yields-bind _ _ _ _ (owned env s t o r) λ v i.
        Yields-require v not_found _ λ has.
          Yields-bind _ _ _ _ (shown_refs session)
            λ refs _. Yields-pure _ (refl, t, rt, inl (e, sym i ∙ has))
    gets t session none rt e = Yields-bind _ _ _ _ (reads-IsRole t session) known
      where
        known :
            (o : Option Text)
            → IsRole t session o
            → Yields (Same env s) (SeenBy session) (role_session env cfg hdr session o)
        known none i = Yields-raise not_found
        known (some role) (inl x) = cc
        known (some role) (inr x) =
            Yields-bind _ _ _ _ (shown_refs session)
              λ refs _. Yields-pure _ (refl, t, rt, inr (e, sym x))

    got :
        (session : Text)
        → Yields (Same env s) (SeenBy session) (get_branch_session env cfg hdr session)
    unfolding get_branch_session
    got session =
        Yields-bind _ _ _ _ (resolved env s cfg hdr)
          λ t rt. gets t session (parse_session session) rt refl

-- ListBranchSessions lists, for one tenant that the request may speak for, only sessions of repositories
-- that the tenant owns, under the names that they parse to, and its free sessions in their roles. It
-- leaves the tables alone.
pub list_branch_sessions-IsShown :
    (env : Env) (cfg : Config) (hdr : Headers) (s : Store) (l : List BranchSession)
    → (list_branch_sessions env cfg hdr (record { store = s; calls = [] })).0 ≡ ok l
    → ((list_branch_sessions env cfg hdr (record { store = s; calls = [] })).1.store ≡ s)
      × ((t : Text) × Resolves env cfg hdr t × All (IsShown s t) l)
list_branch_sessions-IsShown env cfg hdr s l e =
    let (p, q) = (lists env s cfg hdr).run (record { store = s; calls = [] }) refl in
    (p, result_of (ShownTo env s cfg hdr) _ l e q)

-- GetBranchSession answers only with the session asked for, and only if that is a session of a
-- repository that a tenant of the caller's owns, or a free session of such a tenant, in its role. It
-- leaves the tables alone.
pub get_branch_session-IsShown :
    (env : Env) (cfg : Config) (hdr : Headers) (s : Store) (session : Text) (b : BranchSession)
    → (get_branch_session env cfg hdr session (record { store = s; calls = [] })).0 ≡ ok b
    → ((get_branch_session env cfg hdr session (record { store = s; calls = [] })).1.store ≡ s)
      × (b.session ≡ session)
      × ((t : Text) × Resolves env cfg hdr t × IsShown s t b)
get_branch_session-IsShown env cfg hdr s session b e =
    let (p, q) = (got env s cfg hdr session).run (record { store = s; calls = [] }) refl in
    let (same, t, may, seen) = result_of (SeenBy env s cfg hdr session) _ b e q in
    (p, same, (t, may, seen))
