-- ===== src/Service/Proofs/Orgs.antt =====
-- Who owns an organisation: claimOrg and claimRepo of internal/workspacesvc/service.go.
use workspace_gateway.Base.{
  Bool, true, false, ◌&&◌, ◌||◌, List, [], ◌∷◌, ◌++◌, Option, none, some, ◌≡◌, inl, inr, refl, ◌∙◌,
  arith, null, any, Bool-cases, Text, text_eq, text_eq_iff, text_eq_refl, ok,
}
use workspace_gateway.Base.Exec.{◌>>=◌, ◌>>◌, require, Keeps, Keeps-pure, Keeps-if, Keeps-bind}
use workspace_gateway.Base.Table.{first, any-insert_or_ignore}
use workspace_gateway.Members.Store.{
  Store, OrgRow, is_org, add_org, owns_org, org_owner, owner_of, add_repo,
}
use workspace_gateway.Service.Claims.{claim_org, claim_new_org, claim_repo}
use workspace_gateway.Service.Env.{
  Env, World, permission_denied, internal, Call, statement, ensure_org, ask, fail_with, fail_if,
  statement_on, on_store,
}
use workspace_gateway.Service.Proofs.Rules.{Keeps-ask, Keeps-fail_if, Keeps-on_store}

-- The table holds the row.
abbrev pub has_org : Text → Text → Store → Bool
has_org tenant org s = any (is_org tenant org) s.org_owners

-- No organisation has two owners, or one without a name.
pub record IsSingle (s : Store) : Type 0 where
  pub one : (t t' o : Text) → has_org t o s ≡ true → has_org t' o s ≡ true → t ≡ t'
  pub named : (t o : Text) → has_org t o s ≡ true → null t ≡ false

is_org_same :
    (t o t' o' : Text) (x : OrgRow)
    → is_org t o x ≡ true
    → is_org t' o' x ≡ (text_eq t t' && text_eq o o')
is_org_same t o t' o' x h = ground (arith, text_eq_iff x.tenant t, text_eq_iff x.org o)

pub has_org-add_org :
    (t o t' o' : Text) (s : Store)
    → has_org t' o' (add_org none t o s).1 ≡ (text_eq t t' && text_eq o o' || has_org t' o' s)
unfolding add_org
has_org-add_org t o t' o' s =
    any-insert_or_ignore (is_org t' o') (is_org t o) _ s.org_owners (is_org_same t o t' o')

-- The first row of an organisation tells whether it has one.
first_owner :
    (t o : Text) (rows : List OrgRow)
    → any (is_org t o) rows ≡ true
    → any (is_org (owner_of (first (λ r. text_eq r.org o) rows)) o) rows ≡ true
first_owner t o [] h = h
first_owner t o (r ∷ rows) h = elim (Bool-cases (text_eq r.org o)) [
  | inl e ↦ rw (e, text_eq_refl r.tenant) refl
  | inr e ↦ ground (arith, first_owner t o rows)
]

module _ (t o : Text) (u : Store) (single : IsSingle u) where
  -- Where the owner that was read is none or `t`, no other tenant owns the organisation.
  alone :
      let other = owner_of (first (λ r. text_eq r.org o) u.org_owners) in
      (null other || text_eq other t) ≡ true → (t' : Text) → has_org t' o u ≡ true → t' ≡ t
  alone h t' has =
      let other = owner_of (first (λ r. text_eq r.org o) u.org_owners) in
      let known = first_owner t' o u.org_owners has in
      let same : t' ≡ other = single.one t' other o has known in
      ground (arith, text_eq_iff other t, single.named other o known)

  add_org-IsSingle :
      null t ≡ false
      → ((t' : Text) → has_org t' o u ≡ true → t' ≡ t)
      → IsSingle (add_org none t o u).1
  add_org-IsSingle n only = record {
    one = λ a b p ha hb. ground (
      arith,
      has_org-add_org t o a p u,
      has_org-add_org t o b p u,
      text_eq_iff t a,
      text_eq_iff t b,
      text_eq_iff o p,
      single.one a b p,
      only a,
      only b,
    );
    named = λ a p ha. ground (arith, has_org-add_org t o a p u, text_eq_iff t a, single.named a p);
  }

module _ (env : Env) (t o : Text) (n : null t ≡ false) where
  abbrev Single : World → Type 0
  Single w = IsSingle w.store

  abbrev Alone : World → Type 0
  Alone w = IsSingle w.store × ((t' : Text) → has_org t' o w.store ≡ true → t' ≡ t)

  -- A claim after which the tenant is the only owner.
  claim-Alone : Keeps Alone (
      ask (ensure_org o) (λ h. env.org_ensured h o) >>= λ e.
      fail_if (λ _. internal) e >> on_store env (λ f. add_org f t o))
  unfolding add_org
  claim-Alone =
      Keeps-bind _ _ (Keeps-ask (ensure_org o) _ (λ w p. p))
        λ e. Keeps-bind _ _ (Keeps-fail_if _ e) λ _. Keeps-on_store env (λ f. add_org f t o) adds
    where
      adds :
          (f : Option Text) (w : World)
          → Alone w
          → Alone (record { store = (add_org f t o w.store).1; calls = w.calls ++ statement ∷ [] })
      adds none w (s, only) = (
        add_org-IsSingle t o w.store s n only,
        λ t' h. ground (arith, has_org-add_org t o t' o w.store, text_eq_iff t t', only t'),
      )
      adds (some x) w p = p

  claims :
      (w : World)
      → Single w
      → Single ((on_store env (λ f. org_owner f o) >>= λ other. claim_new_org env t o other) w).1
  unfolding ◌>>=◌ on_store statement_on fail_with org_owner
  claims w s = read (env.statement_fault w.calls)
    where
      chosen :
          (b : Bool) (other : Text) (v : World)
          → Single v
          → (b ≡ true → (t' : Text) → has_org t' o v.store ≡ true → t' ≡ t)
          → Single
              ((require b permission_denied
                  >> (ask (ensure_org o) (λ h. env.org_ensured h o) >>= λ e.
                      fail_if (λ _. internal) e >> on_store env (λ f. add_org f t o)))
                v).1
      chosen true other v sv a = (claim-Alone.at v (sv, a refl)).0
      chosen false other v sv a = sv

      read :
          (f : Option Text)
          → Single
              ((fail_with (λ e. internal) (org_owner f o w.store).0 >>= λ other.
                  claim_new_org env t o other)
                (record { store = (org_owner f o w.store).1; calls = w.calls ++ statement ∷ [] })).1
      read none =
          let other = owner_of (first (λ r. text_eq r.org o) w.store.org_owners) in
          chosen (null other || text_eq other t) other
            (record { store = w.store; calls = w.calls ++ statement ∷ [] }) s (alone t o w.store s)
      read (some x) = s

  -- A claim of an organisation, by a tenant with a name, leaves every organisation with at most one
  -- owner, whatever fails.
  claim_org-Keeps : Keeps Single (claim_org env t o)
  unfolding claim_org owns_org
  claim_org-Keeps =
      Keeps-bind _ _ (Keeps-on_store env (λ f. owns_org f t o) reads_owner)
        λ b. Keeps-if b _ _ (λ _. Keeps-pure tt) (λ _. record { at = claims })
    where
      reads_owner :
          (f : Option Text) (w : World)
          → Single w
          → Single
              (record { store = (owns_org f t o w.store).1; calls = w.calls ++ statement ∷ [] })
      reads_owner none w p = p
      reads_owner (some x) w p = p

-- If no organisation has two owners, and none an owner without a name, then that stays so when a
-- tenant with a name claims an organisation by claimOrg, also where the claim fails half way.
pub claim_org-IsSingle :
    (env : Env) (tenant org : Text) (w : World)
    → null tenant ≡ false
    → IsSingle w.store
    → IsSingle (claim_org env tenant org w).1.store
claim_org-IsSingle env tenant org w n s = (claim_org-Keeps env tenant org n).at w s

-- claimRepo does not ask who owns the organisation: where Forgejo does not know the repository and
-- neither Forgejo nor a SQL statement fails, the tenant comes to own the organisation beside the
-- tenant that owned it.
pub claim_repo_shares_org :
    (env : Env) (tenant other org repo : Text) (made : Bool) (w : World)
    → ((h : List Call) → env.statement_fault h ≡ none)
    → ((h : List Call) → env.repo_found h org repo ≡ ok false)
    → ((h : List Call) → env.repo_ensured h org repo ≡ ok made)
    → has_org other org w.store ≡ true
    → let s = (claim_repo env tenant org repo w).1.store in
      (has_org tenant org s ≡ true) × (has_org other org s ≡ true)
unfolding claim_repo ◌>>=◌ ask fail_with on_store statement_on add_repo
claim_repo_shares_org env tenant other org repo made w quiet absent known has =
    let s : Store = (add_repo none tenant org repo w.store).1 in
    rw (absent, known, quiet, quiet)
      (
        has_org-add_org tenant org tenant org s ∙ rw (text_eq_refl tenant, text_eq_refl org) refl,
        ground (arith, has_org-add_org tenant org other org s),
      )
