-- ===== src/Service/Proofs/Answers.antt =====
-- What the calls of the handlers of internal/workspacesvc/service.go answer, where the tables are not
-- written.
use workspace_gateway.Base.{
  Bool, true, false, List, [], ◌∷◌, ◌++◌, Option, none, some, ◌≡◌, ◌⊎◌, inl, inr, refl, ap, subst,
  ◌∙◌, null, Text, Result, ok, err, if◌then◌else◌, Bool-cases,
}
use workspace_gateway.Base.Exec.{◌>>=◌, pure, raise, OfResult, Yields, Yields-pure, Yields-raise}
use workspace_gateway.Members.Store.{Store, is_repo, owns_repo}
use workspace_gateway.Members.Ownership.{owns, ltb-count_rows}
use workspace_gateway.Service.Env.{
  Env, Config, Headers, World, Code, unauthenticated, internal, from_agent, Call, statement, ask,
  fail_with, statement_on, on_store,
}
use workspace_gateway.Service.Proofs.Rules.{Resolves}
use workspace_gateway.Service.Tenant.{
  service_tenant, named_tenant, tenant_or_identity, resolve_tenant,
}

module _ (env : Env) (s : Store) where
  -- The tables are as at the start.
  abbrev pub Same : World → Type 0
  Same w = w.store ≡ s

  pub answers : {A : Type 0} (c : Call) (f : List Call → A) → Yields Same (λ a. Unit {0}) (ask c f)
  unfolding ask
  answers c f = record { run = λ w p. (p, tt) }

  pub succeeds :
      {E A : Type 0} (f : E → Code) (r : Result E A) → Yields Same (λ a. Unit {0}) (fail_with f r)
  unfolding fail_with
  succeeds f (ok a) = record { run = λ w p. (p, tt) }
  succeeds f (err e) = record { run = λ w p. (p, tt) }

  pub owned :
      (t o r : Text) → Yields Same (λ b. b ≡ owns t o r s) (on_store env (λ f. owns_repo f t o r))
  unfolding on_store statement_on ◌>>=◌ fail_with owns_repo
  owned t o r = record { run = λ w p. told w p (env.statement_fault w.calls) }
    where
      told :
          (w : World)
          → Same w
          → (f : Option Text)
          → Same
              (fail_with
                (λ e. internal)
                (owns_repo f t o r w.store).0
                (record {
                  store = (owns_repo f t o r w.store).1;
                  calls = w.calls ++ statement ∷ [];
                })).1
            × OfResult
                (λ b. b ≡ owns t o r s)
                (fail_with
                  (λ e. internal)
                  (owns_repo f t o r w.store).0
                  (record {
                    store = (owns_repo f t o r w.store).1;
                    calls = w.calls ++ statement ∷ [];
                  })).0
      told w p none = (p, ltb-count_rows (is_repo t o r) w.store.repo_owners ∙ ap (owns t o r) p)
      told w p (some x) = (p, tt)

  module _ (cfg : Config) (hdr : Headers) where
    tenant_named :
        (t : Text) (b : Bool)
        → Resolves env cfg hdr t ⊎ (b ≡ true)
        → Yields Same (Resolves env cfg hdr) (if b then raise unauthenticated else pure t)
    tenant_named t true r = Yields-raise unauthenticated
    tenant_named t false (inl r) = Yields-pure t r
    tenant_named t false (inr e) = cc

    identity_told :
        (r : Result Text Text)
        → ((t : Text) → r ≡ ok t → null t ≡ false → Resolves env cfg hdr t)
        → Yields Same (Resolves env cfg hdr) (fail_with from_agent r >>= named_tenant)
    unfolding fail_with ◌>>=◌
    identity_told (err e) h = record { run = λ w p. (p, tt) }
    identity_told (ok t) h = record { run = λ w p. (tenant_named t (null t) (named_or t)).run w p }
      where
        named_or : (t' : Text) → Resolves env cfg hdr t ⊎ (null t ≡ true)
        named_or t' = elim (Bool-cases (null t)) [ inl e ↦ inr e | inr e ↦ inl (h t refl e) ]

    tenant_told :
        (o : Option Text)
        → service_tenant cfg hdr ≡ o
        → Yields Same (Resolves env cfg hdr) (tenant_or_identity env o)
    unfolding ask ◌>>=◌
    tenant_told (some t) e = Yields-pure t (inl e)
    tenant_told none e = record {
      run =
          λ w p. (identity_told (env.identity w.calls) (λ t i n. inr (e, n, (w.calls, i)))).run _ p;
    }

    pub resolved : Yields Same (Resolves env cfg hdr) (resolve_tenant env cfg hdr)
    unfolding resolve_tenant
    resolved = tenant_told (service_tenant cfg hdr) refl

-- What holds of every result holds of this one.
pub result_of :
    {A : Type 0} (Q : A → Type 0) (r : Result Code A) (a : A) → r ≡ ok a → OfResult Q r → Q a
result_of Q (ok b) a e q = let same : b ≡ a = cc in subst Q same q
result_of Q (err x) a e q = cc
