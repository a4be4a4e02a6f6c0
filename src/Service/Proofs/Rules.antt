-- ===== src/Service/Proofs/Rules.antt =====
-- Rules for the properties that a handler keeps: one for each of the calls of Service/Env, and for the
-- helpers that find out who the caller is.
use workspace_gateway.Base.{
  Bool, true, false, List, [], ◌∷◌, ◌++◌, Option, none, some, ◌≡◌, ◌⊎◌, inl, inr, refl, sym, ap,
  ◌∙◌, if◌then◌else◌, null, any, Any, All, All-append, All-of_Any, Text, Result, ok, err,
}
use workspace_gateway.Base.Exec.{
  Exec, ◌>>=◌, pure, raise, Keeps, Keeps-pure, Keeps-raise, Keeps-if, Keeps-bind, Keeps-attempt,
}
use workspace_gateway.Members.Store.{Store, is_repo, owns_repo}
use workspace_gateway.Members.Ownership.{ltb-count_rows}
use workspace_gateway.Service.Env.{
  Env, Config, Headers, World, Handler, Code, Call, internal, unauthenticated, from_agent,
  statement, get_identity, ask, fail_with, fail_if, statement_on, on_store,
}
use workspace_gateway.Service.Removal.{is_true, or_nil}
use workspace_gateway.Service.Tenant.{
  service_tenant, named_tenant, tenant_or_identity, resolve_tenant, tenant_of, text_or_empty,
}

module _ {P : World → Type 0} where
  pub Keeps-ask :
      {A : Type 0} (c : Call) (f : List Call → A)
      → ((w : World) → P w → P (record w { calls = w.calls ++ c ∷ [] }))
      → Keeps P (ask c f)
  unfolding ask
  Keeps-ask c f h = record { at = h }

  -- What follows may use that the answer is one that the environment gives.
  pub Keeps-bind-ask :
      {A B : Type 0} (c : Call) (f : List Call → A) (k : A → Handler B)
      → ((w : World) → P w → P (record w { calls = w.calls ++ c ∷ [] }))
      → ((h : List Call) → Keeps P (k (f h)))
      → Keeps P (ask c f >>= k)
  unfolding ◌>>=◌ ask
  Keeps-bind-ask c f k h next = record { at = λ w p. (next w.calls).at _ (h w p) }

  pub Keeps-bind-fail_with :
      {E A B : Type 0} (f : E → Code) (r : Result E A) (k : A → Handler B)
      → ((a : A) → r ≡ ok a → Keeps P (k a))
      → Keeps P (fail_with f r >>= k)
  unfolding ◌>>=◌ fail_with
  Keeps-bind-fail_with f (ok a) k h = record { at = λ w p. (h a refl).at w p }
  Keeps-bind-fail_with f (err e) k h = record { at = λ w p. p }

  pub Keeps-fail_with : {E A : Type 0} (f : E → Code) (r : Result E A) → Keeps P (fail_with f r)
  unfolding fail_with
  Keeps-fail_with f (ok a) = record { at = λ w p. p }
  Keeps-fail_with f (err e) = record { at = λ w p. p }

  pub Keeps-fail_if : {E : Type 0} (f : E → Code) (r : Option E) → Keeps P (fail_if f r)
  unfolding fail_if
  Keeps-fail_if f none = record { at = λ w p. p }
  Keeps-fail_if f (some e) = record { at = λ w p. p }

  pub Keeps-statement :
      {A : Type 0} (env : Env) (m : Option Text → Exec Text Store A)
      → ((f : Option Text) (w : World)
          → P w
          → P (record { store = (m f w.store).1; calls = w.calls ++ statement ∷ [] }))
      → Keeps P (statement_on env m)
  unfolding statement_on
  Keeps-statement env m h = record { at = λ w p. h (env.statement_fault w.calls) w p }

  pub Keeps-on_store :
      {A : Type 0} (env : Env) (m : Option Text → Exec Text Store A)
      → ((f : Option Text) (w : World)
          → P w
          → P (record { store = (m f w.store).1; calls = w.calls ++ statement ∷ [] }))
      → Keeps P (on_store env m)
  unfolding on_store
  Keeps-on_store env m h =
      Keeps-bind _ _ (Keeps-statement env m h) (λ r. Keeps-fail_with (λ e. internal) r)

-- The tenant that a request may speak for.
abbrev pub Resolves : Env → Config → Headers → Text → Type 0
Resolves env cfg hdr t =
    (service_tenant cfg hdr ≡ some t)
    ⊎ (service_tenant cfg hdr ≡ none)
      × (null t ≡ false)
      × ((h : List Call) × (env.identity h ≡ ok t))

module _ {P : World → Type 0} (env : Env) (cfg : Config) (hdr : Headers)
    (identified : (w : World) → P w → P (record w { calls = w.calls ++ get_identity ∷ [] })) where
  module _ {B : Type 0} (k : Text → Handler B)
      (h : (t : Text) → Resolves env cfg hdr t → Keeps P (k t)) where
    named_bind :
        (t : Text) (b : Bool)
        → (b ≡ false → Keeps P (k t))
        → Keeps P ((if b then raise unauthenticated else pure t) >>= k)
    unfolding ◌>>=◌
    named_bind t true n = record { at = λ w p. p }
    named_bind t false n = record { at = λ w p. (n refl).at w p }

    answered_bind :
        (r : Result Text Text)
        → ((t : Text) → r ≡ ok t → null t ≡ false → Resolves env cfg hdr t)
        → Keeps P (fail_with from_agent r >>= named_tenant >>= k)
    unfolding ◌>>=◌ fail_with
    answered_bind (ok t) n = record {
      at = λ w p. (named_bind t (null t) (λ e. h t (n t refl e))).at w p;
    }
    answered_bind (err e) n = record { at = λ w p. p }

    option_bind :
        (o : Option Text) → service_tenant cfg hdr ≡ o → Keeps P (tenant_or_identity env o >>= k)
    unfolding ◌>>=◌ ask
    option_bind (some t) e = record { at = λ w p. (h t (inl e)).at w p }
    option_bind none e = record {
      at = λ w p.
          (answered_bind (env.identity w.calls) (λ t i n. inr (e, n, (w.calls, i)))).at _
            (identified w p);
    }

    -- What follows may use that the tenant is one that the request may speak for.
    pub Keeps-bind-resolve : Keeps P (resolve_tenant env cfg hdr >>= k)
    unfolding resolve_tenant
    Keeps-bind-resolve = option_bind (service_tenant cfg hdr) refl

  option-Keeps : (o : Option Text) → Keeps P (tenant_or_identity env o)
  option-Keeps (some t) = Keeps-pure t
  option-Keeps none = Keeps-bind _ _ (Keeps-ask get_identity env.identity identified) λ r.
      Keeps-bind _ _ (Keeps-fail_with from_agent r)
        λ t. Keeps-if (null t) _ _ (λ _. Keeps-raise unauthenticated) (λ _. Keeps-pure t)

  pub Keeps-resolve : Keeps P (resolve_tenant env cfg hdr)
  unfolding resolve_tenant
  Keeps-resolve = option-Keeps (service_tenant cfg hdr)

  pub Keeps-tenant_of : Keeps P (tenant_of env cfg hdr)
  unfolding tenant_of
  Keeps-tenant_of = Keeps-bind _ _ (Keeps-attempt _ Keeps-resolve) text_or_empty-keeps
    where
      text_or_empty-keeps : (r : Result Code Text) → Keeps P (text_or_empty r)
      text_or_empty-keeps (ok t) = Keeps-pure t
      text_or_empty-keeps (err e) = Keeps-pure []

-- One of the rows that an answer of the environment lists.
abbrev pub Reported : {R : Type 0} → (List Call → Result Text (List R)) → R → Type 0
Reported {R} answer a = (h : List Call) × (l : List R) × (answer h ≡ ok l) × Any (λ x. x ≡ a) l

-- A failed list counts as an empty one.
pub All-Reported :
    {R : Type 0} (answer : List Call → Result Text (List R)) (h : List Call)
    (r : Result Text (List R))
    → answer h ≡ r
    → All (Reported answer) (or_nil r)
All-Reported answer h (ok l) e = All-of_Any l λ a m. (h, l, e, m)
All-Reported answer h (err x) e = tt

-- The tables of the owners of repositories and of organisations stay what they were, and each call so
-- far is allowed.
abbrev pub Steady : Store → (Call → Type 0) → World → Type 0
Steady start A w =
    (w.store.repo_owners ≡ start.repo_owners)
    × (w.store.org_owners ≡ start.org_owners)
    × All A w.calls

module _ (start : Store) (A : Call → Type 0) where
  pub Steady-ask :
      (c : Call)
      → A c
      → (w : World) → Steady start A w
      → Steady start A (record w { calls = w.calls ++ c ∷ [] })
  Steady-ask c a w (e, o, h) = (e, o, All-append A w.calls (c ∷ []) h (a, tt))

  -- What follows may use whether the tenant owns the repository.
  pub Keeps-bind-owns :
      {B : Type 0} (env : Env) (t o r : Text) (k : Bool → Handler B)
      → A statement
      → ((b : Bool) → b ≡ any (is_repo t o r) start.repo_owners → Keeps (Steady start A) (k b))
      → Keeps (Steady start A) (on_store env (λ f. owns_repo f t o r) >>= k)
  unfolding owns_repo ◌>>=◌ on_store statement_on fail_with
  Keeps-bind-owns env t o r k a h = record { at = λ w p. asked w p (env.statement_fault w.calls) }
    where
      asked :
          (w : World)
          → Steady start A w
          → (f : Option Text)
          → Steady start A
              ((fail_with (λ e. internal) (owns_repo f t o r w.store).0 >>= k) (record {
                store = (owns_repo f t o r w.store).1;
                calls = w.calls ++ statement ∷ [];
              })).1
      asked w p none =
          (h _ (
              ltb-count_rows (is_repo t o r) w.store.repo_owners ∙ ap (any (is_repo t o r)) p.0)).at
            _ (Steady-ask statement a w p)
      asked w p (some x) = Steady-ask statement a w p

  -- The same of a statement whose failure counts as no.
  pub Keeps-bind-statement_owns :
      {B : Type 0} (env : Env) (t o r : Text) (k : Result Text Bool → Handler B)
      → A statement
      → ((b : Result Text Bool)
          → (is_true b ≡ true → any (is_repo t o r) start.repo_owners ≡ true)
          → Keeps (Steady start A) (k b))
      → Keeps (Steady start A) (statement_on env (λ f. owns_repo f t o r) >>= k)
  unfolding owns_repo ◌>>=◌ statement_on
  Keeps-bind-statement_owns env t o r k a h = record {
    at = λ w p. asked w p (env.statement_fault w.calls);
  }
    where
      asked :
          (w : World)
          → Steady start A w
          → (f : Option Text)
          → Steady start A
              (k (owns_repo f t o r w.store).0 (record {
                store = (owns_repo f t o r w.store).1;
                calls = w.calls ++ statement ∷ [];
              })).1
      asked w p none =
          (h _ (λ e.
              sym
                (ltb-count_rows (is_repo t o r) w.store.repo_owners ∙ ap (any (is_repo t o r)) p.0)
              ∙ e)).at
            _ (Steady-ask statement a w p)
      asked w p (some x) = (h (err x) (λ e. cc)).at _ (Steady-ask statement a w p)
