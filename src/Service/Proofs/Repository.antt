-- ===== src/Service/Proofs/Repository.antt =====
-- What DeleteRepo of internal/workspacesvc/service.go deletes, whatever the others answer.
use workspace_gateway.Base.{
  Bool, true, [], ◌∷◌, ◌++◌, Option, none, some, ◌≡◌, ◌⊎◌, inl, inr, refl, sym, subst, ◌∙◌, arith,
  All-append, Bool-cases, Text,
}
use workspace_gateway.Base.Exec.{◌>>=◌, Keeps, Keeps-pure, Keeps-if, Keeps-bind, Keeps-require}
use workspace_gateway.Members.Store.{Store, is_repo, owns_repo, remove_repo}
use workspace_gateway.Members.Ownership.{owns, same_repo, owns-remove_repo, ltb-count_rows}
use workspace_gateway.Service.Env.{
  Env, Config, Headers, World, Handler, invalid_argument, not_found, internal, statement,
  get_identity, list_sessions, list_services, delete_repo, fail_with, statement_on, on_store,
}
use workspace_gateway.Service.Proofs.Rules.{
  All-Reported, Keeps-bind-ask, Keeps-fail_if, Keeps-on_store, Keeps-bind-resolve, Resolves,
}
use workspace_gateway.Service.Proofs.Owners.{same_repo_sound}
use workspace_gateway.Service.Removal.{or_nil, remove_repository}
use workspace_gateway.Service.Proofs.Demolition.{
  IsOwner, IsDemolition, stated, identified, sessions_listed, services_listed, repo_removed, Sound,
  asked, asks, each, services,
}

module _ (env : Env) (cfg : Config) (hdr : Headers) (org repo : Text) (s : Store) where
  removes :
      (t : Text)
      → Resolves env cfg hdr t
      → (f : Option Text) (w : World) → Sound env cfg hdr org repo s w
      → Sound env cfg hdr org repo s (record {
        store = (remove_repo f t org repo w.store).1;
        calls = w.calls ++ statement ∷ [];
      })
  unfolding remove_repo
  removes t rt (some x) w p = asked env cfg hdr org repo s statement stated w p
  removes t rt none w p = record {
    allowed =
        All-append (IsDemolition env cfg hdr org repo s) w.calls (statement ∷ []) p.allowed
          (stated, tt);
    kept = λ t' o r h. p.kept t' o r (ground (arith, owns-remove_repo t org repo t' o r w.store));
    lost = λ t' o r h. elim (p.lost t' o r h) [
      | inr gone ↦ inr gone
      | inl has ↦ elim (Bool-cases (same_repo t org repo t' o r)) [
        | inl e ↦
            let (et, eo, er) = same_repo_sound t org repo t' o r e in
            inr (sym eo, sym er, subst (Resolves env cfg hdr) et rt)
        | inr e ↦ inl (ground (arith, owns-remove_repo t org repo t' o r w.store))
      ]
    ];
  }

  -- Who owns the repository when it is asked owned it at the start.
  owned_bind :
      {B : Type 0} (t : Text) (k : Bool → Handler B)
      → ((b : Bool)
          → (b ≡ true → owns t org repo s ≡ true)
          → Keeps (Sound env cfg hdr org repo s) (k b))
      → Keeps (Sound env cfg hdr org repo s) (on_store env (λ f. owns_repo f t org repo) >>= k)
  unfolding owns_repo ◌>>=◌ on_store statement_on fail_with
  owned_bind t k h = record { at = λ w p. answered w p (env.statement_fault w.calls) }
    where
      answered :
          (w : World)
          → Sound env cfg hdr org repo s w
          → (f : Option Text)
          → Sound env cfg hdr org repo s
              ((fail_with (λ e. internal) (owns_repo f t org repo w.store).0 >>= k) (record {
                store = (owns_repo f t org repo w.store).1;
                calls = w.calls ++ statement ∷ [];
              })).1
      answered w p none =
          (h _ (λ e.
              p.kept t org repo
                (sym (ltb-count_rows (is_repo t org repo) w.store.repo_owners) ∙ e))).at
            _ (asked env cfg hdr org repo s statement stated w p)
      answered w p (some x) = asked env cfg hdr org repo s statement stated w p

  remove_repository-Keeps :
      Keeps (Sound env cfg hdr org repo s) (remove_repository env cfg hdr org repo)
  unfolding remove_repository
  remove_repository-Keeps =
      Keeps-bind-resolve env cfg hdr (asked env cfg hdr org repo s get_identity identified) _
        λ t rt. Keeps-require _ invalid_argument _ λ v. owned_bind t _ λ b own.
          Keeps-require b not_found _ λ is_owned.
            let o : IsOwner env cfg hdr org repo s t = (rt, own is_owned) in
            Keeps-bind-ask list_sessions env.sessions _
              (asked env cfg hdr org repo s _ sessions_listed)
              λ h.
                Keeps-bind _ _
                  (each env cfg hdr org repo s t (or_nil (env.sessions h)) o
                    (All-Reported env.sessions h (env.sessions h) refl))
                  λ _.
                    Keeps-bind _ _
                      (Keeps-if cfg.has_services _ _
                        (λ _.
                          Keeps-bind-ask list_services env.services _
                            (asked env cfg hdr org repo s _ services_listed)
                            λ calls.
                              services env cfg hdr org repo s t (or_nil (env.services calls)) o
                                (All-Reported env.services calls (env.services calls) refl))
                        (λ _. Keeps-pure tt))
                      λ _.
                        Keeps-bind _ _
                          (asks env cfg hdr org repo s (delete_repo org repo) _ (repo_removed t o))
                          λ e. Keeps-bind _ _ (Keeps-fail_if _ e) λ _.
                            Keeps-bind _ _
                              (Keeps-on_store env (λ f. remove_repo f t org repo) (removes t rt))
                              λ _. Keeps-pure true

  remove_repository-Sound :
      Sound env cfg hdr org repo s
        (remove_repository env cfg hdr org repo (record { store = s; calls = [] })).1
  remove_repository-Sound =
      remove_repository-Keeps.at (record { store = s; calls = [] })
        (record { allowed = tt; kept = λ t o r h. h; lost = λ t o r h. inl h })

-- Whoever owned a repository owns it after DeleteRepo, unless it is the repository deleted and its
-- owner a tenant of the caller's.
remove_repository_owners :
    (env : Env) (cfg : Config) (hdr : Headers) (org repo : Text) (s : Store) (t o r : Text)
    → owns t o r s ≡ true
    → (owns t o r
          (remove_repository env cfg hdr org repo (record { store = s; calls = [] })).1.store
        ≡ true)
      ⊎ ((o ≡ org) × (r ≡ repo) × Resolves env cfg hdr t)
remove_repository_owners env cfg hdr org repo s =
    (remove_repository-Sound env cfg hdr org repo s).lost
