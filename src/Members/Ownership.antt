-- ===== src/Members/Ownership.antt =====
-- Who owns what by internal/members/members.go: an ownership table is a set of (tenant, org, repo).
use workspace_gateway.Base.{
  Bool, true, false, ◌&&◌, ◌||◌, not, List, [], ◌∷◌, none, ◌≡◌, refl, arith, ◌∙◌, ap, any, any-map,
  any-keep, map, keep, ltb, Text, text_eq, text_eq_iff, Bool-cases, inl, inr, ok,
}
use workspace_gateway.Base.Sorting.{sort, any-sort}
use workspace_gateway.Base.Table.{
  count_rows, any-insert_or_ignore, any-delete_same, any-delete_other,
}
use workspace_gateway.Members.Store.{
  Store, RepoRow, is_repo, add_repo, owns_repo, remove_repo, list_repos, pair_lt,
}

-- The table holds the row.
abbrev pub owns : Text → Text → Text → Store → Bool
owns tenant org repo s = any (is_repo tenant org repo) s.repo_owners

pub ltb-count_rows :
    {R : Type 0} (test : R → Bool) (rows : List R) → ltb 0 (count_rows test rows) ≡ any test rows
ltb-count_rows test [] = refl
ltb-count_rows test (r ∷ rows) = ground (arith, ltb-count_rows test rows)

pub owns_repo_lem : (t o r : Text) (s : Store) → owns_repo none t o r s ≡ (ok (owns t o r s), s)
unfolding owns_repo
owns_repo_lem t o r s = ap (λ b. (ok b, s)) (ltb-count_rows (is_repo t o r) s.repo_owners)

-- Two keys are the same.
abbrev pub same_repo : Text → Text → Text → Text → Text → Text → Bool
same_repo t o r t' o' r' = text_eq t t' && (text_eq o o' && text_eq r r')

-- Rows with one key answer every test of a key alike.
is_repo_same :
    (t o r t' o' r' : Text) (x : RepoRow)
    → is_repo t o r x ≡ true
    → is_repo t' o' r' x ≡ same_repo t o r t' o' r'
is_repo_same t o r t' o' r' x h =
    ground (arith, text_eq_iff x.tenant t, text_eq_iff x.org o, text_eq_iff x.repo r)

meets_same :
    (t o r t' o' r' : Text) (x : RepoRow)
    → is_repo t' o' r' x ≡ true
    → same_repo t o r t' o' r' ≡ true
    → is_repo t o r x ≡ true
meets_same t o r t' o' r' x h e = ground (
  arith,
  text_eq_iff t t',
  text_eq_iff o o',
  text_eq_iff r r',
  text_eq_iff x.tenant t',
  text_eq_iff x.org o',
  text_eq_iff x.repo r',
  text_eq_iff x.tenant t,
  text_eq_iff x.org o,
  text_eq_iff x.repo r,
)

meets_other :
    (t o r t' o' r' : Text) (x : RepoRow)
    → is_repo t' o' r' x ≡ true
    → same_repo t o r t' o' r' ≡ false
    → is_repo t o r x ≡ false
meets_other t o r t' o' r' x h e = ground (
  arith,
  text_eq_iff t t',
  text_eq_iff o o',
  text_eq_iff r r',
  text_eq_iff x.tenant t',
  text_eq_iff x.org o',
  text_eq_iff x.repo r',
  text_eq_iff x.tenant t,
  text_eq_iff x.org o,
  text_eq_iff x.repo r,
)

-- Where no statement fails, adding a repository to a tenant adds exactly that ownership.
pub owns-add_repo :
    (t o r t' o' r' : Text) (s : Store)
    → owns t' o' r' (add_repo none t o r s).1 ≡ (same_repo t o r t' o' r' || owns t' o' r' s)
unfolding add_repo
owns-add_repo t o r t' o' r' s =
    any-insert_or_ignore (is_repo t' o' r') (is_repo t o r) _ s.repo_owners
      (is_repo_same t o r t' o' r')

-- Where no statement fails, removing a repository from a tenant removes exactly that ownership.
pub owns-remove_repo :
    (t o r t' o' r' : Text) (s : Store)
    → owns t' o' r' (remove_repo none t o r s).1
      ≡ (not (same_repo t o r t' o' r') && owns t' o' r' s)
unfolding remove_repo
owns-remove_repo t o r t' o' r' s = elim (Bool-cases (same_repo t o r t' o' r')) [
  | inl e ↦
      any-delete_same (is_repo t' o' r') (is_repo t o r) s.repo_owners
        (λ x h. meets_same t o r t' o' r' x h e)
      ∙ ground arith
  | inr e ↦
      any-delete_other (is_repo t' o' r') (is_repo t o r) s.repo_owners
        (λ x h. meets_other t o r t' o' r' x h e)
      ∙ ground arith
]

-- Where the query does not fail, listing a tenant's repositories gives exactly those that it owns.
list_repos_lem :
    (t o r : Text) (s : Store) (l : List (Text × Text))
    → list_repos none t s ≡ (ok l, s)
    → any (λ p. text_eq p.0 o && text_eq p.1 r) l ≡ owns t o r s
unfolding list_repos
list_repos_lem t o r s l h =
    let rows = keep (λ x. text_eq x.tenant t) s.repo_owners in
    let wanted : Text × Text → Bool = λ p. text_eq p.0 o && text_eq p.1 r in
    let listed : l ≡ sort pair_lt (map (λ x. (x.org, x.repo)) rows) = cc in
    rw listed (
      any-sort pair_lt wanted _
      ∙ any-map wanted (λ (x : RepoRow). (x.org, x.repo)) rows
      ∙ any-keep _ _ s.repo_owners)
