-- ===== src/Gitmerge/Worktree.antt =====
-- What `Sync` of internal/gitmerge/merge.go does to the work tree and the remote.
use workspace_gateway.Base.{
  ◌||◌, List, [], ◌∷◌, ◌++◌, Option, none, some, ◌≡◌, ◌≢◌, refl, null, All, All-append, Text,
  text_ne, text_eq, Result, ok, err,
}
use workspace_gateway.Base.Exec.{
  ◌>>=◌, Keeps, Keeps-pure, Keeps-raise, Keeps-if, Keeps-bind, keeps_rules,
}
use workspace_gateway.Gitmerge.Merge.{MergeResult, Chunk}
use workspace_gateway.Gitmerge.Sync.{
  Options, fields_required, self_sync, no_merge_base, Repository, Effect, wrote, deleted, committed,
  pushed, Sync, get, run, does, Entry, Removal, Committal, read_entry, remove_path, read_path,
  apply_result, merge_path, merge_paths, commit_merge, merge_from, from_bases, from_tips, fetched,
  up_to_date, sync,
}

-- An effect that a sync of `opts` may have: files of the work tree, a commit whose parents are the
-- two tips in order, and a push of the feature branch.
pub data IsAllowed (repo : Repository) (opts : Options) : Effect → Type 0 where
  writes : (p c : Text) → IsAllowed repo opts (wrote p c)
  deletes : (p : Text) → IsAllowed repo opts (deleted p)
  commits :
      (m a b : Text)
      → repo.branch_tip ≡ ok a
      → repo.base_tip ≡ ok b
      → IsAllowed repo opts (committed m (a ∷ b ∷ []))
  pushes : (b : Text) → b ≡ opts.branch → b ≢ opts.base → IsAllowed repo opts (pushed b)

module _ {P : List Effect → Type 0} where
  Keeps-get : {A : Type 0} (r : Result Text A) → Keeps P (get r)
  Keeps-get (ok a) = record { at = λ log h. h }
  Keeps-get (err e) = record { at = λ log h. h }

  -- What follows may use the answer.
  Keeps-bind-get :
      {A B : Type 0} (r : Result Text A) (f : A → Sync B)
      → ((a : A) → r ≡ ok a → Keeps P (f a))
      → Keeps P (get r >>= f)
  unfolding ◌>>=◌
  Keeps-bind-get (ok a) f k = record { at = λ log h. (k a refl).at log h }
  Keeps-bind-get (err e) f k = record { at = λ log h. h }

  Keeps-run : (r : Option Text) → Keeps P (run r)
  Keeps-run none = record { at = λ log h. h }
  Keeps-run (some e) = record { at = λ log h. h }

  Keeps-does :
      (f : Effect) (r : Option Text)
      → ((log : List Effect) → P log → P (log ++ f ∷ []))
      → Keeps P (does f r)
  Keeps-does f none k = record { at = k }
  Keeps-does f (some e) k = record { at = λ log h. h }

ruleset sync_rules = (keeps_rules, Keeps-get, Keeps-run)

module _ (repo : Repository) (opts : Options) where
  abbrev pub Fine : List Effect → Type 0
  Fine = All (IsAllowed repo opts)

  does-Fine : (f : Effect) (r : Option Text) → IsAllowed repo opts f → Keeps Fine (does f r)
  does-Fine f r a =
      Keeps-does f r (λ log h. All-append (IsAllowed repo opts) log (f ∷ []) h (a, tt))

  entry-Fine : (e : Option Entry) → Keeps Fine (read_entry repo e)
  unfolding read_entry
  entry-Fine none = search sync_rules
  entry-Fine (some Entry.other) = search sync_rules
  entry-Fine (some (Entry.file blob)) = search sync_rules

  read_path-Fine : (c p : Text) → Keeps Fine (read_path repo c p)
  unfolding read_path
  read_path-Fine c p = entry-Fine (repo.find_entry c p)

  remove_path-Fine : (p : Text) (r : Removal) → Keeps Fine (remove_path repo p r)
  remove_path-Fine p Removal.removed = does-Fine (deleted p) none (deletes p)
  remove_path-Fine p Removal.not_exist = search sync_rules
  remove_path-Fine p (Removal.refused e) = search sync_rules

  apply_result-Fine : (p : Text) (r : MergeResult) → Keeps Fine (apply_result repo p r)
  unfolding apply_result
  apply_result-Fine p r =
      Keeps-if r.omit _ _ (λ _. remove_path-Fine p (repo.remove_file p))
        (λ _. does-Fine (wrote p r.content) (repo.write_file p) (writes p r.content))

  commit_merge-Fine :
      (m a b : Text) (c : Committal)
      → repo.branch_tip ≡ ok a
      → repo.base_tip ≡ ok b
      → Keeps Fine (commit_merge m (a ∷ b ∷ []) c)
  commit_merge-Fine m a b (Committal.made h) ha hb =
      Keeps-bind _ _ (does-Fine _ none (commits m a b ha hb)) (λ _. Keeps-pure h)
  commit_merge-Fine m a b Committal.empty_commit ha hb = search sync_rules
  commit_merge-Fine m a b (Committal.commit_failed e) ha hb = search sync_rules

module _ (diff3_merge : List Text → List Text → List Text → List Chunk) (repo : Repository)
    (opts : Options) where
  merge_path-Fine : (b o t p : Text) → Keeps (Fine repo opts) (merge_path diff3_merge repo b o t p)
  unfolding merge_path
  merge_path-Fine b o t p = search (sync_rules, read_path-Fine, apply_result-Fine) depth 12

  merge_paths-Fine :
      (b o t : Text) (ps cs : List Text)
      → Keeps (Fine repo opts) (merge_paths diff3_merge repo b o t ps cs)
  unfolding merge_paths
  merge_paths-Fine b o t [] cs = Keeps-pure cs
  merge_paths-Fine b o t (p ∷ ps) cs =
      Keeps-bind _ _ (merge_path-Fine b o t p) (λ res. merge_paths-Fine b o t ps _)

  merge_from-Fine :
      (base a b : Text)
      → repo.branch_tip ≡ ok a
      → repo.base_tip ≡ ok b
      → opts.branch ≢ opts.base
      → Keeps (Fine repo opts) (merge_from diff3_merge repo opts base a b)
  unfolding merge_from
  merge_from-Fine base a b ha hb d =
      search
        (
          sync_rules,
          merge_paths-Fine,
          commit_merge-Fine repo opts _ a b _ ha hb,
          does-Fine repo opts _ _ (pushes opts.branch refl d),
        )
        depth 20

  from_bases-Fine :
      (a b : Text) (bs : List Text)
      → repo.branch_tip ≡ ok a
      → repo.base_tip ≡ ok b
      → opts.branch ≢ opts.base
      → Keeps (Fine repo opts) (from_bases diff3_merge repo opts a b bs)
  from_bases-Fine a b [] ha hb d = Keeps-raise no_merge_base
  from_bases-Fine a b (base ∷ r) ha hb d =
      Keeps-if (text_eq base b) _ _ (λ _. Keeps-pure (up_to_date a))
        (λ _. merge_from-Fine base a b ha hb d)

  from_tips-Fine :
      (a b : Text)
      → repo.branch_tip ≡ ok a
      → repo.base_tip ≡ ok b
      → opts.branch ≢ opts.base
      → Keeps (Fine repo opts) (from_tips diff3_merge repo opts a b)
  from_tips-Fine a b ha hb d =
      search (sync_rules, λ (bs : List Text). from_bases-Fine a b bs ha hb d) depth 12

  fetched-Fine : opts.branch ≢ opts.base → Keeps (Fine repo opts) (fetched diff3_merge repo opts)
  unfolding fetched
  fetched-Fine d = Keeps-bind _ _ (Keeps-run repo.clone) λ _.
      Keeps-bind _ _ (Keeps-run repo.remote) λ _. Keeps-bind _ _ (Keeps-run repo.fetch) λ _.
        Keeps-bind-get repo.branch_tip _ λ a ha. Keeps-bind-get repo.base_tip _ λ b hb.
          Keeps-if (text_eq a b) _ _ (λ _. Keeps-pure (up_to_date a))
            (λ _. from_tips-Fine a b ha hb d)

  sync-Keeps : Keeps (Fine repo opts) (sync diff3_merge repo opts)
  unfolding sync
  sync-Keeps =
      Keeps-if (null opts.repo_url || (null opts.branch || null opts.base)) _ _
        (λ _. Keeps-raise fields_required)
        (λ _.
          Keeps-if (text_eq opts.branch opts.base) _ _ (λ _. Keeps-raise self_sync)
            (λ d. fetched-Fine (text_ne _ _ d)))

  -- Whatever go-git answers and wherever the operation stops, a sync only writes and deletes files
  -- of its work tree, commits with the feature tip as first parent and the base tip as second, and pushes the
  -- feature branch, which is not the base branch.
  pub sync_effects : All (IsAllowed repo opts) (sync diff3_merge repo opts []).1
  sync_effects = sync-Keeps.at [] tt
