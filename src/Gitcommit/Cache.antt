-- ===== src/Gitcommit/Cache.antt =====
-- internal/gitcommit/gitcommit.go: the clones that a `Manager` keeps, one for each branch of a
-- repository, and the operations on them.
use workspace_gateway.Base.{
  ℕ, zero, suc, Bool, not, List, [], ◌∷◌, ◌++◌, Option, none, some, if◌then◌else◌, null, map, codes,
  ◌&&◌, length, ltb, leb, Text, text_eq, trim_space, Result, ok, err,
}
use workspace_gateway.Base.Exec.{Exec, ◌>>=◌, ◌>>◌, pure, raise, attempt, require}
use workspace_gateway.Base.Table.{delete, first}
use workspace_gateway.Gitcommit.Files.{unless_up_to_date}
use workspace_gateway.Gitcommit.Git.{
  FileOp, Options, GitError, message_required, no_operations, unknown_ref, Git,
}
use workspace_gateway.Gitcommit.Staging.{Status, push, status, apply_files, commit_staged}

-- `cloned`, with the key that the cache holds it under. Its credentials are those of `Options`.
pub record Cloned : Type 0 where
  pub key : Text
  pub dir : Text
  pub branch : Text
  pub last : ℕ

-- The cache, and the clones and remotes behind it.
pub record World (S : Type 0) : Type 0 where
  pub cache : List Cloned
  pub outside : S

-- `key`
unfoldable pub key_of : Options → Text
key_of o = o.repo_url ++ 0 ∷ o.branch

-- The first clone of those used longest ago.
unfoldable pub oldest : Cloned → List Cloned → Cloned
oldest c [] = c
oldest c (d ∷ l) = oldest (if ltb d.last c.last then d else c) l

abbrev pub has_key : Text → Cloned → Bool
has_key key c = text_eq c.key key

-- The first that was found.
abbrev resolved : {S : Type 0} → Text → List (Option Text) → Exec GitError S Text
resolved ref [] = raise (unknown_ref ref)
resolved ref (some hash ∷ found) = pure hash
resolved ref (none ∷ found) = resolved ref found

module _ {S : Type 0} (git : Text → Git S) (remove_all : Text → S → S) (now : S → ℕ)
    (caps : ℕ) where
  -- A call on the clones and remotes.
  abbrev pub on_git : {A : Type 0} → Exec GitError S A → Exec GitError (World S) A
  on_git m w = let (r, s) = m w.outside in (r, record w { outside = s })

  abbrev pub drop_clone : Cloned → World S → World S
  drop_clone c w = record w {
    cache = delete (has_key c.key) w.cache;
    outside = remove_all c.dir w.outside;
  }

  abbrev pub evict_from : List Cloned → World S → World S
  evict_from [] w = w
  evict_from (c ∷ l) w = drop_clone (oldest c l) w

  -- The loop of `evictLocked`, with one unit of fuel for each clone.
  unfoldable pub evict : ℕ → World S → World S
  unfolding oldest
  evict zero w = w
  evict (suc fuel) w =
      let rest = evict fuel (evict_from w.cache w) in
      if leb caps (length w.cache) && not (null w.cache) then rest else w

  -- `evictLocked`
  unfoldable pub evict_locked : World S → World S
  unfolding evict
  evict_locked w = evict (length w.cache) w

  -- `refresh`
  unfoldable pub refresh : Cloned → Exec GitError S (Unit {0})
  unfolding ◌>>=◌
  refresh c = do
    fetched ← attempt ((git c.dir).fetch c.branch)
    unless_up_to_date (git c.dir) fetched
    tip ← (git c.dir).remote_tip c.branch
    (git c.dir).worktree
    (git c.dir).hard_reset tip
    (git c.dir).set_branch c.branch tip

  abbrev pub add_clone : Options → Text → Exec GitError (World S) Cloned
  add_clone o dir w =
      let c : Cloned = record {
        key = key_of o;
        dir = dir;
        branch = o.branch;
        last = now w.outside;
      } in
      let w' = evict_locked w in (ok c, record w' { cache = w'.cache ++ c ∷ [] })

  abbrev pub keep_clone :
      Options → Text → Result GitError (Unit {0}) → Exec GitError (World S) Cloned
  keep_clone o dir (ok _) = add_clone o dir
  keep_clone o dir (err e) = λ w. (err e, record w { outside = remove_all dir w.outside })

  -- `clone` where no clone is cached.
  unfoldable pub clone_new : Options → Exec GitError (World S) Cloned
  unfolding key_of evict_locked ◌>>=◌
  clone_new o = do
    dir ← on_git (git []).new_dir
    cloned ← attempt (on_git ((git dir).clone_branch o o.branch))
    keep_clone o dir cloned

  abbrev pub touched : Text → ℕ → Cloned → Cloned
  touched key time c = if has_key key c then record c { last = time } else c

  abbrev pub clone_refreshed :
      Options → Cloned → Result GitError (Unit {0}) → Exec GitError (World S) Cloned
  clone_refreshed o c (ok _) w =
      (ok c, record w { cache = map (touched c.key (now w.outside)) w.cache })
  clone_refreshed o c (err e) w = clone_new o (drop_clone c w)

  abbrev pub clone_found : Options → Option Cloned → Exec GitError (World S) Cloned
  clone_found o none = clone_new o
  clone_found o (some c) = do
    refreshed ← attempt (on_git (refresh c))
    clone_refreshed o c refreshed

  -- `clone`
  unfoldable pub clone : Options → Exec GitError (World S) Cloned
  unfolding clone_new refresh key_of ◌>>=◌
  clone o w = clone_found o (first (has_key (key_of o)) w.cache) w

  abbrev forget_found : Option Cloned → World S → World S
  forget_found none w = w
  forget_found (some c) w = drop_clone c w

  -- `forget`
  unfoldable pub forget : Options → Exec GitError (World S) (Unit {0})
  unfolding key_of
  forget o w = (ok tt, forget_found (first (has_key (key_of o)) w.cache) w)

  -- `ApplyFiles`
  unfoldable pub apply_files_to : Options → List FileOp → Exec GitError (World S) Text
  unfolding clone apply_files ◌>>=◌
  apply_files_to o ops = do
    require (not (null ops)) no_operations
    c ← clone o
    on_git (apply_files (git c.dir) c.branch ops)

  -- `Commit`
  unfoldable pub commit_to : Options → Text → Exec GitError (World S) Text
  unfolding clone commit_staged ◌>>=◌
  commit_to o message = do
    require (not (null (trim_space message))) message_required
    c ← clone o
    on_git (commit_staged (git c.dir) c.branch message)

  -- `Status.Status`
  unfoldable pub status_at : Options → Exec GitError (World S) Status
  unfolding clone status ◌>>=◌
  status_at o = do c ← clone o; on_git (status (git c.dir))

  -- `resolveCommit`
  unfoldable pub resolve_commit : Git S → Text → Exec GitError S Text
  resolve_commit g ref s =
      resolved ref
        (g.resolve_revision ref s
          ∷ g.branch_reference ref s
          ∷ g.remote_reference ref s
          ∷ g.branch_reference (codes "origin/" ++ ref) s
          ∷ g.remote_reference (codes "origin/" ++ ref) s
          ∷ [])
        s

  -- `ResetTo`
  unfoldable pub reset_to : Options → Text → Exec GitError (World S) (Unit {0})
  unfolding clone resolve_commit push forget ◌>>=◌
  reset_to o sha = do
    c ← clone o
    hash ← on_git (resolve_commit (git c.dir) sha)
    on_git ((git c.dir).set_branch o.branch hash)
    on_git ((git c.dir).worktree)
    on_git ((git c.dir).hard_reset hash)
    on_git (push (git c.dir) c.branch)
    forget o
