-- ===== src/Gitcommit/Staging.antt =====
-- internal/gitcommit/gitcommit.go: the staging area of a branch, a placeholder commit at its head. What
-- `clone` returns is a clone that is at the tip of the remote; see Gitcommit/Cache.
use workspace_gateway.Base.{
  Bool, true, false, not, List, [], ◌∷◌, Text, codes, text_eq, Result, ok, err,
}
use workspace_gateway.Base.Exec.{Exec, ◌>>=◌, ◌>>◌, pure, raise, attempt, require}
use workspace_gateway.Gitcommit.Files.{stage, has_staged_changes, unless_up_to_date}
use workspace_gateway.Gitcommit.Git.{
  FileOp, GitError, no_changes, nothing_open, nothing_staged, empty_commit, Commit, Git,
  placeholder_message, is_placeholder,
}

-- `Status`
pub record Status : Type 0 where
  pub placeholder : Bool
  pub staged : Bool
  pub tip : Text
  pub merge_tip : Text

module _ {S : Type 0} (git : Git S) where
  -- Of the first parent, if any: its tree is the commit's.
  abbrev pub is_empty_above : Commit → List Text → Exec GitError S Bool
  is_empty_above commit [] = pure commit.tree_is_empty
  is_empty_above commit (parent ∷ _) = do
    above ← git.commit_object parent
    pure (text_eq commit.tree above.tree)

  -- `commitIsEmpty`
  unfoldable pub commit_is_empty : Commit → Exec GitError S Bool
  unfolding ◌>>=◌
  commit_is_empty commit = is_empty_above commit commit.parents

  -- `push`
  unfoldable pub push : Text → Exec GitError S (Unit {0})
  unfolding ◌>>=◌
  push branch = do pushed ← attempt (git.push_force branch); unless_up_to_date git pushed

  abbrev merge_tip_of : Commit → Result GitError Commit → Text
  merge_tip_of commit (ok parent) = parent.hash
  merge_tip_of commit (err e) = commit.hash

  abbrev pub merge_tip_above : Commit → List Text → Exec GitError S Text
  merge_tip_above commit [] = pure commit.hash
  merge_tip_above commit (parent ∷ _) = do
    above ← attempt (git.commit_object parent)
    pure (merge_tip_of commit above)

  abbrev pub status_of : Commit → Bool → Exec GitError S Status
  status_of commit false =
      pure
        (record { placeholder = false; staged = false; tip = commit.hash; merge_tip = commit.hash })
  status_of commit true = do
    empty ← commit_is_empty commit
    merge_tip ← merge_tip_above commit commit.parents
    pure (record {
      placeholder = true;
      staged = not empty;
      tip = commit.hash;
      merge_tip = merge_tip;
    })

  -- `Status.Status`, behind `clone`.
  unfoldable pub status : Exec GitError S Status
  unfolding commit_is_empty is_placeholder ◌>>=◌
  status = do commit ← git.head_commit; status_of commit (is_placeholder commit.message)

  abbrev pub made_or : Result GitError Text → Exec GitError S Text
  made_or (ok hash) = pure hash
  made_or (err empty_commit) = raise no_changes
  made_or (err e) = raise e

  -- `ApplyFiles`, behind `clone`.
  unfoldable pub apply_files : Text → List FileOp → Exec GitError S Text
  unfolding stage has_staged_changes is_placeholder push ◌>>=◌
  apply_files branch ops = do
    stage git ops
    commit ← git.head_commit
    staged ← has_staged_changes git
    require staged no_changes
    made ← attempt (git.commit placeholder_message (is_placeholder commit.message))
    hash ← made_or made
    push branch
    pure hash

  -- The zero hash.
  abbrev zero_hash : Text
  zero_hash = codes "0000000000000000000000000000000000000000"

  abbrev pub tip_or : Result GitError Text → Exec GitError S Text
  tip_or (ok hash) = pure hash
  tip_or (err empty_commit) = pure zero_hash
  tip_or (err e) = raise e

  -- `Commit`, behind the test of the message and `clone`.
  unfoldable pub commit_staged : Text → Text → Exec GitError S Text
  unfolding commit_is_empty is_placeholder push ◌>>=◌
  commit_staged branch message = do
    commit ← git.head_commit
    require (is_placeholder commit.message) nothing_open
    empty ← commit_is_empty commit
    require (not empty) nothing_staged
    git.worktree
    made ← attempt (git.commit message true)
    tip ← tip_or made
    push branch
    pure tip
