-- ===== src/Gitcommit/Files.antt =====
-- internal/gitcommit/gitcommit.go: file operations on a work tree, and `Submit`.
use workspace_gateway.Base.{
  ℕ, Bool, false, ◌&&◌, ◌||◌, not, List, [], ◌∷◌, Option, none, some, if◌then◌else◌, null, keep,
  Text, codes, text_eq, has_prefix, contains, trim_space, Result, ok, err,
}
use workspace_gateway.Base.Exec.{Exec, ◌>>=◌, ◌>>◌, pure, raise, attempt, require}
use workspace_gateway.Base.Split.{split, join}
use workspace_gateway.Gitcommit.Git.{
  FileOp, Options, GitError, new_branch_required, message_required, no_operations, no_changes,
  illegal_path, ignored_path, up_to_date, Git,
}

abbrev slash : ℕ
slash = b'/'

-- All but the last.
abbrev pub front : List Text → List Text
front [] = []
front (x ∷ []) = []
front (x ∷ y ∷ l) = x ∷ front (y ∷ l)

abbrev dot_or : Text → Text
dot_or [] = codes "."
dot_or (c ∷ t) = c ∷ t

-- `filepath.Dir` of a path that is relative and without `..`.
unfoldable pub dir_of : Text → Text
dir_of path = dot_or (
    join slash
      (keep (λ part. not (null part) && not (text_eq part (codes "."))) (front (split slash path))))

-- The path of an operation is refused.
unfoldable pub is_illegal : Text → Bool
is_illegal path = null path || (contains path (codes "..") || has_prefix path (codes "/"))

abbrev pub is_ignored : Option (List Text → Bool) → Text → Bool
is_ignored none path = false
is_ignored (some match) path = match (split slash path)

module _ {S : Type 0} (git : Git S) where
  abbrev pub remove_unless_absent : Text → Exec GitError S (Unit {0})
  remove_unless_absent path s = if git.stat_fails path s then (ok tt, s) else git.remove_file path s

  abbrev pub write_to : Text → Text → Exec GitError S (Unit {0})
  write_to path content = do
    if not (text_eq (dir_of path) (codes ".")) && not (null (dir_of path))
        then git.make_dirs (dir_of path)
        else pure tt
    git.create_file path
    git.copy_into path content

  -- `applyFile`
  unfoldable pub apply_file : FileOp → Option (List Text → Bool) → Exec GitError S (Unit {0})
  unfolding is_illegal dir_of ◌>>=◌
  apply_file op ignored = do
    require (not (is_illegal (trim_space op.path))) (illegal_path op.path)
    require (not (is_ignored ignored (trim_space op.path))) (ignored_path (trim_space op.path))
    if text_eq op.op (codes "delete")
        then remove_unless_absent (trim_space op.path)
        else write_to (trim_space op.path) op.content

  unfoldable pub apply_all : List FileOp → Option (List Text → Bool) → Exec GitError S (Unit {0})
  unfolding apply_file ◌>>=◌
  apply_all [] ignored = pure tt
  apply_all (op ∷ ops) ignored = apply_file op ignored >> apply_all ops ignored

  -- `hasStagedChanges`
  unfoldable pub has_staged_changes : Exec GitError S Bool
  unfolding ◌>>=◌
  has_staged_changes = do clean ← git.status_is_clean; pure (not clean)

  -- What `Submit` and `ApplyFiles` do before they commit.
  unfoldable pub stage : List FileOp → Exec GitError S (Unit {0})
  unfolding apply_all ◌>>=◌
  stage ops = do git.worktree; ignored ← git.read_patterns; apply_all ops ignored; git.add_all

  abbrev pub unless_up_to_date : Result GitError (Unit {0}) → Exec GitError S (Unit {0})
  unless_up_to_date (ok _) = pure tt
  unless_up_to_date (err up_to_date) = pure tt
  unless_up_to_date (err e) = raise e

  -- `Submit`; the temporary directory is removed at the end.
  unfoldable pub submit : Options → Text → Text → Text → List FileOp → Exec GitError S Text
  unfolding stage has_staged_changes ◌>>=◌
  submit o base new_branch message ops = do
    require (not (null (trim_space new_branch))) new_branch_required
    require (not (null (trim_space message))) message_required
    require (not (null ops)) no_operations
    _ ← git.new_dir
    git.clone_branch o base
    stage ops
    staged ← has_staged_changes
    require staged no_changes
    hash ← git.commit message false
    git.set_branch new_branch hash
    pushed ← attempt (git.push_new new_branch)
    unless_up_to_date pushed
    pure hash
