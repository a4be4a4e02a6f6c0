-- ===== src/Gitcommit/Git.antt =====
-- What internal/gitcommit/gitcommit.go asks of go-git, the file system and the clock, as a parameter, and
-- the values it takes and returns.
use workspace_gateway.Base.{Bool, List, ◌∷◌, ◌++◌, Option, Text, codes, has_prefix}
use workspace_gateway.Base.Exec.{Exec}

-- `FileOp`
pub record FileOp : Type 0 where
  pub path : Text
  pub op : Text
  pub content : Text

-- `Options`; the timeout only reaches the context of the calls.
pub record Options : Type 0 where
  pub repo_url : Text
  pub branch : Text
  pub user : Text
  pub token : Text

pub data GitError : Type 0 where
  new_branch_required message_required no_operations no_changes nothing_open nothing_staged :
      GitError
  path_required : GitError
  illegal_path ignored_path unknown_ref : Text → GitError
  -- `git.NoErrAlreadyUpToDate`, `git.ErrEmptyCommit`, or another error.
  up_to_date empty_commit : GitError
  call_failed : Text → GitError

-- A commit: its hash and message, the hash of its tree and whether that has entries, and its parents.
pub record Commit : Type 0 where
  pub hash : Text
  pub message : Text
  pub tree : Text
  pub tree_is_empty : Bool
  pub parents : List Text

-- The calls on one clone, its work tree and its remote. `S` is the state of all of them.
pub record Git (S : Type 0) : Type 0 where
  -- The temporary directory, and the clone of a branch into it.
  pub new_dir : Exec GitError S Text
  pub clone_branch : Options → Text → Exec GitError S (Unit {0})
  pub worktree : Exec GitError S (Unit {0})
  -- The patterns of the `.gitignore` files and the excludes, as a matcher if there are any.
  pub read_patterns : Exec GitError S (Option (List Text → Bool))
  pub stat_fails : Text → S → Bool
  pub remove_file : Text → Exec GitError S (Unit {0})
  pub make_dirs : Text → Exec GitError S (Unit {0})
  pub create_file : Text → Exec GitError S (Unit {0})
  pub copy_into : Text → Text → Exec GitError S (Unit {0})
  pub add_all : Exec GitError S (Unit {0})
  pub status_is_clean : Exec GitError S Bool
  -- A commit of the index under a message; one that amends may be empty.
  pub commit : Text → Bool → Exec GitError S Text
  -- `Head` and `CommitObject`.
  pub head_commit : Exec GitError S Commit
  pub commit_object : Text → Exec GitError S Commit
  -- A branch is pointed at a hash; the work tree is reset to it.
  pub set_branch : Text → Text → Exec GitError S (Unit {0})
  pub hard_reset : Text → Exec GitError S (Unit {0})
  pub fetch : Text → Exec GitError S (Unit {0})
  pub remote_tip : Text → Exec GitError S Text
  pub resolve_revision : Text → S → Option Text
  pub branch_reference : Text → S → Option Text
  pub remote_reference : Text → S → Option Text
  pub push_new : Text → Exec GitError S (Unit {0})
  pub push_force : Text → Exec GitError S (Unit {0})

-- `PlaceholderPrefix`
abbrev pub placeholder_prefix : Text
placeholder_prefix = codes "ABCP_XXX"

-- `PlaceholderMessage`; its dash is three bytes.
abbrev pub placeholder_message : Text
placeholder_message =
    placeholder_prefix
    ++ (codes " (workspace staging "
        ++ (226 ∷ 128 ∷ 148 ∷ codes " amend before opening a change request)"))

-- `IsPlaceholder`
unfoldable pub is_placeholder : Text → Bool
is_placeholder msg = has_prefix msg placeholder_prefix
