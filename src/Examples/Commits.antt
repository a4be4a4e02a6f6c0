-- ===== src/Examples/Commits.antt =====
-- The theorems on commits, on a clone that is held in lists, and on caches of clones.
use workspace_gateway.Base.{
  ℕ, Bool, true, false, not, List, [], ◌∷◌, ◌++◌, none, ◌≡◌, ◌∙◌, ◌&&◌, refl, ap, arith, all,
  all-append, length, if◌then◌else◌, Text, codes, contains, has_prefix, Result, ok, err,
}
use workspace_gateway.Base.Exec.{Exec, Keeps}
use workspace_gateway.Base.Leaves.{Leaves}
use workspace_gateway.Gitcommit.Cache.{Cloned, World, clone, evict_locked}
use workspace_gateway.Gitcommit.Compare.{added, patch_stats}
use workspace_gateway.Gitcommit.Files.{submit}
use workspace_gateway.Gitcommit.Git.{FileOp, Options, GitError, Commit, Git, placeholder_message}
use workspace_gateway.Gitcommit.Proofs.Cached.{
  IsBounded, IsEvicted, evict_locked-IsEvicted, clone-IsBounded,
}
use workspace_gateway.Gitcommit.Proofs.Counted.{added_lines, removed_lines, patch_stats_lem}
use workspace_gateway.Gitcommit.Proofs.Legal.{IsInside, IsSubmission, submit-IsSubmission}
use workspace_gateway.Gitcommit.Proofs.Staged.{
  Entry, IsBranch, IsWrite, IsClosed, apply_files-IsWrite, commit_staged-IsClosed,
}
use workspace_gateway.Gitcommit.Staging.{apply_files, commit_staged}

-- The commits of the branch, newest first, and the paths that were written or removed.
record Repo : Type 0 where
  history : List Entry
  paths : List Text

abbrev done : Exec GitError Repo (Unit {0})
done s = (ok tt, s)

abbrev at_path : Text → Exec GitError Repo (Unit {0})
at_path path s = (ok tt, record s { paths = s.paths ++ path ∷ [] })

abbrev message_of : List Entry → Text
message_of [] = []
message_of ((message, tree) ∷ h) = message

abbrev commit_of : List Entry → Result GitError Commit
commit_of [] = err (GitError.call_failed (codes "no commit"))
commit_of ((message, tree) ∷ h) =
    ok (record { hash = tree; message = message; tree = tree; tree_is_empty = false; parents = [] })

abbrev behind_newest : List Entry → List Entry
behind_newest [] = []
behind_newest (e ∷ h) = h

-- The tree of the index is always the same.
abbrev staged_tree : Text
staged_tree = codes "staged"

abbrev git : Git Repo
git = record {
  new_dir = λ s. (ok (codes "/tmp/clone"), s);
  clone_branch = λ _ _. done;
  worktree = done;
  read_patterns = λ s. (ok none, s);
  stat_fails = λ _ _. false;
  remove_file = at_path;
  make_dirs = λ _. done;
  create_file = at_path;
  copy_into = λ _ _. done;
  add_all = done;
  status_is_clean = λ s. (ok false, s);
  commit = λ message amend s. (
    ok (codes "c1"),
    record s {
      history = (message, staged_tree) ∷ (if amend then behind_newest s.history else s.history);
    },
  );
  head_commit = λ s. (commit_of s.history, s);
  commit_object = λ _ s. (commit_of s.history, s);
  set_branch = λ _ _. done;
  hard_reset = λ _. done;
  fetch = λ _. done;
  remote_tip = λ _ s. (ok (codes "c0"), s);
  resolve_revision = λ _ _. none;
  branch_reference = λ _ _. none;
  remote_reference = λ _ _. none;
  push_new = λ _. done;
  push_force = λ _. done;
}

abbrev options : Options
options = record {
  repo_url = codes "http://git/acme/app";
  branch = codes "dev";
  user = codes "root";
  token = codes "secret";
}

abbrev write_op : FileOp
write_op = record { path = codes " a.txt"; op = codes "update"; content = codes "x" }

-- No path that was written leaves the work tree.
abbrev stays : Text → Bool
stays path = not (contains path (codes "..")) && not (has_prefix path (codes "/"))

abbrev AllStay : Repo → Type 0
AllStay s = all stays s.paths ≡ true

stays_behind :
    (l : List Text) (path : Text)
    → all stays l ≡ true
    → IsInside path
    → all stays (l ++ path ∷ []) ≡ true
stays_behind l path h i =
    all-append stays l (path ∷ []) ∙ both _ _ _ h (ap not i.no_parent) (ap not i.relative)
  where
    both : (a b c : Bool) → a ≡ true → b ≡ true → c ≡ true → (a && ((b && c) && true)) ≡ true
    both a b c ha hb hc = ground (arith, ha, hb, hc)

written_stays : (path : Text) → IsInside path → Keeps AllStay (at_path path)
written_stays path i = record { at = λ s p. stays_behind s.paths path p i }

git_submits : IsSubmission git AllStay options (codes "main") (codes "mr/1") (codes "Fix")
git_submits = record {
  inside = record {
    removing = written_stays;
    making = λ _ _. record { at = λ s p. p };
    creating = written_stays;
    copying = λ _ _ _. record { at = λ s p. p };
    opening = record { at = λ s p. p };
    reading = record { at = λ s p. p };
    adding = record { at = λ s p. p };
    looking = record { at = λ s p. p };
  };
  making_dir = record { at = λ s p. p };
  cloning = record { at = λ s p. p };
  committing = record { at = λ s p. p };
  pointing = λ _. record { at = λ s p. p };
  pushing = record { at = λ s p. p };
}

submit-IsSubmission_example :
    Keeps AllStay (submit git options (codes "main") (codes "mr/1") (codes "Fix") (write_op ∷ []))
submit-IsSubmission_example =
    submit-IsSubmission git AllStay options (codes "main") (codes "mr/1") (codes "Fix")
      (write_op ∷ []) git_submits

head_reads_repo :
    (l : List Entry) (c : Commit)
    → commit_of l ≡ ok c
    → (tree : Text) × (rest : List Entry) × (l ≡ (c.message, tree) ∷ rest)
head_reads_repo [] c h = absurd cc
head_reads_repo ((message, tree) ∷ l) c h = (
  tree,
  l,
  ap (λ (r : Result GitError Commit). (elim r [ ok x ↦ x.message | err e ↦ message ], tree) ∷ l) h,
)

git-IsBranch : IsBranch git (λ s. s.history) (λ _. staged_tree)
git-IsBranch = record {
  inside = λ h. record {
    removing = λ _ _. record { at = λ s p. p };
    making = λ _ _. record { at = λ s p. p };
    creating = λ _ _. record { at = λ s p. p };
    copying = λ _ _ _. record { at = λ s p. p };
    opening = record { at = λ s p. p };
    reading = record { at = λ s p. p };
    adding = record { at = λ s p. p };
    looking = record { at = λ s p. p };
  };
  head_keeps = λ _. refl;
  head_reads = λ s c h. head_reads_repo s.history c h;
  object_keeps = λ _ _. refl;
  push_keeps = λ _ _. refl;
  commit_records = λ message hash amend s _. recorded message amend s;
  amend_allows_empty = λ _ _ h. absurd cc;
}
  where
    recorded :
        (message : Text) (amend : Bool) (s : Repo)
        → (message, staged_tree) ∷ (if amend then behind_newest s.history else s.history)
          ≡ (message, staged_tree) ∷ (if amend then behind_newest s.history else s.history)
    recorded message amend s = refl

abbrev commits : List Entry
commits = (codes "Start", codes "t0") ∷ []

apply_files-IsWrite_example :
    Leaves
      (λ (s : Repo). s.history ≡ commits)
      (λ _ s. IsWrite commits s.history)
      (apply_files git (codes "dev") (write_op ∷ []))
apply_files-IsWrite_example =
    apply_files-IsWrite git (λ s. s.history) (λ _. staged_tree) git-IsBranch commits (codes "dev")
      (write_op ∷ [])

abbrev open_commits : List Entry
open_commits = (placeholder_message, codes "t1") ∷ commits

commit_staged-IsClosed_example :
    Leaves
      (λ (s : Repo). s.history ≡ open_commits)
      (λ _ s. IsClosed (codes "Fix") open_commits s.history)
      (commit_staged git (codes "dev") (codes "Fix"))
commit_staged-IsClosed_example =
    commit_staged-IsClosed git (λ s. s.history) (λ _. staged_tree) git-IsBranch open_commits
      (codes "dev") (codes "Fix")

abbrev cloned : Text → ℕ → Cloned
cloned key last = record {
  key = key;
  dir = codes "/data/" ++ key;
  branch = codes "dev";
  last = last;
}

abbrev full : World Repo
full = record {
  cache = cloned (codes "b") 2 ∷ cloned (codes "a") 1 ∷ [];
  outside = record { history = []; paths = [] };
}

evict_locked-IsEvicted_example :
    IsEvicted
      (λ _. git)
      (λ _ s. s)
      (λ _. 3)
      2
      (omega arith)
      full
      (evict_locked (λ _. git) (λ _ s. s) (λ _. 3) 2 full)
evict_locked-IsEvicted_example =
    evict_locked-IsEvicted (λ _. git) (λ _ s. s) (λ _. 3) 2 (omega arith) full

clone-IsBounded_example :
    Keeps
      (IsBounded (λ _. git) (λ _ s. s) (λ _. 3) 2 (omega arith))
      (clone (λ _. git) (λ _ s. s) (λ _. 3) 2 options)
clone-IsBounded_example = clone-IsBounded (λ _. git) (λ _ s. s) (λ _. 3) 2 (omega arith) options

patch_stats_example :
    ((patch_stats ((added, codes "x\ny") ∷ [])).0
      ≡ length (added_lines ((added, codes "x\ny") ∷ [])))
    × ((patch_stats ((added, codes "x\ny") ∷ [])).1
        ≡ length (removed_lines ((added, codes "x\ny") ∷ [])))
patch_stats_example = patch_stats_lem ((added, codes "x\ny") ∷ [])
