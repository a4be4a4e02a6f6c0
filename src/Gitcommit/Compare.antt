-- ===== src/Gitcommit/Compare.antt =====
-- internal/gitcommit/gitcommit.go: what differs between two commits. The differences of two trees, and the
-- patch of each, are go-git's.
use workspace_gateway.Base.{
  ℕ, suc, ◌+◌, ◌&&◌, not, List, [], ◌∷◌, if◌then◌else◌, null, ◌==◌, newline, Text, codes, text_eq,
  text_lt, has_suffix, Result, ok, err, ◌>>=◌,
}
use workspace_gateway.Base.Sorting.{sort}
use workspace_gateway.Base.Table.{insert_or_ignore}
use workspace_gateway.Gitcommit.Git.{GitError, path_required}

pub data ChunkKind : Type 0 where
  equal added removed : ChunkKind

-- The patch of a difference: its text, and the chunks of each file in it.
pub record Patch : Type 0 where
  pub text : Text
  pub files : List (List (ChunkKind × Text))

-- A difference of two trees: the names before and after, empty where there is no file, and the patch,
-- which go-git makes on demand and may fail to.
pub record Change : Type 0 where
  pub before : Text
  pub after : Text
  pub patch : Result GitError Patch

-- `FileChange`
pub record FileChange : Type 0 where
  pub path : Text
  pub status : Text
  pub additions : ℕ
  pub deletions : ℕ
  pub patch : Text

-- `strings.Count` of a newline.
abbrev pub count_newlines : Text → ℕ
count_newlines [] = 0
count_newlines (c ∷ t) = if c == newline then suc (count_newlines t) else count_newlines t

-- The lines of a chunk.
unfoldable pub count_lines : Text → ℕ
count_lines content =
    count_newlines content
    + (if not (has_suffix content (newline ∷ [])) && not (null content) then 1 else 0)

-- `patchStats`
unfoldable pub patch_stats : List (ChunkKind × Text) → ℕ × ℕ
unfolding count_lines
patch_stats [] = (0, 0)
patch_stats ((added, content) ∷ chunks) =
    let (add, del) = patch_stats chunks in (count_lines content + add, del)
patch_stats ((removed, content) ∷ chunks) =
    let (add, del) = patch_stats chunks in (add, count_lines content + del)
patch_stats ((equal, content) ∷ chunks) = patch_stats chunks

abbrev add_stats : List (List (ChunkKind × Text)) → ℕ × ℕ
add_stats [] = (0, 0)
add_stats (p ∷ ps) =
    let (add, del) = patch_stats p in let (adds, dels) = add_stats ps in (add + adds, del + dels)

-- `changePath`
unfoldable pub change_path : Change → Text
change_path ch = if null ch.after then ch.before else ch.after

-- `changeStatus`
unfoldable pub change_status : Change → Text
change_status ch =
    if null ch.before
    then codes "added"
    else if null ch.after
    then codes "deleted"
    else if not (text_eq ch.before ch.after)
    then codes "renamed"
    else codes "modified"

abbrev pub file_change : Change → Patch → FileChange
file_change ch patch =
    let (add, del) = add_stats patch.files in
    record {
      path = change_path ch;
      status = change_status ch;
      additions = add;
      deletions = del;
      patch = patch.text;
    }

-- The loop of `Compare`.
unfoldable pub file_changes : List Change → Result GitError (List FileChange)
unfolding patch_stats change_path change_status
file_changes [] = ok []
file_changes (ch ∷ changes) =
    let rest = file_changes changes in
    ch.patch >>= λ patch. rest >>= λ others. ok (file_change ch patch ∷ others)

abbrev add_name : Text → List Text → List Text
add_name name names = if null name then names else insert_or_ignore (text_eq name) name names

abbrev names_of : List Change → List Text → List Text
names_of [] names = names
names_of (ch ∷ changes) names = names_of changes (add_name ch.after (add_name ch.before names))

-- The differences of two revisions, or why there are none: `Compare`, `ChangedPaths` and `FileDiff` clone
-- the repository, resolve both revisions and take the difference of their trees.
module _ (differences : Text → Text → Result GitError (List Change)) where
  -- `Compare`
  unfoldable pub compare_revisions : Text → Text → Result GitError (List FileChange)
  unfolding file_changes
  compare_revisions base head = differences base head >>= λ changes.
      file_changes changes >>= λ files. ok (sort (λ a b. text_lt a.path b.path) files)

  -- `ChangedPaths`
  unfoldable pub changed_paths : Text → Text → Result GitError (List Text)
  changed_paths base head =
      differences base head >>= λ changes. ok (sort text_lt (names_of changes []))

  abbrev first_text : Text → List Change → Result GitError Text
  first_text path [] = ok []
  first_text path (ch ∷ changes) =
      if not (text_eq ch.before path) && not (text_eq ch.after path)
      then first_text path changes
      else (ch.patch >>= λ patch. ok patch.text)

  -- `FileDiff`
  unfoldable pub file_diff : Text → Text → Text → Result GitError Text
  file_diff base head path =
      if null path then err path_required else (differences base head >>= first_text path)
