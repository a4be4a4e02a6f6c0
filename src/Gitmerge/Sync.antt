-- ===== src/Gitmerge/Sync.antt =====
-- internal/gitmerge/merge.go. go-git and the file system are parameters: what each of their calls
-- returns is a field of `Repository`, and what is done to the work tree and the remote is a log.
use workspace_gateway.Base.{
  Bool, true, false, ◌||◌, List, [], ◌∷◌, ◌++◌, Option, none, some, if◌then◌else◌, null, Text,
  codes, text_eq, text_lt, Result, ok, err,
}
use workspace_gateway.Base.Exec.{Exec, ◌>>=◌, ◌>>◌, pure, raise}
use workspace_gateway.Gitmerge.Merge.{PathContent, MergeResult, Chunk, resolve_path}

-- `Options`; the credentials and the timeout only reach go-git.
pub record Options : Type 0 where
  pub repo_url : Text
  pub branch : Text
  pub base : Text

-- `Result`
pub record Outcome : Type 0 where
  pub clean : Bool
  pub conflicts : List Text
  pub commit : Text

pub data SyncError : Type 0 where
  fields_required self_sync no_merge_base : SyncError
  failed : Text → SyncError

-- An entry that `tree.FindEntry` finds: a blob, or a directory or submodule.
pub data Entry : Type 0 where
  file : Text → Entry
  other : Entry

-- `wt.Filesystem.Remove`
pub data Removal : Type 0 where
  removed not_exist : Removal
  refused : Text → Removal

-- `wt.Commit`
pub data Committal : Type 0 where
  made : Text → Committal
  empty_commit : Committal
  commit_failed : Text → Committal

-- What go-git and the file system answer. A call without a result of interest is `none`, or an error.
pub record Repository : Type 0 where
  pub clone : Option Text
  pub remote : Option Text
  -- `git.NoErrAlreadyUpToDate` is no error here, nor for the push.
  pub fetch : Option Text
  pub branch_tip : Result Text Text
  pub base_tip : Result Text Text
  pub commit_object : Text → Option Text
  pub merge_base : Text → Text → Result Text (List Text)
  pub tree : Text → Option Text
  -- The changes between two commits' trees: the names `To` and `From` of each.
  pub diff_tree : Text → Text → Result Text (List (Text × Text))
  pub worktree : Option Text
  pub find_entry : Text → Text → Option Entry
  pub read_blob : Text → Result Text Text
  pub remove_file : Text → Removal
  -- `MkdirAll` of the parent directory where there is one, `Create` and `io.Copy`.
  pub write_file : Text → Option Text
  pub stage : Option Text
  pub commit : Text → List Text → Committal
  pub push : Option Text

-- What is done to the work tree and the remote, in order.
pub data Effect : Type 0 where
  wrote : Text → Text → Effect
  deleted : Text → Effect
  committed : Text → List Text → Effect
  -- The branch that is pushed, by force.
  pushed : Text → Effect

-- A step that may fail; the effects so far stay also beside an error.
abbrev pub Sync : Type 0 → Type 0
Sync = Exec SyncError (List Effect)

-- A call with a result.
abbrev pub get : {A : Type 0} → Result Text A → Sync A
get (ok a) log = (ok a, log)
get (err e) log = (err (failed e), log)

-- A call that only succeeds or fails.
abbrev pub run : Option Text → Sync (Unit {0})
run none log = (ok tt, log)
run (some e) log = (err (failed e), log)

-- A call whose success is an effect.
abbrev pub does : Effect → Option Text → Sync (Unit {0})
does f none log = (ok tt, log ++ f ∷ [])
does f (some e) log = (err (failed e), log)

abbrev pub absent : PathContent
absent = record { present = false; contents = []; is_dir = false }

-- The set `changed`, sorted: a path is put at its place unless it is there.
unfoldable pub put_path : Text → List Text → List Text
unfolding text_lt
put_path p [] = p ∷ []
put_path p (q ∷ qs) =
    let rest = put_path p qs in
    if text_eq p q then q ∷ qs else if text_lt p q then p ∷ q ∷ qs else q ∷ rest

abbrev put_named : Text → List Text → List Text
put_named name paths = if null name then paths else put_path name paths

unfoldable pub put_changes : List (Text × Text) → List Text → List Text
unfolding put_path
put_changes [] paths = paths
put_changes ((to, from) ∷ r) paths = put_changes r (put_named from (put_named to paths))

module _ (repo : Repository) where
  -- What `readPath` makes of an entry, or of none.
  unfoldable pub read_entry : Option Entry → Sync PathContent
  read_entry none = pure absent
  read_entry (some other) = pure (record { present = false; contents = []; is_dir = true })
  read_entry (some (file blob)) = get (repo.read_blob blob) >>= λ c.
      pure (record { present = true; contents = c; is_dir = false })

  -- `readPath`
  unfoldable pub read_path : Text → Text → Sync PathContent
  unfolding read_entry
  read_path commit path = read_entry (repo.find_entry commit path)

  abbrev pub remove_path : Text → Removal → Sync (Unit {0})
  remove_path path removed = does (deleted path) none
  remove_path path not_exist = pure tt
  remove_path path (refused e) = raise (failed e)

  -- `applyResult`
  unfoldable pub apply_result : Text → MergeResult → Sync (Unit {0})
  apply_result path res =
      if res.omit
      then remove_path path (repo.remove_file path)
      else does (wrote path res.content) (repo.write_file path)

abbrev pub zero_hash : Text
zero_hash = codes "0000000000000000000000000000000000000000"

-- What becomes of `wt.Commit`: an empty commit is no error, and leaves the zero hash.
abbrev pub commit_merge : Text → List Text → Committal → Sync Text
commit_merge message parents (made h) = does (committed message parents) none >> pure h
commit_merge message parents empty_commit = pure zero_hash
commit_merge message parents (commit_failed e) = raise (failed e)

abbrev pub merge_message : Options → Text
merge_message opts =
    codes "Merge branch '"
    ++ (opts.base ++ (codes "' into " ++ (opts.branch ++ codes " (workspace sync)")))

abbrev pub up_to_date : Text → Outcome
up_to_date tip = record { clean = true; conflicts = []; commit = tip }

module _ (diff3_merge : List Text → List Text → List Text → List Chunk) (repo : Repository) where
  -- One round of the loop over the paths.
  unfoldable pub merge_path : Text → Text → Text → Text → Sync MergeResult
  unfolding read_path apply_result
  merge_path base ours theirs p = do
    b ← read_path repo base p
    o ← read_path repo ours p
    t ← read_path repo theirs p
    let res = resolve_path diff3_merge b o t
    apply_result repo p res
    pure res

  unfoldable pub merge_paths : Text → Text → Text → List Text → List Text → Sync (List Text)
  unfolding merge_path
  merge_paths base ours theirs [] conflicts = pure conflicts
  merge_paths base ours theirs (p ∷ ps) conflicts = merge_path base ours theirs p >>= λ res.
      merge_paths base ours theirs ps (if res.conflict then conflicts ++ p ∷ [] else conflicts)

  -- From the merge base on: the changed paths, the loop, the commit and the push.
  unfoldable pub merge_from : Options → Text → Text → Text → Sync Outcome
  merge_from opts base ours theirs = do
    run (repo.tree base)
    run (repo.tree theirs)
    run (repo.tree ours)
    their_changes ← get (repo.diff_tree base theirs)
    our_changes ← get (repo.diff_tree base ours)
    run repo.worktree
    conflicts ←
        merge_paths base ours theirs (put_changes our_changes (put_changes their_changes [])) []
    run repo.stage
    let parents = ours ∷ theirs ∷ []
    hash ← commit_merge (merge_message opts) parents (repo.commit (merge_message opts) parents)
    does (pushed opts.branch) repo.push
    pure (record { clean = null conflicts; conflicts = conflicts; commit = hash })

  abbrev pub from_bases : Options → Text → Text → List Text → Sync Outcome
  from_bases opts ours theirs [] = raise no_merge_base
  from_bases opts ours theirs (base ∷ _) =
      if text_eq base theirs then pure (up_to_date ours) else merge_from opts base ours theirs

  abbrev pub from_tips : Options → Text → Text → Sync Outcome
  from_tips opts ours theirs = do
    run (repo.commit_object ours)
    run (repo.commit_object theirs)
    bases ← get (repo.merge_base ours theirs)
    from_bases opts ours theirs bases

  -- The clone, the fetch and what follows.
  unfoldable pub fetched : Options → Sync Outcome
  fetched opts = do
    run repo.clone
    run repo.remote
    run repo.fetch
    ours ← get repo.branch_tip
    theirs ← get repo.base_tip
    if text_eq ours theirs then pure (up_to_date ours) else from_tips opts ours theirs

  -- `Sync`
  unfoldable pub sync : Options → Sync Outcome
  unfolding fetched
  sync opts =
      if null opts.repo_url || (null opts.branch || null opts.base)
      then raise fields_required
      else if text_eq opts.branch opts.base
      then raise self_sync
      else fetched opts
