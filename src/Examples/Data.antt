-- ===== src/Examples/Data.antt =====
-- The theorems on names, tables and merges, on small inputs.
use workspace_gateway.Base.{
  true, false, List, [], ◌∷◌, none, some, ◌≡◌, refl, All, Text, codes, text_eq, ok, contains,
  has_prefix, has_suffix,
}
use workspace_gateway.Base.Sorting.{sort}
use workspace_gateway.Base.Split.{split}
use workspace_gateway.Examples.Deployment.{other, org, repo, store}
use workspace_gateway.Gitmerge.Marker.{has_markers}
use workspace_gateway.Gitmerge.Merge.{
  PathContent, Chunk, conflicting, same, resolve_path, is_binary, text_merge, render, single,
}
use workspace_gateway.Gitmerge.Outcome.{resolve_conflict_marked}
use workspace_gateway.Gitmerge.Sync.{Repository, Options, Entry, Removal, Committal, sync}
use workspace_gateway.Gitmerge.Worktree.{IsAllowed, sync_effects}
use workspace_gateway.Members.Store.{list_repos}
use workspace_gateway.Roles.Names.{valid_component, parse_session, session_name}
use workspace_gateway.Roles.Sessions.{parse-session_name, parse_session_sound}

abbrev dev : Text
dev = codes "feature/x"

org_is_component : valid_component org ≡ true
unfolding valid_component contains has_prefix has_suffix
org_is_component = refl

repo_is_component : valid_component repo ≡ true
unfolding valid_component contains has_prefix has_suffix
repo_is_component = refl

dev_is_component : valid_component dev ≡ true
unfolding valid_component contains has_prefix has_suffix
dev_is_component = refl

parse-session_name_example : parse_session (session_name org repo dev) ≡ some (org, repo, dev)
parse-session_name_example =
    parse-session_name org repo dev org_is_component repo_is_component dev_is_component

parses : parse_session (codes "org:repo:feature/x") ≡ some (org, repo, dev)
unfolding parse_session split valid_component contains has_prefix has_suffix
parses = refl

parse_session_sound_example :
    (codes "org:repo:feature/x" ≡ session_name org repo dev)
    × (valid_component org ≡ true)
    × (valid_component repo ≡ true)
    × (valid_component dev ≡ true)
parse_session_sound_example = parse_session_sound (codes "org:repo:feature/x") org repo dev parses

-- A merge that leaves all to decide.
abbrev undecided : List Text → List Text → List Text → List Chunk
undecided a o b = conflicting a o b ∷ []

abbrev file : Text → PathContent
file t = record { present = true; contents = t; is_dir = false }

abbrev gone : PathContent
gone = record { present = false; contents = []; is_dir = false }

is_conflict :
    (resolve_path undecided (file (codes "o")) (file (codes "a")) (file (codes "b"))).conflict
    ≡ true
unfolding resolve_path same text_eq is_binary text_merge render
is_conflict = refl

resolve_conflict_marked_example :
    let r = resolve_path undecided (file (codes "o")) (file (codes "a")) (file (codes "b")) in
    (has_markers r.content ≡ true) × (r.omit ≡ false)
resolve_conflict_marked_example =
    resolve_conflict_marked undecided (file (codes "o")) (file (codes "a")) (file (codes "b"))
      is_conflict

is_clean : (resolve_path undecided (file (codes "o")) (file (codes "o")) gone).conflict ≡ false
unfolding resolve_path same text_eq single
is_clean = refl

changed : same (file (codes "o")) (file (codes "a")) ≡ false
unfolding same text_eq
changed = refl

removed : same (file (codes "o")) gone ≡ false
unfolding same
removed = refl

-- A remote with two tips that differ in one file.
abbrev remote : Repository
remote = record {
  clone = none;
  remote = none;
  fetch = none;
  branch_tip = ok (codes "f1");
  base_tip = ok (codes "b1");
  commit_object = λ c. none;
  merge_base = λ a b. ok (codes "b0" ∷ []);
  tree = λ c. none;
  diff_tree = λ a b. ok ((codes "x", codes "x") ∷ []);
  worktree = none;
  find_entry = λ c p. some (Entry.file c);
  read_blob = λ b. ok b;
  remove_file = λ p. Removal.removed;
  write_file = λ p. none;
  stage = none;
  commit = λ m ps. Committal.made (codes "m1");
  push = none;
}

abbrev opts : Options
opts = record {
  repo_url = codes "http://forge/org/repo";
  branch = codes "dev";
  base = codes "main";
}

sync_effects_example : All (IsAllowed remote opts) (sync undecided remote opts []).1
sync_effects_example = sync_effects undecided remote opts

listed : list_repos none other store ≡ (ok ((org, repo) ∷ []), store)
unfolding list_repos sort text_eq
listed = refl
