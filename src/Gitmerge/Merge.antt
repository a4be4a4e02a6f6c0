-- ===== src/Gitmerge/Merge.antt =====
-- internal/gitmerge/policies.go and merge3.go: what becomes of one path.
use workspace_gateway.Base.{
  ℕ, zero, suc, Bool, true, false, ◌&&◌, ◌||◌, not, List, [], ◌∷◌, ◌++◌, if◌then◌else◌, any,
  bool_eq, ◌==◌, Text, text_eq, newline,
}
use workspace_gateway.Base.Split.{split_after, concat}
use workspace_gateway.Gitmerge.Marker.{conflict_block, deleted_conflict}

-- `pathContent`
pub record PathContent : Type 0 where
  pub present : Bool
  pub contents : Text
  pub is_dir : Bool

-- `mergeResult`
pub record MergeResult : Type 0 where
  pub content : Text
  pub conflict : Bool
  pub omit : Bool

-- One item of the result of `diff3.Diff3Merge`: lines that need no decision, or the three versions
-- of a region.
pub data Chunk : Type 0 where
  good : List Text → Chunk
  conflicting : List Text → List Text → List Text → Chunk

-- b[:n] for n = min(len(b), sniff)
abbrev pub sniffed : ℕ → Text → Text
sniffed zero b = []
sniffed (suc n) [] = []
sniffed (suc n) (c ∷ b) = c ∷ sniffed n b

unfoldable pub is_binary : Text → Bool
is_binary b = any (λ c. c == 0) (sniffed 8000 b)

unfoldable pub same : PathContent → PathContent → Bool
same a b =
    if not (bool_eq a.present b.present)
    then false
    else if not a.present
    then true
    else text_eq a.contents b.contents

unfoldable pub single : PathContent → MergeResult
single s =
    if not s.present
    then record { content = []; conflict = false; omit = true }
    else record { content = s.contents; conflict = false; omit = false }

unfoldable pub split_lines : Text → List Text
split_lines [] = []
split_lines (c ∷ s) = split_after newline (c ∷ s)

-- The loop of `textMerge` over the chunks, with what the builder holds and the flag.
unfoldable pub render : List Chunk → Text → Bool → Text × Bool
render [] out conflicted = (out, conflicted)
render (good ls ∷ r) out conflicted = render r (out ++ concat ls) conflicted
render (conflicting a o b ∷ r) out conflicted =
    render r (out ++ conflict_block (concat a) (concat o) (concat b)) true

-- `diff3.Diff3Merge(a, o, b, true)` is a parameter.
module _ (diff3_merge : List Text → List Text → List Text → List Chunk) where
  unfoldable pub text_merge : Text → Text → Text → Text × Bool
  text_merge base ours theirs =
      render (diff3_merge (split_lines ours) (split_lines base) (split_lines theirs)) [] false

  -- The error of `resolvePath` is always nil.
  unfoldable pub resolve_path : PathContent → PathContent → PathContent → MergeResult
  resolve_path base ours theirs =
      if same base ours
      then single theirs
      else if same base theirs
      then single ours
      else if not ours.present && not theirs.present
      then record { content = []; conflict = false; omit = true }
      else if not ours.present || not theirs.present
      then (let ours_deleted = not ours.present in
          let survivor = if ours_deleted then theirs.contents else ours.contents in
          if is_binary survivor || is_binary base.contents
          then record { content = survivor; conflict = false; omit = false }
          else record {
            content = deleted_conflict ours.contents base.contents theirs.contents ours_deleted;
            conflict = true;
            omit = false;
          })
      else if is_binary base.contents || (is_binary ours.contents || is_binary theirs.contents)
      then record { content = theirs.contents; conflict = false; omit = false }
      else (let (merged, conflicted) = text_merge base.contents ours.contents theirs.contents in
          record { content = merged; conflict = conflicted; omit = false })
