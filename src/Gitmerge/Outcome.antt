-- ===== src/Gitmerge/Outcome.antt =====
-- What `resolvePath` of internal/gitmerge/policies.go promises of one path.
use workspace_gateway.Base.{
  Bool, true, false, ◌||◌, not, List, [], ◌∷◌, ◌++◌, append-nil, append_assoc, ◌≡◌, ◌⊎◌, refl, sym,
  ap, ◌∙◌, arith, if◌then◌else◌, Text, contains, contains-append, newline,
}
use workspace_gateway.Base.Split.{concat, concat-split_after}
use workspace_gateway.Gitmerge.Marker.{
  has_markers, conflict_block, deleted_conflict, has_markers-block, has_markers-conflict_block,
  conflict_block-kept,
}
use workspace_gateway.Gitmerge.Merge.{
  PathContent, MergeResult, Chunk, good, conflicting, same, single, split_lines, render, text_merge,
  resolve_path,
}

-- Splitting into lines loses nothing.
concat-split_lines : (s : Text) → concat (split_lines s) ≡ s
unfolding split_lines
concat-split_lines [] = unfold concat in refl
concat-split_lines (c ∷ s) = concat-split_after newline (c ∷ s)

-- Some chunk is a conflict.
abbrev pub has_conflict : List Chunk → Bool
has_conflict [] = false
has_conflict (good ls ∷ r) = has_conflict r
has_conflict (conflicting a o b ∷ r) = true

pub render_flag :
    (cs : List Chunk) (out : Text) (flag : Bool) → (render cs out flag).1 ≡ flag || has_conflict cs
unfolding render
render_flag [] out flag = ground arith
render_flag (good ls ∷ r) out flag = render_flag r _ flag
render_flag (conflicting a o b ∷ r) out flag = render_flag r _ true ∙ ground arith

render_shift :
    (r : List Chunk) (out more : Text) (g : Bool)
    → ((o : Text) (flag : Bool) → (render r o flag).0 ≡ o ++ (render r [] flag).0)
    → (render r (out ++ more) g).0 ≡ out ++ (render r more g).0
render_shift r out more g ih =
    ih (out ++ more) g ∙ append_assoc out more _ ∙ ap (λ t. out ++ t) (sym (ih more g))

-- What is rendered stands behind what was there before.
render-append :
    (cs : List Chunk) (out : Text) (flag : Bool)
    → (render cs out flag).0 ≡ out ++ (render cs [] flag).0
unfolding render
render-append [] out flag = sym (append-nil out)
render-append (good ls ∷ r) out flag = render_shift r out (concat ls) flag (render-append r)
render-append (conflicting a o b ∷ r) out flag =
    render_shift r out (conflict_block (concat a) (concat o) (concat b)) true (render-append r)

-- A conflict among the chunks is seen by the gate in what is rendered.
render_marked :
    (cs : List Chunk) (out : Text) (flag : Bool)
    → has_conflict cs ≡ true
    → has_markers (render cs out flag).0 ≡ true
unfolding render
render_marked [] out flag h = cc
render_marked (good ls ∷ r) out flag h = render_marked r _ flag h
render_marked (conflicting a o b ∷ r) out flag h =
    rw (render-append r _ true, append_assoc)
      (has_markers-block out _ (concat a) (concat o) (concat b))

-- The lines of the chunks that need no decision.
abbrev pub settled : List Chunk → Text
settled [] = []
settled (good ls ∷ r) = concat ls ++ settled r
settled (conflicting a o b ∷ r) = settled r

render-settled :
    (cs : List Chunk) (out : Text) (flag : Bool)
    → has_conflict cs ≡ false
    → (render cs out flag).0 ≡ out ++ settled cs
unfolding render
render-settled [] out flag h = sym (append-nil out)
render-settled (good ls ∷ r) out flag h =
    render-settled r (out ++ concat ls) flag h ∙ append_assoc out (concat ls) (settled r)
render-settled (conflicting a o b ∷ r) out flag h = cc

-- The result is one side as it stands, its absence included.
abbrev pub IsVerbatim : MergeResult → PathContent → Type 0
IsVerbatim r s =
    (s.present ≡ false) × (r.omit ≡ true)
    ⊎ (s.present ≡ true) × (r.omit ≡ false) × (r.content ≡ s.contents)

single-IsVerbatim : (s : PathContent) → IsVerbatim (single s) s
unfolding single
single-IsVerbatim s = ground arith

deleted_conflict-marked : (o b t : Text) (d : Bool) → has_markers (deleted_conflict o b t d) ≡ true
unfolding deleted_conflict
deleted_conflict-marked o b t true = has_markers-conflict_block [] b t
deleted_conflict-marked o b t false = has_markers-conflict_block o b []

contains_self : (s : Text) → contains s s ≡ true
contains_self s = rw (append-nil s) at (contains-append [] s [])

module _ (diff3_merge : List Text → List Text → List Text → List Chunk) where
  abbrev chunks_of : PathContent → PathContent → PathContent → List Chunk
  chunks_of base ours theirs =
      diff3_merge (split_lines ours.contents) (split_lines base.contents)
        (split_lines theirs.contents)

  -- A path that is reported as a conflict is not removed, and its content carries the sentinel.
  pub resolve_conflict_marked :
      (base ours theirs : PathContent)
      → (resolve_path diff3_merge base ours theirs).conflict ≡ true
      → (has_markers (resolve_path diff3_merge base ours theirs).content ≡ true)
        × ((resolve_path diff3_merge base ours theirs).omit ≡ false)
  unfolding resolve_path text_merge single
  resolve_conflict_marked base ours theirs h = ground (
    arith,
    deleted_conflict-marked ours.contents base.contents theirs.contents (not ours.present),
    render_marked (chunks_of base ours theirs) [] false,
    render_flag (chunks_of base ours theirs) [] false,
  )

  -- A path without a conflict is one side as it stands, or a removal that both sides made, or the
  -- merge of two texts in which every chunk was decided, with nothing inserted.
  resolve_clean :
      (base ours theirs : PathContent)
      → (resolve_path diff3_merge base ours theirs).conflict ≡ false
      → let r = resolve_path diff3_merge base ours theirs in
        IsVerbatim r ours
        ⊎ IsVerbatim r theirs
        ⊎ (has_conflict (chunks_of base ours theirs) ≡ false)
          × (r.content ≡ settled (chunks_of base ours theirs))
  unfolding resolve_path text_merge single
  resolve_clean base ours theirs h = ground (
    arith,
    render-settled (chunks_of base ours theirs) [] false,
    render_flag (chunks_of base ours theirs) [] false,
  )

  -- Where one side removed the file and the other changed it, the changed text is all there in the
  -- result, whether or not it is text.
  resolve_survivor :
      (base ours theirs : PathContent)
      → same base ours ≡ false
      → same base theirs ≡ false
      → ours.present ≡ not theirs.present
      → contains
          (resolve_path diff3_merge base ours theirs).content
          (if ours.present then ours.contents else theirs.contents)
        ≡ true
  unfolding resolve_path deleted_conflict
  resolve_survivor base ours theirs ho ht one = ground (
    arith,
    conflict_block-kept ours.contents base.contents [],
    contains_self ours.contents,
    conflict_block-kept [] base.contents theirs.contents,
    contains_self theirs.contents,
  )
