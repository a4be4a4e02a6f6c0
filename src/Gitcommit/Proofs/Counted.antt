-- ===== src/Gitcommit/Proofs/Counted.antt =====
-- What the numbers of internal/gitcommit/gitcommit.go's comparison count.
use workspace_gateway.Base.{
  ℕ, ◌+◌, not, List, [], ◌∷◌, ◌++◌, ◌≡◌, refl, arith, null, keep, length, length-append, newline,
  Text, text_eq, has_suffix,
}
use workspace_gateway.Base.Split.{split_after}
use workspace_gateway.Gitcommit.Compare.{ChunkKind, equal, added, removed, count_lines, patch_stats}

-- The lines of a text: what `strings.SplitAfter` cuts behind each newline, without an empty rest.
abbrev pub lines : Text → List Text
lines content = keep (λ line. not (null line)) (split_after newline content)

count_lines_lem : (content : Text) → count_lines content ≡ length (lines content)
unfolding count_lines split_after has_suffix text_eq
count_lines_lem [] = refl
count_lines_lem (c ∷ []) = ground arith
count_lines_lem (c ∷ d ∷ s) = ground (arith, count_lines_lem (d ∷ s))

-- The lines of the chunks of a kind, in order.
abbrev pub added_lines : List (ChunkKind × Text) → List Text
added_lines [] = []
added_lines ((added, content) ∷ chunks) = lines content ++ added_lines chunks
added_lines ((removed, content) ∷ chunks) = added_lines chunks
added_lines ((equal, content) ∷ chunks) = added_lines chunks

abbrev pub removed_lines : List (ChunkKind × Text) → List Text
removed_lines [] = []
removed_lines ((removed, content) ∷ chunks) = lines content ++ removed_lines chunks
removed_lines ((added, content) ∷ chunks) = removed_lines chunks
removed_lines ((equal, content) ∷ chunks) = removed_lines chunks

more_lines :
    (content : Text) (n : ℕ) (rest : List Text)
    → n ≡ length rest
    → count_lines content + n ≡ length (lines content ++ rest)
more_lines content n rest e =
    omega (arith, count_lines_lem content, length-append (lines content) rest, e)

-- The additions and deletions that `patchStats` counts are the lines of the added and of the removed
-- chunks, where a chunk is cut behind each newline and a last line without one counts as well.
pub patch_stats_lem :
    (chunks : List (ChunkKind × Text))
    → ((patch_stats chunks).0 ≡ length (added_lines chunks))
      × ((patch_stats chunks).1 ≡ length (removed_lines chunks))
unfolding patch_stats
patch_stats_lem [] = (refl, refl)
patch_stats_lem ((added, content) ∷ chunks) =
    let (a, r) = patch_stats_lem chunks in (more_lines content _ (added_lines chunks) a, r)
patch_stats_lem ((removed, content) ∷ chunks) =
    let (a, r) = patch_stats_lem chunks in (a, more_lines content _ (removed_lines chunks) r)
patch_stats_lem ((equal, content) ∷ chunks) = patch_stats_lem chunks
