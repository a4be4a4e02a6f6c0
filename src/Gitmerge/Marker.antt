-- ===== src/Gitmerge/Marker.antt =====
-- internal/gitmerge/marker.go. A `strings.Builder` that is written in order is the append of what is
-- written.
use workspace_gateway.Base.{
  Bool, true, [], ◌∷◌, ◌++◌, append_assoc, append-nil, ◌≡◌, if◌then◌else◌, Text, codes, contains,
  has_suffix, newline, contains-middle, contains-append, contains-nil, contains_behind,
}

-- `Sentinel`
abbrev pub sentinel : Text
sentinel = codes "ABCP-CONFLICT"

abbrev ours_open : Text
ours_open = codes "<<<<<<< " ++ sentinel ++ codes " (ours)"

abbrev base_open : Text
base_open = codes "||||||| " ++ sentinel ++ codes " (base)"

abbrev split_line : Text
split_line = codes "======="

abbrev theirs_open : Text
theirs_open = codes ">>>>>>> " ++ sentinel ++ codes " (theirs)"

abbrev deleted_side : Text
deleted_side = sentinel ++ codes " (deleted)"

unfoldable pub has_markers : Text → Bool
has_markers b = contains b sentinel

-- `writeSection`: what it appends.
unfoldable pub section : Text → Text
section [] = deleted_side ++ newline ∷ []
section (c ∷ s) = c ∷ s ++ (if has_suffix (c ∷ s) (newline ∷ []) then [] else newline ∷ [])

unfoldable pub conflict_block : Text → Text → Text → Text
conflict_block ours base theirs =
    ours_open
    ++ newline
      ∷ (section ours
          ++ (base_open
              ++ newline
                ∷ (section base
                    ++ (split_line
                        ++ newline ∷ (section theirs ++ (theirs_open ++ newline ∷ []))))))

unfoldable pub deleted_conflict : Text → Text → Text → Bool → Text
deleted_conflict ours base theirs ours_deleted =
    if ours_deleted then conflict_block [] base theirs else conflict_block ours base []

-- Behind any text, a conflict block is seen by the gate.
pub has_markers-block :
    (pre post ours base theirs : Text)
    → has_markers (pre ++ (conflict_block ours base theirs ++ post)) ≡ true
unfolding has_markers conflict_block
has_markers-block pre post ours base theirs = contains-middle pre (codes "<<<<<<< ") sentinel _

pub has_markers-conflict_block :
    (ours base theirs : Text) → has_markers (conflict_block ours base theirs) ≡ true
has_markers-conflict_block ours base theirs =
    rw (append-nil (conflict_block ours base theirs)) at (has_markers-block [] [] ours base theirs)

-- A section holds its side's text.
contains-section : (s rest : Text) → contains (section s ++ rest) s ≡ true
unfolding section
contains-section [] rest = contains-nil _
contains-section (c ∷ s) rest = rw (append_assoc (c ∷ s) _ rest) (contains-append [] (c ∷ s) _)

-- A conflict block holds both sides, in full.
pub conflict_block-kept :
    (ours base theirs : Text)
    → (contains (conflict_block ours base theirs) ours ≡ true)
      × (contains (conflict_block ours base theirs) theirs ≡ true)
unfolding conflict_block
conflict_block-kept ours base theirs =
    let theirs_part = contains-section theirs (theirs_open ++ newline ∷ []) in
    let below_base =
      contains_behind (section base) _ theirs
        (contains_behind (split_line ++ newline ∷ []) _ theirs theirs_part) in
    let below_ours =
      contains_behind (section ours) _ theirs
        (contains_behind (base_open ++ newline ∷ []) _ theirs below_base) in
    (
      contains_behind (ours_open ++ newline ∷ []) _ ours (contains-section ours _),
      contains_behind (ours_open ++ newline ∷ []) _ theirs below_ours,
    )
