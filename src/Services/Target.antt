-- ===== src/Services/Target.antt =====
-- What a rollback of internal/servicesmgr/rollback.go goes back to.
use workspace_gateway.Base.{
  ℕ, ◌<◌, Bool, true, false, ◌&&◌, ◌||◌, not, List, [], ◌∷◌, none, some, ◌≡◌, inl, inr, refl, sym,
  ap, ◌∙◌, arith, if◌then◌else◌, any, all, Any, keep, ltb, leb, ◌==◌, Bool-cases, Option-cases,
  any-keep, all-keep_eq, Any-keep, Any-weaken, Text, ok,
}
use workspace_gateway.Base.Sorting.{sort, any-sort, all-sort, Any-sort, ordered, ordered-sort}
use workspace_gateway.Services.Rollback.{
  ReplicaSet, no_previous_revision, revision_not_found, find_revision, last_below, found_or,
  pick_target, target_revision,
}

-- The revision is older than `cur`, and of those in the list the newest.
abbrev pub IsNewestBelow : ℕ → List ReplicaSet → Text → ReplicaSet → Type 0
IsNewestBelow cur l name rs =
    (rs.name ≡ name)
    × (rs.revision < cur)
    × (all (λ x. leb cur x.revision || leb x.revision rs.revision) l ≡ true)

none_below :
    (cur : ℕ) (l : List ReplicaSet)
    → last_below cur l ≡ none
    → all (λ x. leb cur x.revision) l ≡ true
unfolding last_below
none_below cur [] h = refl
none_below cur (r ∷ rs) h = ground (arith, none_below cur rs)

above_both :
    (cur n : ℕ) (l : List ReplicaSet)
    → all (λ x. leb cur x.revision) l ≡ true
    → all (λ x. leb cur x.revision || leb x.revision n) l ≡ true
above_both cur n [] h = refl
above_both cur n (x ∷ l) h = ground (arith, above_both cur n l)

none_below_any :
    (cur : ℕ) (l : List ReplicaSet)
    → all (λ x. leb cur x.revision) l ≡ true
    → any (λ x. ltb x.revision cur) l ≡ false
none_below_any cur [] h = refl
none_below_any cur (x ∷ l) h = ground (arith, none_below_any cur l)

last_below_newest :
    (cur : ℕ) (name : Text) (l : List ReplicaSet)
    → ordered (λ (r : ReplicaSet). r.revision) l ≡ true
    → last_below cur l ≡ some name
    → Any (IsNewestBelow cur l name) l
unfolding last_below
last_below_newest cur name [] o h = cc
last_below_newest cur name (r ∷ rs) o h = elim (Option-cases (last_below cur rs)) [
  | inl e ↦ inl (
    ground (arith, e, h),
    ground (arith, e, h),
    ground (arith, above_both cur r.revision rs (none_below cur rs e), e, h),
  )
  | inr (t, e) ↦ inr (
      Any-weaken (IsNewestBelow cur rs name) (IsNewestBelow cur (r ∷ rs) name)
        (λ b. leb r.revision b.revision) rs (ground arith)
        (λ b le (en, lt, al). (en, lt, ground arith))
        (last_below_newest cur name rs (ground arith) (ground (arith, e, h))))
]

last_below-some :
    (cur : ℕ) (l : List ReplicaSet)
    → any (λ x. ltb x.revision cur) l ≡ true
    → (name : Text) × (last_below cur l ≡ some name)
unfolding last_below
last_below-some cur [] h = cc
last_below-some cur (r ∷ rs) h = elim (Option-cases (last_below cur rs)) [
  | inl e ↦ (r.name, ground (arith, e, none_below_any cur rs (none_below cur rs e)))
  | inr (t, e) ↦ (t, ground (arith, e))
]

module _ (cur : ℕ) (items : List ReplicaSet) where
  abbrev counted : List ReplicaSet
  counted = keep (λ rs. not (rs.revision == 0)) items

  abbrev history : List ReplicaSet
  history = sort (λ a b. ltb a.revision b.revision) counted

  -- What is found in the history is in the list.
  of_history :
      (P : ReplicaSet → Type 0)
      → Any P history
      → Any (λ rs. (not (rs.revision == 0) ≡ true) × P rs) items
  of_history P m = Any-keep P (λ rs. not (rs.revision == 0)) items (Any-sort _ P counted m)

  history-any :
      (p : ReplicaSet → Bool) → any p history ≡ any (λ rs. not (rs.revision == 0) && p rs) items
  history-any p = any-sort _ p counted ∙ any-keep p (λ rs. not (rs.revision == 0)) items

  history-all :
      (p : ReplicaSet → Bool)
      → all p history ≡ all (λ rs. if not (rs.revision == 0) then p rs else true) items
  history-all p = all-sort _ p counted ∙ all-keep_eq p (λ rs. not (rs.revision == 0)) items

all-true : (l : List ReplicaSet) → all (λ x. true) l ≡ true
all-true [] = refl
all-true (x ∷ l) = all-true l

pick_previous :
    (cur : ℕ) (l : List ReplicaSet)
    → any (λ x. ltb x.revision cur) l ≡ true
    → pick_target cur 0 l ≡ found_or no_previous_revision (last_below cur l)
unfolding pick_target
pick_previous cur [] h = cc
pick_previous cur (r ∷ rs) h = refl

-- The newest of the revisions of `items` that are older than `cur`; a revision of 0 is none.
abbrev pub IsPrevious : ℕ → List ReplicaSet → Text → ReplicaSet → Type 0
IsPrevious cur items name rs =
    (0 < rs.revision)
    × (rs.name ≡ name)
    × (rs.revision < cur)
    × (all
          (λ x.
            if not (x.revision == 0)
            then leb cur x.revision || leb x.revision rs.revision
            else true)
          items
        ≡ true)

-- Where a ReplicaSet has a revision above 0 and below that of the Deployment, a rollback to no given
-- revision goes back to one of these, and to the newest of them.
pub target_revision-IsPrevious :
    (cur : ℕ) (items : List ReplicaSet)
    → any (λ rs. not (rs.revision == 0) && ltb rs.revision cur) items ≡ true
    → (name : Text) × (target_revision cur 0 items ≡ ok name)
      × Any (IsPrevious cur items name) items
unfolding target_revision
target_revision-IsPrevious cur items h =
    let older : any (λ x. ltb x.revision cur) (history cur items) ≡ true =
      history-any cur items (λ x. ltb x.revision cur) ∙ h in
    let (name, e) = last_below-some cur (history cur items) older in
    let found =
      last_below_newest cur name (history cur items)
        (ordered-sort (λ (r : ReplicaSet). r.revision) _) e in
    (
      name,
      pick_previous cur (history cur items) older ∙ ap (found_or no_previous_revision) e,
      Any-weaken _ (IsPrevious cur items name) (λ x. true) items (all-true items)
          (λ rs _ (counts, (en, lt, al)).
            (ground arith, en, lt, sym (history-all cur items _) ∙ al))
          (of_history cur items (IsNewestBelow cur (history cur items) name) found),
    )

find_revision-some :
    (n : ℕ) (l : List ReplicaSet)
    → any (λ x. x.revision == n) l ≡ true
    → (name : Text) × (find_revision n l ≡ some name)
      × Any (λ rs. (rs.name ≡ name) × (rs.revision ≡ n)) l
unfolding find_revision
find_revision-some n [] h = cc
find_revision-some n (r ∷ rs) h = elim (Bool-cases (r.revision == n)) [
  | inl e ↦ (r.name, rw e refl, inl (refl, ground arith))
  | inr e ↦ let (name, f, m) = find_revision-some n rs (ground arith) in (name, rw e f, inr m)
]

pick_given :
    (cur n : ℕ) (l : List ReplicaSet)
    → 0 < n
    → any (λ x. x.revision == n) l ≡ true
    → pick_target cur n l ≡ found_or (revision_not_found n) (find_revision n l)
unfolding pick_target
pick_given cur n [] p h = cc
pick_given cur n (r ∷ rs) p h = ground arith

-- A rollback to a given revision above 0 that a ReplicaSet has goes back to a ReplicaSet with it.
target_revision_given :
    (cur n : ℕ) (items : List ReplicaSet)
    → 0 < n
    → any (λ rs. not (rs.revision == 0) && rs.revision == n) items ≡ true
    → (name : Text) × (target_revision cur n items ≡ ok name)
      × Any (λ rs. (rs.name ≡ name) × (rs.revision ≡ n)) items
unfolding target_revision
target_revision_given cur n items p h =
    let has : any (λ x. x.revision == n) (history cur items) ≡ true =
      history-any cur items (λ x. x.revision == n) ∙ h in
    let (name, e, m) = find_revision-some n (history cur items) has in
    (
      name,
      pick_given cur n (history cur items) p has ∙ ap (found_or (revision_not_found n)) e,
      Any-weaken _ (λ rs. (rs.name ≡ name) × (rs.revision ≡ n)) (λ x. true) items (all-true items)
          (λ rs _ (counts, q). q)
          (of_history cur items (λ rs. (rs.name ≡ name) × (rs.revision ≡ n)) m),
    )
