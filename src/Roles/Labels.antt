-- ===== src/Roles/Labels.antt =====
-- Two matchers of DNS labels: `ValidServiceName` of internal/roles/roles.go, by a regular expression,
-- and `validReleaseName` of internal/helmmgr/helmmgr.go, by a loop with a shorter bound.
use workspace_gateway.Base.{
  ℕ, zero, suc, ◌+◌, ◌≤◌, ◌<◌, Bool, true, false, ◌&&◌, ◌||◌, not, [], ◌∷◌, ◌≡◌, refl, arith,
  length, ltb, leb, ◌==◌, if◌then◌else◌, Text, Bool-cases, inl, inr,
}
use workspace_gateway.Roles.Names.{
  is_lower, is_digit, is_label_char, matches_label_rest, valid_service_name,
}

-- The loop `for i, r := range s`, at index `i` of a text of `n` bytes. A byte outside ASCII belongs
-- to a rune that fails the same test.
release_loop : ℕ → ℕ → Text → Bool
release_loop n i [] = true
release_loop n i (r ∷ s) =
    let rest = release_loop n (i + 1) s in
    if not (is_lower r || (is_digit r || r == b'-'))
    then false
    else if (i == 0 || i + 1 == n) && r == b'-'
    then false
    else rest

unfoldable pub valid_release_name : Text → Bool
unfolding release_loop
valid_release_name s =
    if length s == 0 || ltb 53 (length s) then false else release_loop (length s) 0 s

-- One round of the loop on a character that is neither the first nor the last.
label_step :
    (n i c l : ℕ) (rest m : Bool)
    → 0 < i
    → n ≡ i + suc (suc l)
    → rest ≡ m
    → (if not (is_lower c || (is_digit c || c == b'-'))
        then false
        else if (i == 0 || i + 1 == n) && c == b'-'
        then false
        else rest)
      ≡ (is_label_char c && m)
label_step n i c l rest m pos e h = ground arith

-- Behind the first character the loop agrees with the regular expression, as long as there is room.
loop-label_rest :
    (room n i c : ℕ) (s : Text)
    → 0 < i
    → n ≡ i + suc (length s)
    → length s ≤ room
    → release_loop n i (c ∷ s) ≡ matches_label_rest room (c ∷ s)
unfolding release_loop matches_label_rest
loop-label_rest room n i c [] pos e h = ground arith
loop-label_rest zero n i c (d ∷ s) pos e h = absurd (omega arith)
loop-label_rest (suc room) n i c (d ∷ s) pos e h =
    label_step n i c (length s) _ _ pos e
      (loop-label_rest room n (i + 1) d s (omega arith) (omega arith) (omega arith))

-- A text is a valid release name exactly if it is a valid service name of at most 53 bytes.
valid_release_name_lem :
    (s : Text) → valid_release_name s ≡ (valid_service_name s && leb (length s) 53)
unfolding valid_release_name valid_service_name
valid_release_name_lem [] = refl
valid_release_name_lem (c ∷ []) = ground arith
valid_release_name_lem (c ∷ d ∷ s) = elim (Bool-cases (leb (length (c ∷ d ∷ s)) 53)) [
  | inl short ↦ ground (
    arith,
    loop-label_rest 61 (length (c ∷ d ∷ s)) 1 d s (omega arith) (omega arith) (ground arith),
  )
  | inr long ↦ ground arith
]
