-- ===== src/Service/Access.antt =====
-- internal/workspacesvc/service.go: the sandboxes of a session, and what sandbox images are allowed.
use workspace_gateway.Base.{
  ℕ, Bool, true, false, ◌&&◌, ◌||◌, not, List, [], ◌∷◌, ◌++◌, Option, none, some, if◌then◌else◌,
  null, any, keep, ltb, ◌==◌, bool_eq, Text, codes, text_eq, contains, has_prefix, trim_prefix,
  Result, ok, err,
}
use workspace_gateway.Base.Sorting.{sort}
use workspace_gateway.Service.Env.{Config, Code, permission_denied, Sandbox}

unfoldable pub sandbox_accessible : Sandbox → Text → Text → Bool
sandbox_accessible sb tenant caller_session =
    if not (null sb.creator) && not (text_eq sb.creator tenant)
    then false
    else if not (null caller_session) && not (text_eq sb.session caller_session)
    then false
    else true

-- Running or ready.
abbrev pub is_up : Sandbox → Bool
is_up sb = text_eq sb.phase (codes "Running") || sb.ready

-- `pickRepresentative`, with the candidate `prev` as the sandbox that its fields are copied from.
unfoldable pub pick_representative : Sandbox → Sandbox → Bool
pick_representative prev sb =
    if null prev.name
    then true
    else if not (bool_eq (is_up sb) (is_up prev))
    then is_up sb
    else ltb prev.created_at sb.created_at

-- The loop `for i := 1; ...` over the rest of `mine`: what stands before the representative, the
-- representative, what stands between it and the loop's place, and what is still to come.
unfoldable pub choose : List Sandbox → Sandbox → List Sandbox → List Sandbox → List Sandbox
unfolding pick_representative
choose before rep between [] = rep ∷ before ++ between
choose before rep between (sb ∷ rest) =
    let take_it = choose (before ++ rep ∷ between) sb [] rest in
    let leave_it = choose before rep (between ++ sb ∷ []) rest in
    if pick_representative rep sb then take_it else leave_it

abbrev pub representative_first : List Sandbox → List Sandbox
representative_first [] = []
representative_first (sb ∷ rest) = choose [] sb [] rest

-- The sandboxes of a session, the representative first, then the newest first.
unfoldable pub session_sandboxes : List Sandbox → Text → List Sandbox
unfolding choose
session_sandboxes sbxs session =
    representative_first
      (sort (λ a b. ltb b.created_at a.created_at) (keep (λ sb. text_eq sb.session session) sbxs))

-- s[i+3:] for i = strings.Index(s, "://"), where there is one.
unfoldable pub behind_scheme : Text → Option Text
behind_scheme [] = none
behind_scheme (c ∷ s) =
    if has_prefix (c ∷ s) (codes "://")
    then some (trim_prefix (c ∷ s) (codes "://"))
    else behind_scheme s

-- strings.SplitN(s, c, 2): the parts around the first separator.
unfoldable pub cut : ℕ → Text → Text × Option Text
cut sep [] = ([], none)
cut sep (c ∷ s) = let (a, b) = cut sep s in if c == sep then ([], some s) else (c ∷ a, b)

-- s[:strings.LastIndex(s, c)] and the rest from it on, where there is one.
unfoldable pub cut_last : ℕ → Text → Option (Text × Text)
cut_last sep [] = none
cut_last sep (c ∷ s) = elim (cut_last sep s) [
  | some (a, b) ↦ some (c ∷ a, b)
  | none ↦ if c == sep then some ([], c ∷ s) else none
]

-- strings.ContainsAny(s, ".:") or "localhost"
abbrev pub is_host : Text → Bool
is_host s = any (λ c. c == b'.' || c == b':') s || text_eq s (codes "localhost")

abbrev pub no_scheme : Text → Option Text → Text
no_scheme image none = image
no_scheme image (some path) = path

-- The registry host, if the first of several segments looks like one, and what stands behind it.
abbrev pub split_host : Text × Option Text → Text → Text × Text
split_host (first, none) path = ([], path)
split_host (first, some rest) path = if is_host first then (first, rest) else ([], path)

abbrev pub drop_digest : Option (Text × Text) → Text → Text
drop_digest none rest = rest
drop_digest (some (name, _)) rest = name

-- A tag is dropped only in the last segment.
abbrev pub drop_tag : Option (Text × Text) → Text → Text
drop_tag none rest = rest
drop_tag (some (name, tag)) rest = if not (contains tag (codes "/")) then name else rest

-- The host and the path without digest and tag.
unfoldable pub image_parts : Text → Text × Text
unfolding behind_scheme cut cut_last
image_parts image =
    let path = no_scheme image (behind_scheme image) in
    let (got_host, rest) = split_host (cut b'/' path) path in
    let undigested = drop_digest (cut_last b'@' rest) rest in
    (got_host, drop_tag (cut_last b':' undigested) undigested)

unfoldable pub validate_sandbox_image : Config → Text → Result Code (Unit {0})
validate_sandbox_image cfg image =
    if null cfg.sandbox_org && null cfg.sandbox_image_registry_host
    then ok tt
    else (let (got_host, rest) = image_parts image in
        if not (null cfg.sandbox_image_registry_host)
          && not (text_eq got_host cfg.sandbox_image_registry_host)
        then err permission_denied
        else if not (null cfg.sandbox_org) && not (text_eq (cut b'/' rest).0 cfg.sandbox_org)
        then err permission_denied
        else ok tt)
