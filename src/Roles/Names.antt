-- ===== src/Roles/Names.antt =====
-- internal/roles/roles.go, the names: service names, components and branch sessions. The regular
-- expressions are their matchers, written out.
use workspace_gateway.Base.{
  ℕ, zero, suc, Bool, true, false, ◌&&◌, ◌||◌, not, List, [], ◌∷◌, ◌++◌, Option, none, some, leb,
  ◌==◌, if◌then◌else◌, length, all, Text, codes, contains, has_prefix, has_suffix,
}
use workspace_gateway.Base.Split.{split}

abbrev pub colon : ℕ
colon = b':'

-- `MainBranch`
abbrev pub main_branch : Text
main_branch = codes "main"

abbrev pub is_lower : ℕ → Bool
is_lower c = leb b'a' c && leb c b'z'

abbrev pub is_upper : ℕ → Bool
is_upper c = leb b'A' c && leb c b'Z'

abbrev pub is_digit : ℕ → Bool
is_digit c = leb b'0' c && leb c b'9'

-- [a-z0-9]
abbrev pub is_label_edge : ℕ → Bool
is_label_edge c = is_lower c || is_digit c

-- [-a-z0-9]
abbrev pub is_label_char : ℕ → Bool
is_label_char c = c == b'-' || is_label_edge c

-- `[-a-z0-9]{0,room}[a-z0-9]` to the end of the text.
unfoldable pub matches_label_rest : ℕ → Text → Bool
matches_label_rest room [] = false
matches_label_rest room (c ∷ []) = is_label_edge c
matches_label_rest zero (c ∷ d ∷ s) = false
matches_label_rest (suc room) (c ∷ d ∷ s) = is_label_char c && matches_label_rest room (d ∷ s)

-- `dnsLabelRe`: [a-z0-9] and, where more follows, at most 61 characters and an alphanumeric.
unfoldable pub valid_service_name : Text → Bool
unfolding matches_label_rest
valid_service_name [] = false
valid_service_name (c ∷ []) = is_label_edge c
valid_service_name (c ∷ d ∷ s) = is_label_edge c && matches_label_rest 61 (d ∷ s)

-- [A-Za-z0-9]
abbrev pub is_component_head : ℕ → Bool
is_component_head c = is_upper c || (is_lower c || is_digit c)

-- [A-Za-z0-9._/-]
abbrev pub is_component_char : ℕ → Bool
is_component_char c = is_component_head c || (c == b'.' || (c == b'_' || (c == b'/' || c == b'-')))

-- `componentRe`
unfoldable pub matches_component : Text → Bool
matches_component [] = false
matches_component (c ∷ s) = is_component_head c && (all is_component_char s && leb (length s) 127)

unfoldable pub valid_component : Text → Bool
unfolding matches_component
valid_component s =
    if not (matches_component s)
    then false
    else if contains s (codes ":") || contains s (codes "..")
    then false
    else if has_prefix s (codes "/") || (has_suffix s (codes "/") || contains s (codes "//"))
    then false
    else if has_suffix s (codes ".") || has_suffix s (codes ".lock")
    then false
    else true

-- `org, repo, branch, ok`: `none` is `ok == false`.
abbrev pub three_parts : List Text → Option (Text × Text × Text)
three_parts (a ∷ b ∷ c ∷ []) =
    if valid_component a && (valid_component b && valid_component c) then some (a, b, c) else none
three_parts _ = none

unfoldable pub parse_session : Text → Option (Text × Text × Text)
parse_session name = three_parts (split colon name)

unfoldable pub session_name : Text → Text → Text → Text
session_name org repo branch = org ++ colon ∷ (repo ++ colon ∷ branch)
