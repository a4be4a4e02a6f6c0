-- ===== src/Roles/Sessions.antt =====
-- Session names of internal/roles/roles.go: printing and parsing are inverse, and what parses.
use workspace_gateway.Base.{
  ℕ, true, List, [], ◌∷◌, some, none, ◌≡◌, ◌≢◌, sym, arith, All-of_all, Text, &&_true, ap, ◌∙◌,
}
use workspace_gateway.Base.Split.{split, Lacks, split_of_Lacks, split-append, join-split, join}
use workspace_gateway.Roles.Names.{
  colon, is_component_head, is_component_char, matches_component, valid_component, three_parts,
  parse_session, session_name,
}

component_char-ne-colon : (c : ℕ) → is_component_char c ≡ true → c ≢ colon
component_char-ne-colon c h = ground arith

component_head-ne-colon : (c : ℕ) → is_component_head c ≡ true → c ≢ colon
component_head-ne-colon c h = ground arith

valid-matches : (s : Text) → valid_component s ≡ true → matches_component s ≡ true
unfolding valid_component
valid-matches s h = ground arith

matches-Lacks : (s : Text) → matches_component s ≡ true → Lacks colon s
unfolding matches_component
matches-Lacks [] h = tt
matches-Lacks (c ∷ s) h =
    let (head, rest) = &&_true _ _ h in
    (
      component_head-ne-colon c head,
      All-of_all is_component_char component_char-ne-colon s (&&_true _ _ rest).0,
    )

pub valid_component-Lacks : (s : Text) → valid_component s ≡ true → Lacks colon s
valid_component-Lacks s h = matches-Lacks s (valid-matches s h)

three_parts_sound :
    (ps : List Text) (org repo branch : Text)
    → three_parts ps ≡ some (org, repo, branch)
    → (ps ≡ org ∷ repo ∷ branch ∷ [])
      × (valid_component org ≡ true)
      × (valid_component repo ≡ true)
      × (valid_component branch ≡ true)
three_parts_sound [] org repo branch h = cc
three_parts_sound (a ∷ []) org repo branch h = cc
three_parts_sound (a ∷ b ∷ []) org repo branch h = cc
three_parts_sound (a ∷ b ∷ c ∷ []) org repo branch h = ground arith
three_parts_sound (a ∷ b ∷ c ∷ d ∷ r) org repo branch h = cc

split_session :
    (org repo branch : Text)
    → valid_component org ≡ true
    → valid_component repo ≡ true
    → valid_component branch ≡ true
    → split colon (session_name org repo branch) ≡ org ∷ repo ∷ branch ∷ []
unfolding session_name
split_session org repo branch ho hr hb = rw (
  split-append colon org _ (valid_component-Lacks org ho),
  split-append colon repo _ (valid_component-Lacks repo hr),
  split_of_Lacks colon branch (valid_component-Lacks branch hb),
)

-- Three legal components survive printing and parsing a session name.
pub parse-session_name :
    (org repo branch : Text)
    → valid_component org ≡ true
    → valid_component repo ≡ true
    → valid_component branch ≡ true
    → parse_session (session_name org repo branch) ≡ some (org, repo, branch)
unfolding parse_session
parse-session_name org repo branch ho hr hb =
    rw (split_session org repo branch ho hr hb) (rw (ho, hr, hb))

-- What parses as a session name is the printed form of its parts, which are legal.
pub parse_session_sound :
    (name org repo branch : Text)
    → parse_session name ≡ some (org, repo, branch)
    → (name ≡ session_name org repo branch)
      × (valid_component org ≡ true)
      × (valid_component repo ≡ true)
      × (valid_component branch ≡ true)
unfolding parse_session session_name join
parse_session_sound name org repo branch h =
    let (parts, ho, hr, hb) = three_parts_sound (split colon name) org repo branch h in
    (sym (join-split colon name) ∙ ap (join colon) parts, ho, hr, hb)

-- A single component is no session name of a branch.
pub parse_session_of_component :
    (name : Text) → valid_component name ≡ true → parse_session name ≡ none
unfolding parse_session
parse_session_of_component name h = rw (split_of_Lacks colon name (valid_component-Lacks name h))
