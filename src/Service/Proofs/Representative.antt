-- ===== src/Service/Proofs/Representative.antt =====
-- The sandboxes of a session, by `sessionSandboxes` of internal/workspacesvc/service.go.
use workspace_gateway.Base.{
  Bool, true, ◌&&◌, ◌||◌, not, List, [], ◌∷◌, ◌++◌, ◌≡◌, refl, ◌∙◌, arith, if◌then◌else◌, null, any,
  all, keep, ltb, leb, any-append, any-keep, all-append, all-keep, bool_eq, Text, text_eq,
}
use workspace_gateway.Base.Sorting.{sort, any-sort, all-sort}
use workspace_gateway.Service.Access.{
  is_up, pick_representative, choose, representative_first, session_sandboxes,
}
use workspace_gateway.Service.Env.{Sandbox}

any-choose :
    (p : Sandbox → Bool) (before : List Sandbox) (rep : Sandbox) (between rest : List Sandbox)
    → any p (choose before rep between rest)
      ≡ (any p before || (p rep || (any p between || any p rest)))
unfolding choose
any-choose p before rep between [] = ground (arith, any-append p before between)
any-choose p before rep between (sb ∷ rest) = ground (
  arith,
  any-choose p (before ++ rep ∷ between) sb [] rest,
  any-choose p before rep (between ++ sb ∷ []) rest,
  any-append p before (rep ∷ between),
  any-append p between (sb ∷ []),
)

any-representative_first :
    (p : Sandbox → Bool) (l : List Sandbox) → any p (representative_first l) ≡ any p l
any-representative_first p [] = refl
any-representative_first p (sb ∷ l) = any-choose p [] sb [] l

-- A test finds a sandbox among those that a session is shown exactly if it finds one among those
-- that are labelled with the session.
any-session_sandboxes :
    (p : Sandbox → Bool) (l : List Sandbox) (session : Text)
    → any p (session_sandboxes l session) ≡ any (λ sb. text_eq sb.session session && p sb) l
unfolding session_sandboxes
any-session_sandboxes p l session =
    any-representative_first p _ ∙ any-sort _ p _ ∙ any-keep p (λ sb. text_eq sb.session session) l

-- `h` goes before `x`: it is up and `x` is not, or they are alike and `x` is not newer.
abbrev pub goes_before : Sandbox → Sandbox → Bool
goes_before h x = if bool_eq (is_up h) (is_up x) then leb x.created_at h.created_at else is_up h

-- The first goes before all others.
abbrev pub best_first : List Sandbox → Bool
best_first [] = true
best_first (h ∷ t) = all (goes_before h) t

abbrev pub named : Sandbox → Bool
named sb = not (null sb.name)

goes_before-all :
    (a b : Sandbox) (l : List Sandbox)
    → goes_before a b ≡ true
    → all (goes_before b) l ≡ true
    → all (goes_before a) l ≡ true
goes_before-all a b [] h t = refl
goes_before-all a b (x ∷ l) h t = ground (arith, goes_before-all a b l)

-- A representative that is replaced comes after the new one, and one that is not comes before.
picked :
    (rep sb : Sandbox)
    → named rep ≡ true
    → (if pick_representative rep sb then goes_before sb rep else goes_before rep sb) ≡ true
unfolding pick_representative
picked rep sb h = ground arith

choose_best :
    (before : List Sandbox) (rep : Sandbox) (between rest : List Sandbox)
    → named rep ≡ true
    → all named rest ≡ true
    → all (goes_before rep) before ≡ true
    → all (goes_before rep) between ≡ true
    → best_first (choose before rep between rest) ≡ true
unfolding choose
choose_best before rep between [] n ns hb hm =
    ground (arith, all-append (goes_before rep) before between)
choose_best before rep between (sb ∷ rest) n ns hb hm = ground (
  arith,
  picked rep sb n,
  goes_before-all sb rep before,
  goes_before-all sb rep between,
  all-append (goes_before sb) before (rep ∷ between),
  all-append (goes_before rep) between (sb ∷ []),
  choose_best (before ++ rep ∷ between) sb [] rest,
  choose_best before rep (between ++ sb ∷ []) rest,
)

representative_best :
    (l : List Sandbox) → all named l ≡ true → best_first (representative_first l) ≡ true
representative_best [] h = refl
representative_best (sb ∷ l) h = choose_best [] sb [] l (ground arith) (ground arith) refl refl

-- Where every sandbox has a name, the first that a session is shown goes before all others: it is
-- running or ready if any of them is, and none that is alike in this is newer.
best_first-session_sandboxes :
    (l : List Sandbox) (session : Text)
    → all named l ≡ true
    → best_first (session_sandboxes l session) ≡ true
unfolding session_sandboxes
best_first-session_sandboxes l session h =
    let mine = keep (λ sb. text_eq sb.session session) l in
    let newer : Sandbox → Sandbox → Bool = λ a b. ltb b.created_at a.created_at in
    representative_best (sort newer mine)
      (all-sort newer named mine ∙ all-keep named (λ sb. text_eq sb.session session) l h)
