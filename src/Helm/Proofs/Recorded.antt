-- ===== src/Helm/Proofs/Recorded.antt =====
-- A revision that `recordRevision` of internal/helmmgr/helmmgr.go records stays stored: neither the
-- write of the head nor `pruneHistory` removes it.
use workspace_gateway.Base.{
  ℕ, Bool, true, false, ◌||◌, not, List, [], ◌∷◌, ◌++◌, Option, none, some, ◌≡◌, inl, inr, refl,
  sym, subst, ap, arith, any, all, keep, length, Text, codes, text_eq, text_eq_iff, text_eq_refl,
  ◌==◌, leb, Bool-cases, &&_true, all-keep, all_weaken, length-append,
}
use workspace_gateway.Base.Exec.{Keeps, Keeps-pure, Keeps-if, Keeps-bind}
use workspace_gateway.Base.Leaves.{
  Leaves, Leaves-pure, Leaves-if, Leaves-bind, Leaves-behind, Leaves-with, Leaves-weaken,
  Leaves-of_Keeps,
}
use workspace_gateway.Base.Table.{delete}
use workspace_gateway.Helm.Api.{Revision, Release, ConfigMap, named, body_of, MapsApi, IsMapsApi}
use workspace_gateway.Helm.Proofs.Bounds.{is_kept}
use workspace_gateway.Helm.Proofs.Keeping.{
  OnMaps, steady_of, upsert-Keeps, delete_one-Keeps, written_head, put_revision-Keeps,
}
use workspace_gateway.Helm.Proofs.Names.{IsWellFormed, kept_IsWellFormed}
use workspace_gateway.Helm.Proofs.Pruned.{list_maps-Leaves}
use workspace_gateway.Helm.Records.{
  itoa, cm_name, rev_cm_name, head_map, body_map, last_of, numbers, newest_numbers, put_head,
  put_revision, prune_one, prune_each, prune_history, put, record_last, record_revision_of,
}
use workspace_gateway.Helm.Proofs.Stored.{
  Stands, IsStored, Stands-keep, Any-front, only_row, upsert-IsStored, newest_kept,
}

text_eq_sym : (a b : Text) → text_eq a b ≡ true → text_eq b a ≡ true
text_eq_sym a b h = subst (λ t. text_eq t a ≡ true) ((text_eq_iff a b).0 h) (text_eq_refl a)

-- The head and a revision body of the same release have different names.
head_name : (release : Text) (n : ℕ) → text_eq (rev_cm_name release n) (cm_name release) ≡ false
unfolding rev_cm_name cm_name
head_name release n = elim (Bool-cases (text_eq (rev_cm_name release n) (cm_name release))) [
  | inl e ↦ absurd (
      omega (
        arith,
        ap length ((text_eq_iff (rev_cm_name release n) (cm_name release)).0 e),
        length-append (codes "helm-release-rev-") (release ++ (codes "-v" ++ itoa n)),
        length-append release (codes "-v" ++ itoa n),
        length-append (codes "-v") (itoa n),
        length-append (codes "helm-release-") release,
      ))
  | inr e ↦ e
]

abbrev revision_in : Option Revision → ℕ
revision_in none = 0
revision_in (some rv) = rv.revision

number_of_last :
    (l : List Revision) (rv : Revision)
    → last_of l ≡ some rv
    → any (◌==◌ rv.revision) (numbers l) ≡ true
number_of_last [] rv h = cc
number_of_last (x ∷ []) rv h = ground (arith, ap revision_in h)
number_of_last (x ∷ y ∷ l) rv h = ground (arith, number_of_last (y ∷ l) rv h)

module _ {S : Type 0} (api : MapsApi S) (lawful : IsMapsApi api) (release : Text)
    (rv : Revision) where
  abbrev body : ConfigMap
  body = body_map release rv

  abbrev Both : List ConfigMap → Type 0
  Both l = IsWellFormed l × Stands body l

  put_head-Both : (r : Release) → r.name ≡ release → Keeps (OnMaps api Both) (put_head api r)
  unfolding put_head
  put_head-Both r e =
      upsert-Keeps api lawful Both (head_map r)
        (λ l fresh (w, st). (
          kept_IsWellFormed.adds (head_map r) l (written_head r) fresh w,
          Any-front (λ x. x ≡ body) l _ st,
        ))
        λ l (w, st). (
          kept_IsWellFormed.replaces (head_map r) l (written_head r) w,
          Any-front (λ x. x ≡ body) (delete (named (cm_name r.name)) l) _
              (Stands-keep body (λ x. not (named (cm_name r.name) x)) l
                (subst (λ n. not (text_eq (rev_cm_name release rv.revision) (cm_name n)) ≡ true)
                  (sym e) (ap not (head_name release rv.revision)))
                st),
        )

  module _ (kept : List ℕ) (number : any (◌==◌ rv.revision) kept ≡ true) where
    -- A ConfigMap with the body's name has a number that is kept.
    abbrev is_spared : ConfigMap → Bool
    is_spared x = not (named x.name body) || is_kept kept x.number

    prune_one-Stands :
        (x : ConfigMap) (n : Option ℕ)
        → x.number ≡ n
        → is_spared x ≡ true
        → Keeps (OnMaps api (Stands body)) (prune_one api kept x.name n)
    prune_one-Stands x none e h = Keeps-pure tt
    prune_one-Stands x (some n) e h =
        Keeps-if (any (◌==◌ n) kept) _ _ (λ _. Keeps-pure tt)
          λ f. delete_one-Keeps api lawful (Stands body) x.name λ l.
            Stands-keep body (λ y. not (named x.name y)) l
              (spared (named x.name body) _ _ h (ap (is_kept kept) e) f)
      where
        spared : (a b c : Bool) → (not a || b) ≡ true → b ≡ c → c ≡ false → not a ≡ true
        spared a b c h e f = ground (arith, h, e, f)

    prune_each-Stands :
        (ms : List ConfigMap)
        → all is_spared ms ≡ true
        → Keeps (OnMaps api (Stands body)) (prune_each api kept ms)
    unfolding prune_each
    prune_each-Stands [] h = Keeps-pure tt
    prune_each-Stands (x ∷ ms) h =
        Keeps-bind _ _ (prune_one-Stands x x.number refl (&&_true (is_spared x) _ h).0)
          λ _. prune_each-Stands ms (&&_true (is_spared x) _ h).1

    all_spared : (l : List ConfigMap) → Both l → all is_spared l ≡ true
    all_spared l (w, st) =
        all_weaken (λ x. not (named body.name x) || is_kept kept x.number) is_spared l
          (λ x h. turned (named x.name body) (named body.name x) _ (text_eq_sym body.name x.name) h)
          (only_row body (named body.name) (λ x. is_kept kept x.number) l (text_eq_refl body.name)
            number (w.held_once body.name) st)
      where
        turned : (a b c : Bool) → (a ≡ true → b ≡ true) → (not b || c) ≡ true → (not a || c) ≡ true
        turned a b c f h = ground (arith, f, h)

    pruned_listed :
        (name : Text) (ms : List ConfigMap)
        → Leaves
            (λ s. OnMaps api Both s × (ms ≡ keep (body_of name) (api.maps s)))
            (λ _. IsStored api lawful body)
            (prune_each api kept ms)
    pruned_listed name ms = record {
      holds = λ s (q, e).
          (Leaves-of_Keeps _ (
              prune_each-Stands ms (
                subst (λ l. all is_spared l ≡ true) (sym e)
                  (all-keep is_spared (body_of name) (api.maps s)
                    (all_spared (api.maps s) q))))).holds
            s q.1;
    }

  prune_history-Stands :
      (history_max : ℕ) (r : Release)
      → any (◌==◌ rv.revision) (numbers r.history) ≡ true
      → all (λ k. leb k rv.revision) (numbers r.history) ≡ true
      → Leaves (OnMaps api Both) (λ _. IsStored api lawful body) (prune_history api history_max r)
  unfolding prune_history
  prune_history-Stands history_max r a b =
      Leaves-if (history_max == 0) _ _ (λ _. Leaves-pure tt λ s (w, st). st)
        λ f. Leaves-bind _ _ _ _ (list_maps-Leaves api lawful Both (body_of r.name)) (
          pruned_listed (newest_numbers history_max (numbers r.history))
            (newest_kept history_max rv.revision (numbers r.history) (ground (arith, f)) a b)
            r.name)

  put-Stands :
      (history_max : ℕ) (r : Release)
      → r.name ≡ release
      → any (◌==◌ rv.revision) (numbers r.history) ≡ true
      → all (λ k. leb k rv.revision) (numbers r.history) ≡ true
      → Leaves (OnMaps api Both) (λ _. IsStored api lawful body) (put api history_max r)
  unfolding put
  put-Stands history_max r e a b =
      Leaves-behind _ _ _ (put_head-Both r e) λ _. prune_history-Stands history_max r a b

module _ {S : Type 0} (api : MapsApi S) (lawful : IsMapsApi api) where
  -- In a cluster where ConfigMap names are held once and revision bodies are named by their release
  -- and number, for a release whose last revision has the greatest number of its history: where
  -- `recordRevision` returns, the body of that revision is stored, though the head was written and
  -- the history pruned behind it.
  pub record_revision_of-IsStored :
      (history_max : ℕ) (r : Release) (rv : Revision)
      → last_of r.history ≡ some rv
      → all (λ k. leb k rv.revision) (numbers r.history) ≡ true
      → Leaves
          (OnMaps api IsWellFormed)
          (λ _. IsStored api lawful (body_map r.name rv))
          (record_revision_of api history_max r)
  unfolding record_revision_of put_revision
  record_revision_of-IsStored history_max r rv e b =
      subst
        (λ o.
          Leaves (OnMaps api IsWellFormed) (λ _. IsStored api lawful (body_map r.name rv))
            (record_last api history_max r o))
        (sym e)
        (Leaves-bind _ _ _ _ put_body λ _.
          Leaves-bind _ _ _ _
            (put-Stands api lawful r.name rv history_max r refl (number_of_last r.history rv e) b)
            λ _. Leaves-pure r λ s st. st)
    where
      put_body :
          Leaves
            (OnMaps api IsWellFormed)
            (λ _. OnMaps api (Both api lawful r.name rv))
            (put_revision api r.name rv)
      put_body =
          Leaves-weaken (OnMaps api IsWellFormed) _ _ _ (λ s w. (w, w)) (λ _ _ q. q)
            (Leaves-with (OnMaps api IsWellFormed) _ _
              (put_revision-Keeps api (OnMaps api IsWellFormed)
                (steady_of api lawful IsWellFormed kept_IsWellFormed) r.name rv)
              (upsert-IsStored api lawful (body_map r.name rv) IsWellFormed))
