-- ===== src/Helm/Records.antt =====
-- internal/helmmgr/helmmgr.go: a release's head record and revision bodies, one ConfigMap each.
use workspace_gateway.Base.{
  ℕ, zero, suc, ◌+◌, ◌-◌, ◌/◌, ◌%◌, List, [], ◌∷◌, ◌++◌, Option, none, some, if◌then◌else◌, any,
  null, map, length, ltb, ◌==◌, Text, codes, Result, ok, err,
}
use workspace_gateway.Base.Exec.{Exec, ◌>>=◌, ◌>>◌, pure, raise, attempt}
use workspace_gateway.Base.Sorting.{sort}
use workspace_gateway.Helm.Api.{
  Revision, Release, record_head, record_revision, ConfigMap, ApiError, absent, already_exists,
  HelmError, no_revision, from_api, body_of, MapsApi, call, outcome,
}

-- The decimal digits of a number before those in `digits`; a number has no more digits than itself
-- and one.
abbrev pub itoa_from : ℕ → ℕ → Text → Text
itoa_from zero n digits = digits
itoa_from (suc fuel) n digits =
    let rest = itoa_from fuel (n / 10) ((b'0' + n % 10) ∷ digits) in
    if ltb n 10 then (b'0' + n) ∷ digits else rest

-- `strconv.Itoa`
unfoldable pub itoa : ℕ → Text
itoa n = itoa_from (suc n) n []

-- `cmName`
unfoldable pub cm_name : Text → Text
cm_name release = codes "helm-release-" ++ release

-- `revCMName`
unfoldable pub rev_cm_name : Text → ℕ → Text
unfolding itoa
rev_cm_name release revision =
    codes "helm-release-rev-" ++ (release ++ (codes "-v" ++ itoa revision))

abbrev pub head_map : Release → ConfigMap
head_map r = record {
  name = cm_name r.name;
  release = r.name;
  kind = record_head;
  number = none;
  head = some (record r { history = [] });
  body = none;
}

abbrev pub body_map : Text → Revision → ConfigMap
body_map release rv = record {
  name = rev_cm_name release rv.revision;
  release = release;
  kind = record_revision;
  number = some rv.revision;
  head = none;
  body = some rv;
}

-- What decodes; the others are passed over.
abbrev pub bodies : List ConfigMap → List Revision
bodies [] = []
bodies (m ∷ ms) = elim m.body [ none ↦ bodies ms | some rv ↦ rv ∷ bodies ms ]

abbrev pub heads : List ConfigMap → List Release
heads [] = []
heads (m ∷ ms) = elim m.head [ none ↦ heads ms | some r ↦ record r { history = [] } ∷ heads ms ]

abbrev pub numbers : List Revision → List ℕ
numbers = map (λ rv. rv.revision)

abbrev pub by_revision : List Revision → List Revision
by_revision l = sort (λ a b. ltb a.revision b.revision) l

abbrev pub last_of {ℓ} : {A : Type ℓ} → List A → Option A
last_of [] = none
last_of (x ∷ []) = some x
last_of (x ∷ y ∷ l) = last_of (y ∷ l)

-- Without the first `n`.
abbrev pub drop {ℓ} : {A : Type ℓ} → ℕ → List A → List A
drop zero l = l
drop (suc n) [] = []
drop (suc n) (x ∷ l) = drop n l

-- The numbers that `pruneHistory` keeps: the last `most` in their order.
unfoldable pub newest_numbers : ℕ → List ℕ → List ℕ
newest_numbers most nums = drop (length nums - most) (sort ltb nums)

module _ {S : Type 0} (api : MapsApi S) where
  abbrev pub upsert_after : ConfigMap → Result ApiError (Unit {0}) → Exec HelmError S (Unit {0})
  upsert_after m (ok _) = pure tt
  upsert_after m (err already_exists) = do _ ← call (api.get_map m.name); call (api.update_map m)
  upsert_after m (err e) = raise (from_api e)

  -- What ends `putHead` and `putRevision`: a create, and an update where the name is taken.
  unfoldable pub upsert : ConfigMap → Exec HelmError S (Unit {0})
  unfolding ◌>>=◌ call outcome
  upsert m = outcome (api.create_map m) >>= upsert_after m

  -- `putHead`
  unfoldable pub put_head : Release → Exec HelmError S (Unit {0})
  unfolding upsert cm_name
  put_head r = upsert (head_map r)

  -- `putRevision`
  unfoldable pub put_revision : Text → Revision → Exec HelmError S (Unit {0})
  unfolding upsert rev_cm_name
  put_revision release rv = upsert (body_map release rv)

  unfoldable pub put_revisions : Text → List Revision → Exec HelmError S (Unit {0})
  unfolding put_revision ◌>>=◌
  put_revisions release [] = pure tt
  put_revisions release (rv ∷ rvs) = put_revision release rv >> put_revisions release rvs

  abbrev pub unless_absent : Result ApiError (Unit {0}) → Exec HelmError S (Unit {0})
  unless_absent (ok _) = pure tt
  unless_absent (err absent) = pure tt
  unless_absent (err e) = raise (from_api e)

  -- A delete that takes a missing name for done.
  unfoldable pub delete_name : Text → Exec HelmError S (Unit {0})
  unfolding ◌>>=◌ outcome
  delete_name name = outcome (api.delete_map name) >>= unless_absent

  abbrev pub prune_one : List ℕ → Text → Option ℕ → Exec HelmError S (Unit {0})
  prune_one kept name none = pure tt
  prune_one kept name (some n) = if any (◌==◌ n) kept then pure tt else delete_name name

  -- The loop of `pruneHistory`.
  unfoldable pub prune_each : List ℕ → List ConfigMap → Exec HelmError S (Unit {0})
  unfolding delete_name ◌>>=◌
  prune_each kept [] = pure tt
  prune_each kept (m ∷ ms) = prune_one kept m.name m.number >> prune_each kept ms

  -- `loadRevisions`
  unfoldable pub load_revisions : Text → Exec HelmError S (List Revision)
  unfolding ◌>>=◌ call
  load_revisions release = do
    items ← call (api.list_maps (body_of release))
    pure (by_revision (bodies items))

  module _ (history_max : ℕ) where
    -- `pruneHistory`; 0 stands for a `historyMax` that is not above 0.
    unfoldable pub prune_history : Release → Exec HelmError S (Unit {0})
    unfolding prune_each newest_numbers ◌>>=◌ call
    prune_history r =
        if history_max == 0
        then pure tt
        else call (api.list_maps (body_of r.name))
          >>= prune_each (newest_numbers history_max (numbers r.history))

    -- `put`
    unfoldable pub put : Release → Exec HelmError S (Unit {0})
    unfolding put_head prune_history ◌>>=◌
    put r = put_head r >> prune_history r

    -- `migrateLegacy`
    unfoldable pub migrate_legacy : Release → Exec HelmError S (Unit {0})
    unfolding put put_revisions ◌>>=◌
    migrate_legacy r = put_revisions r.name r.history >> put r

    -- What `Get` does with a head: a legacy head, with a history of its own, is migrated first, and a
    -- failure of that is swallowed.
    unfoldable pub with_history : Text → Release → Exec HelmError S (Option Release)
    unfolding migrate_legacy load_revisions ◌>>=◌
    with_history release r = do
      _ ← if null r.history then pure (ok tt) else attempt (migrate_legacy r)
      revs ← load_revisions release
      pure (some (record r { history = revs }))

    abbrev pub record_last : Release → Option Revision → Exec HelmError S Release
    record_last r none = raise no_revision
    record_last r (some rv) = do put_revision r.name rv; put r; pure r

    -- `recordRevision`
    unfoldable pub record_revision_of : Release → Exec HelmError S Release
    unfolding put put_revision ◌>>=◌
    record_revision_of r = record_last r (last_of r.history)
