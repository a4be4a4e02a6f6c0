-- ===== src/Services/Volumes.antt =====
-- internal/servicesmgr/services.go: persistent volume claims.
use workspace_gateway.Base.{
  Bool, true, false, ◌&&◌, not, List, [], ◌∷◌, ◌++◌, Option, none, some, if◌then◌else◌, null, Text,
  codes, text_eq, Result, ok, err,
}
use workspace_gateway.Base.Exec.{Exec, ◌>>=◌, ◌>>◌, pure, raise, attempt, require}
use workspace_gateway.Services.Api.{
  Deployment, Claim, ServiceError, absent, name_required, invalid_size, another_tenant, is_mounted,
  Cluster,
}

-- A managed Deployment's name for each of its volumes with the claim.
abbrev pub mounts_in : Text → Text → List Text → List Text
mounts_in claim name [] = []
mounts_in claim name (c ∷ claims) =
    let rest = mounts_in claim name claims in if text_eq c claim then name ∷ rest else rest

abbrev pub mounts_of : Text → List Deployment → List Text
mounts_of claim [] = []
mounts_of claim (d ∷ deps) = mounts_in claim d.name d.claims ++ mounts_of claim deps

abbrev non_empty : Text → Option Text
non_empty [] = none
non_empty (c ∷ t) = some (c ∷ t)

module _ {S : Type 0} (cluster : Cluster S) where
  abbrev pub listed_mounts : Text → Result ServiceError (List Deployment) → List Text
  listed_mounts claim (ok deps) = mounts_of claim deps
  listed_mounts claim (err e) = []

  -- `mountedBy`: no names where the list fails.
  unfoldable pub mounted_by : Text → Exec ServiceError S (List Text)
  unfolding ◌>>=◌
  mounted_by claim = do deps ← attempt cluster.list_deployments; pure (listed_mounts claim deps)

  abbrev pub deleted_or : Result ServiceError (Unit {0}) → Exec ServiceError S Bool
  deleted_or (ok _) = pure true
  deleted_or (err absent) = pure false
  deleted_or (err e) = raise e

  -- `DeletePVC`
  unfoldable pub delete_claim : Text → Exec ServiceError S Bool
  unfolding mounted_by ◌>>=◌
  delete_claim claim = do
    mounted ← mounted_by claim
    require (null mounted) (is_mounted mounted)
    deleted ← attempt (cluster.delete_claim claim)
    deleted_or deleted

  -- `GetPVC`; the Deployments that mount the claim are listed too, and their list may fail.
  unfoldable pub get_claim : Text → Exec ServiceError S (Claim × List Text)
  unfolding mounted_by ◌>>=◌
  get_claim claim = do c ← cluster.get_claim claim; mounted ← mounted_by claim; pure (c, mounted)

  abbrev or_default : Text → Text
  or_default [] = codes "1Gi"
  or_default (c ∷ t) = c ∷ t

  abbrev foreign : Text → Text → Bool
  foreign owner creator = not (null owner) && (not (null creator) && not (text_eq owner creator))

  abbrev pub found_or_created :
      Claim → Result ServiceError (Claim × List Text) → Exec ServiceError S (Claim × List Text)
  found_or_created new (ok (c, mounted)) = do
    require (not (foreign c.creator new.creator)) another_tenant
    pure (c, mounted)
  found_or_created new (err absent) = do cluster.create_claim new; get_claim new.name
  found_or_created new (err e) = raise e

  -- `CreatePVC`
  unfoldable pub create_claim :
      Text → Text → Text → Text → Text → Exec ServiceError S (Claim × List Text)
  unfolding get_claim ◌>>=◌
  create_claim name size storage_class creator namespace = do
    require (not (null name)) name_required
    require (cluster.is_quantity (or_default size)) invalid_size
    existing ← attempt (get_claim name)
    found_or_created
        (record {
          name = name;
          size = or_default size;
          storage_class = non_empty storage_class;
          creator = creator;
          namespace = namespace;
        })
        existing
