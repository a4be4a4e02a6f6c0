-- ===== src/Helm/Api.antt =====
-- What internal/helmmgr/helmmgr.go asks of others: the ConfigMaps of the Kubernetes API, its dynamic
-- client, the YAML parser and the chart engine are parameters, with the records that it stores.
use workspace_gateway.Base.{
  ℕ, Bool, true, false, ◌&&◌, List, ◌∷◌, [], ◌++◌, Option, ◌≡◌, ◌⊎◌, any, keep, Text, text_eq,
  Result, ok, err,
}
use workspace_gateway.Base.Exec.{Exec}
use workspace_gateway.Base.Table.{delete}

-- `Object`
pub record Object : Type 0 where
  pub api_version : Text
  pub kind : Text
  pub name : Text

-- `Revision`
pub record Revision : Type 0 where
  pub revision : ℕ
  pub ref : Text
  pub chart_path : Text
  pub chart_version : Text
  pub app_version : Text
  pub values : Text
  pub created_at : ℕ
  pub objects : List Object
  pub manifest : Text

-- `Release`
pub record Release : Type 0 where
  pub name : Text
  pub namespace : Text
  pub creator : Text
  pub session : Text
  pub org_ns : Text
  pub ref : Text
  pub chart_path : Text
  pub chart_version : Text
  pub app_version : Text
  pub revision : ℕ
  pub status : Text
  pub updated_at : ℕ
  pub history : List Revision
  pub objects : List Object

-- `RenderOptions`
pub record RenderOptions : Type 0 where
  pub release : Text
  pub chart_path : Text
  pub values_yaml : Text
  pub ref : Text
  pub org_ns : Text

-- `ChartMeta`
pub record ChartMeta : Type 0 where
  pub version : Text
  pub app_version : Text

-- The value of `recordKindLabel`; an old head has none.
pub data RecordKind : Type 0 where
  record_head record_revision unlabelled : RecordKind

-- A ConfigMap that carries `releaseLabel`: its name, the labels that are read, and its data as they
-- decode. A key that is missing, or whose value does not decode, is `none`.
pub record ConfigMap : Type 0 where
  pub name : Text
  pub release : Text
  pub kind : RecordKind
  -- What `strconv.Atoi` reads of `revisionLabel`.
  pub number : Option ℕ
  -- The keys "release" and "revision".
  pub head : Option Release
  pub body : Option Revision

-- An error of the API.
pub data ApiError : Type 0 where
  absent already_exists : ApiError
  call_failed : Text → ApiError

pub data HelmError : Type 0 where
  invalid_name no_revision undecodable no_objects : HelmError
  release_not_found : Text → HelmError
  revision_not_found : ℕ → HelmError
  kind_not_allowed namespace_not_allowed cluster_scoped not_allowed : Text → HelmError
  from_api : ApiError → HelmError
  -- The chart engine, the YAML parser or the REST mapper failed.
  from_engine : Text → HelmError

-- A ConfigMap has the name.
abbrev pub named : Text → ConfigMap → Bool
named name m = text_eq m.name name

-- The selector of a release.
abbrev pub of_release : Text → ConfigMap → Bool
of_release release m = text_eq m.release release

abbrev pub is_revision : ConfigMap → Bool
is_revision m = elim m.kind [ record_revision ↦ true | _ ↦ false ]

-- The selector of a release's revision bodies.
abbrev pub body_of : Text → ConfigMap → Bool
body_of release m = of_release release m && is_revision m

-- The calls on the ConfigMaps of the namespace, each of which may fail. `S` is the state of the
-- cluster, and `maps` the ConfigMaps in it.
pub record MapsApi (S : Type 0) : Type 0 where
  pub maps : S → List ConfigMap
  pub get_map : Text → Exec ApiError S ConfigMap
  pub list_maps : (ConfigMap → Bool) → Exec ApiError S (List ConfigMap)
  pub create_map : ConfigMap → Exec ApiError S (Unit {0})
  pub update_map : ConfigMap → Exec ApiError S (Unit {0})
  pub delete_map : Text → Exec ApiError S (Unit {0})

-- What the API documents: a name is held once, reading changes nothing, and a call that changes
-- something did so or, where it failed, may have.
pub record IsMapsApi {S : Type 0} (api : MapsApi S) : Type 0 where
  pub get_keeps : (name : Text) (s : S) → api.maps (api.get_map name s).1 ≡ api.maps s
  pub list_keeps : (p : ConfigMap → Bool) (s : S) → api.maps (api.list_maps p s).1 ≡ api.maps s
  pub list_selects :
      (p : ConfigMap → Bool) (s : S) (l : List ConfigMap)
      → (api.list_maps p s).0 ≡ ok l
      → l ≡ keep p (api.maps s)
  -- A new ConfigMap stands where no other has its name.
  pub create_adds :
      (m : ConfigMap) (s : S)
      → (api.maps (api.create_map m s).1 ≡ api.maps s)
        ⊎ ((any (named m.name) (api.maps s) ≡ false)
            × (api.maps (api.create_map m s).1 ≡ api.maps s ++ m ∷ []))
  pub create_succeeds :
      (m : ConfigMap) (s : S)
      → (api.create_map m s).0 ≡ ok tt
      → api.maps (api.create_map m s).1 ≡ api.maps s ++ m ∷ []
  pub update_replaces :
      (m : ConfigMap) (s : S)
      → (api.maps (api.update_map m s).1 ≡ api.maps s)
        ⊎ (api.maps (api.update_map m s).1 ≡ delete (named m.name) (api.maps s) ++ m ∷ [])
  pub update_succeeds :
      (m : ConfigMap) (s : S)
      → (api.update_map m s).0 ≡ ok tt
      → api.maps (api.update_map m s).1 ≡ delete (named m.name) (api.maps s) ++ m ∷ []
  pub delete_removes :
      (name : Text) (s : S)
      → (api.maps (api.delete_map name s).1 ≡ api.maps s)
        ⊎ (api.maps (api.delete_map name s).1 ≡ delete (named name) (api.maps s))
  pub delete_succeeds :
      (name : Text) (s : S)
      → (api.delete_map name s).0 ≡ ok tt
      → api.maps (api.delete_map name s).1 ≡ delete (named name) (api.maps s)
  pub delete_absent :
      (name : Text) (s : S)
      → (api.delete_map name s).0 ≡ err absent
      → (any (named name) (api.maps s) ≡ false) × (api.maps (api.delete_map name s).1 ≡ api.maps s)

-- A rendered document as `unstructured.Unstructured` reads it, the calls of the dynamic client, and
-- the calls of the chart engine. `Doc` are the documents, `S` the states of the cluster.
pub record Engine (S Doc : Type 0) : Type 0 where
  -- `yaml.Unmarshal`: an error, or the fields, none of them for an empty document.
  pub parse : Text → Result Text (Option Doc)
  pub api_version_of : Doc → Text
  pub kind_of : Doc → Text
  pub name_of : Doc → Text
  pub namespace_of : Doc → Text
  -- A nested field holds the Boolean true.
  pub is_true : List Text → Doc → Bool
  -- The elements of a nested slice that are maps, and none where it is no slice.
  pub slice_of : List Text → Doc → List Doc
  -- The document is a map with the key.
  pub has_key : Text → Doc → Bool
  -- A nested string that is not empty.
  pub string_at : List Text → Doc → Option Text
  pub set_label : Text → Text → Doc → Doc
  pub set_namespace : Text → Doc → Doc
  pub set_resource_version : Doc → Doc → Doc
  pub set_string : List Text → Text → Doc → Doc
  -- Of a group, version and kind: the resource, and whether its scope is the root.
  pub rest_mapping : Text → Text → Result Text (Text × Bool)
  pub get_object : Text → Text → Exec ApiError S Doc
  pub create_object : Text → Doc → Exec ApiError S (Unit {0})
  pub update_object : Text → Doc → Exec ApiError S (Unit {0})
  pub delete_object : Text → Text → Exec ApiError S (Unit {0})
  -- Loading the chart, parsing the values and rendering: the templates by name.
  pub render : Text → RenderOptions → Result Text (List (Text × Text) × ChartMeta)
  -- The clock, in milliseconds.
  pub now : S → ℕ

abbrev pub lifted : {A : Type 0} → Result ApiError A → Result HelmError A
lifted (ok a) = ok a
lifted (err e) = err (from_api e)

module _ {S A : Type 0} where
  -- A call whose error is returned.
  unfoldable pub call : Exec ApiError S A → Exec HelmError S A
  call m s = let (r, s') = m s in (lifted r, s')

  -- A call whose error the code looks at.
  unfoldable pub outcome : Exec ApiError S A → Exec HelmError S (Result ApiError A)
  outcome m s = let (r, s') = m s in (ok r, s')
