-- ===== src/Services/Api.antt =====
-- The calls of the Kubernetes API that internal/servicesmgr/services.go makes, as a parameter, and the
-- parts of the objects that it reads and writes.
use workspace_gateway.Base.{ℕ, Bool, List, Option, Text}
use workspace_gateway.Base.Exec.{Exec}

-- `Port`
pub record Port : Type 0 where
  pub suffix : Text
  pub port : ℕ
  pub protocol : Text
  pub target_port : ℕ

-- A Deployment: its managed label, the annotations, the replicas if set, and the claims of its volumes.
-- `paused` is the annotation of `Pause` if it is there: the number that it spells, if it does.
pub record Deployment : Type 0 where
  pub name : Text
  pub managed : Bool
  pub creator : Text
  pub replicas : Option ℕ
  pub paused : Option (Option ℕ)
  pub claims : List Text

-- A Kubernetes Service: its managed label, the creator that it is annotated with, its ports, and the
-- address that it was assigned.
pub record KubeService : Type 0 where
  pub name : Text
  pub managed : Bool
  pub creator : Text
  pub ports : List Port
  pub cluster_ip : Text

-- A PersistentVolumeClaim.
pub record Claim : Type 0 where
  pub name : Text
  pub size : Text
  pub storage_class : Option Text
  pub creator : Text
  pub namespace : Text

pub data ServiceError : Type 0 where
  absent already_exists name_required invalid_size another_tenant : ServiceError
  bad_protocol bad_port : ServiceError
  is_mounted : List Text → ServiceError
  call_failed : Text → ServiceError

pub record Cluster (S : Type 0) : Type 0 where
  pub get_deployment : Text → Exec ServiceError S Deployment
  pub create_deployment : Deployment → Exec ServiceError S (Unit {0})
  pub update_deployment : Deployment → Exec ServiceError S (Unit {0})
  -- Those with the managed label.
  pub list_deployments : Exec ServiceError S (List Deployment)
  pub get_service : Text → Exec ServiceError S KubeService
  pub create_service : KubeService → Exec ServiceError S (Unit {0})
  pub update_service : KubeService → Exec ServiceError S (Unit {0})
  pub get_claim : Text → Exec ServiceError S Claim
  pub create_claim : Claim → Exec ServiceError S (Unit {0})
  pub delete_claim : Text → Exec ServiceError S (Unit {0})
  -- `resource.ParseQuantity` reads the text.
  pub is_quantity : Text → Bool
