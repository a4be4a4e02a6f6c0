-- ===== src/Services/Deploying.antt =====
-- internal/servicesmgr/services.go: the ports of a service and the Kubernetes objects that `Deploy` writes.
-- The pod template that it builds between the test of the Services and the writes is given.
use workspace_gateway.Base.{
  ℕ, Bool, true, ◌&&◌, ◌||◌, not, List, [], ◌∷◌, ◌++◌, if◌then◌else◌, any, keep, null, ◌==◌, Text,
  codes, text_eq, Result, ok, err,
}
use workspace_gateway.Base.Exec.{Exec, ◌>>=◌, ◌>>◌, pure, raise, attempt, require}
use workspace_gateway.Services.Api.{
  Port, Deployment, KubeService, ServiceError, absent, already_exists, name_required,
  another_tenant, bad_protocol, bad_port, Cluster,
}

abbrev tcp : Text
tcp = codes "tcp"

-- `siblingName`
unfoldable pub sibling_name : Text → Text → Text
sibling_name name suffix = if null suffix then name else name ++ (codes "-" ++ suffix)

abbrev pub defaulted : ℕ → Port → Port
defaulted container_port p = record p {
  protocol = if null p.protocol then tcp else p.protocol;
  target_port = if p.target_port == 0 then container_port else p.target_port;
}

-- A port of `Deploy`.
unfoldable pub check_port : ℕ → Port → Result ServiceError Port
check_port container_port p =
    if not (null p.protocol)
      && (not (text_eq p.protocol tcp) && not (text_eq p.protocol (codes "udp")))
    then err bad_protocol
    else if not (p.port == 80) && not (p.port == 443)
    then err bad_port
    else ok (defaulted container_port p)

abbrev pub cons_ok :
    Result ServiceError Port → Result ServiceError (List Port) → Result ServiceError (List Port)
cons_ok (err e) rest = err e
cons_ok (ok p) (err e) = err e
cons_ok (ok p) (ok ports) = ok (p ∷ ports)

unfoldable pub check_ports : ℕ → List Port → Result ServiceError (List Port)
unfolding check_port
check_ports container_port [] = ok []
check_ports container_port (p ∷ ports) =
    cons_ok (check_port container_port p) (check_ports container_port ports)

abbrev pub port_or_default : ℕ → ℕ
port_or_default container_port = if container_port == 0 then 8080 else container_port

-- One public port where none is given.
abbrev pub ports_or_default : ℕ → List Port → List Port
ports_or_default container_port [] =
    record { suffix = []; port = 80; protocol = tcp; target_port = container_port } ∷ []
ports_or_default container_port (p ∷ ports) = p ∷ ports

-- The suffixes in the order of their first ports.
unfoldable pub suffixes : List Text → List Port → List Text
suffixes order [] = order
suffixes order (p ∷ ports) =
    suffixes (if any (text_eq p.suffix) order then order else order ++ p.suffix ∷ []) ports

abbrev pub is_foreign : Text → KubeService → Bool
is_foreign creator svc =
    not svc.managed || (not (null creator) && not (text_eq svc.creator creator))

module _ {S : Type 0} (cluster : Cluster S) where
  abbrev pub unless_foreign :
      Text → Result ServiceError KubeService → Exec ServiceError S (Unit {0})
  unless_foreign creator (err absent) = pure tt
  unless_foreign creator (err e) = raise e
  unless_foreign creator (ok cur) = require (not (is_foreign creator cur)) another_tenant

  abbrev pub check_one : Text → Text → Text → Exec ServiceError S (Unit {0})
  check_one name creator suffix =
      attempt (cluster.get_service (sibling_name name suffix)) >>= unless_foreign creator

  -- The loop that refuses to write a Service of another tenant.
  unfoldable pub precheck : Text → Text → List Text → Exec ServiceError S (Unit {0})
  unfolding sibling_name ◌>>=◌
  precheck name creator [] = pure tt
  precheck name creator (suffix ∷ order) =
      check_one name creator suffix >> precheck name creator order

  abbrev pub deployment_or :
      Deployment → Result ServiceError (Unit {0}) → Exec ServiceError S (Unit {0})
  deployment_or dep (ok _) = pure tt
  deployment_or dep (err already_exists) = do
    _ ← cluster.get_deployment dep.name
    cluster.update_deployment dep
  deployment_or dep (err e) = raise e

  -- `applyDeployment`
  unfoldable pub apply_deployment : Deployment → Exec ServiceError S (Unit {0})
  unfolding ◌>>=◌
  apply_deployment dep = attempt (cluster.create_deployment dep) >>= deployment_or dep

  abbrev pub service_or :
      KubeService → Result ServiceError (Unit {0}) → Exec ServiceError S (Unit {0})
  service_or svc (ok _) = pure tt
  service_or svc (err already_exists) = do
    cur ← cluster.get_service svc.name
    cluster.update_service (record svc { cluster_ip = cur.cluster_ip })
  service_or svc (err e) = raise e

  -- `applyService`
  unfoldable pub apply_service : KubeService → Exec ServiceError S (Unit {0})
  unfolding ◌>>=◌
  apply_service svc = attempt (cluster.create_service svc) >>= service_or svc

  abbrev pub service_for : Text → Text → List Port → Text → KubeService
  service_for name creator ports suffix = record {
    name = sibling_name name suffix;
    managed = true;
    creator = creator;
    ports = keep (λ (p : Port). text_eq p.suffix suffix) ports;
    cluster_ip = [];
  }

  -- The loop that writes one Service for each suffix.
  unfoldable pub write_services :
      Text → Text → List Port → List Text → Exec ServiceError S (Unit {0})
  unfolding apply_service sibling_name ◌>>=◌
  write_services name creator ports [] = pure tt
  write_services name creator ports (suffix ∷ order) =
      apply_service (service_for name creator ports suffix)
      >> write_services name creator ports order

  abbrev pub deploy_built :
      Text → Text → List Port → Result ServiceError Deployment → Exec ServiceError S (Unit {0})
  deploy_built name creator ports (err e) = raise e
  deploy_built name creator ports (ok d) = do
    apply_deployment (record d { name = name; managed = true; creator = creator })
    write_services name creator ports (suffixes [] ports)

  abbrev pub deploy_checked :
      Text
      → Text
      → Result ServiceError Deployment
      → Result ServiceError (List Port)
      → Exec ServiceError S (Unit {0})
  deploy_checked name creator built (err e) = raise e
  deploy_checked name creator built (ok ports) = do
    precheck name creator (suffixes [] ports)
    deploy_built name creator ports built

  -- `Deploy`, for the name, the image, the creator, the port of the container, the ports, and the
  -- Deployment or the error that comes of building the pod template.
  unfoldable pub deploy :
      Text
      → Text
      → Text
      → ℕ
      → List Port
      → Result ServiceError Deployment
      → Exec ServiceError S (Unit {0})
  unfolding check_ports suffixes precheck apply_deployment write_services ◌>>=◌
  deploy name image creator container_port ports built = do
    require (not (null name || null image)) name_required
    deploy_checked name creator built (
        check_ports (port_or_default container_port)
          (ports_or_default (port_or_default container_port) ports))
