-- ===== src/Services/Tenants.antt =====
-- `Deploy` of internal/servicesmgr/services.go leaves the Services of other tenants alone.
use workspace_gateway.Base.{
  ℕ, Bool, true, false, ◌&&◌, ◌||◌, not, List, [], ◌∷◌, ◌≡◌, ap, refl, sym, subst, arith, all, null,
  Text, text_eq, text_eq_iff, Result, ok, err, not-true, &&_true,
}
use workspace_gateway.Base.Exec.{
  ◌>>=◌, require, Keeps, Keeps-pure, Keeps-raise, Keeps-bind, Keeps-attempt, require-Keeps,
}
use workspace_gateway.Base.Leaves.{
  After, Leaves, Leaves-bind, Leaves-pure, Leaves-weaken, Keeps-given,
}
use workspace_gateway.Services.Api.{
  Port, Deployment, KubeService, ServiceError, absent, already_exists, name_required,
  another_tenant, is_mounted, Cluster,
}
use workspace_gateway.Services.Deploying.{
  check_one, sibling_name, check_ports, ports_or_default, suffixes, is_foreign, unless_foreign,
  precheck, deployment_or, apply_deployment, service_or, apply_service, service_for, write_services,
  port_or_default, deploy_built, deploy_checked, deploy,
}

-- What the API documents of one Service `k`: calls on other names and on Deployments leave it alone, a
-- read of its name returns it, and a name that is reported missing is not its own.
pub record KeepsService {S : Type 0} (cluster : Cluster S) (stands : S → Type 0) (k : KubeService)
    : Type 0 where
  pub reading : (name : Text) → Keeps stands (cluster.get_service name)
  pub get_reads :
      (s : S) (cur : KubeService) → stands s → (cluster.get_service k.name s).0 ≡ ok cur → cur ≡ k
  pub get_absent : (s : S) → stands s → (cluster.get_service k.name s).0 ≡ err absent → ⊥
  pub creating : (svc : KubeService) → Keeps stands (cluster.create_service svc)
  pub updating :
      (svc : KubeService)
      → text_eq svc.name k.name ≡ false
      → Keeps stands (cluster.update_service svc)
  pub reading_deployment : (name : Text) → Keeps stands (cluster.get_deployment name)
  pub creating_deployment : (dep : Deployment) → Keeps stands (cluster.create_deployment dep)
  pub updating_deployment : (dep : Deployment) → Keeps stands (cluster.update_deployment dep)

module _ {S : Type 0} (cluster : Cluster S) (stands : S → Type 0) (k : KubeService)
    (lawful : KeepsService cluster stands k) (name creator : Text)
    (foreign : is_foreign creator k ≡ true) where
  -- None of the Services to be written has the name of `k`.
  abbrev avoids : List Text → Bool
  avoids order = all (λ suffix. not (text_eq (sibling_name name suffix) k.name)) order

  Spared : Text → S → Type 0
  Spared suffix s = stands s × (not (text_eq (sibling_name name suffix) k.name) ≡ true)

  check_one-Leaves :
      (suffix : Text) → Leaves stands (λ _. Spared suffix) (check_one cluster name creator suffix)
  unfolding ◌>>=◌ Spared
  check_one-Leaves suffix = record {
    holds = λ s st.
        go s st (cluster.get_service (sibling_name name suffix) s).0 refl
          (text_eq (sibling_name name suffix) k.name) refl;
  }
    where
      after : S → S
      after s = (cluster.get_service (sibling_name name suffix) s).1

      refused :
          (t : Bool) (s : S)
          → t ≡ false
          → After (λ _. Spared suffix) (require t another_tenant s).0 (require t another_tenant s).1
      refused true s h = absurd cc
      refused false s h = tt

      spared :
          (t : Bool) (s : S)
          → Spared suffix s
          → After (λ _. Spared suffix) (require t another_tenant s).0 (require t another_tenant s).1
      spared true s q = q
      spared false s q = tt

      go :
          (s : S)
          → stands s
          → (r : Result ServiceError KubeService)
          → (cluster.get_service (sibling_name name suffix) s).0 ≡ r
          → (b : Bool) → text_eq (sibling_name name suffix) k.name ≡ b
          → After
              (λ _. Spared suffix)
              (unless_foreign cluster creator r (after s)).0
              (unless_foreign cluster creator r (after s)).1
      go s st (ok cur) e true n = refused (not (is_foreign creator cur)) (after s) (
          ap not (
            subst (λ c. is_foreign creator c ≡ true)
              (sym (
                lawful.get_reads s cur st (
                  subst (λ x. (cluster.get_service x s).0 ≡ ok cur)
                    ((text_eq_iff (sibling_name name suffix) k.name).0 n) e)))
              foreign))
      go s st (ok cur) e false n =
          spared (not (is_foreign creator cur)) (after s)
            ((lawful.reading (sibling_name name suffix)).at s st, ap not n)
      go s st (err absent) e true n = absurd (
          lawful.get_absent s st (
            subst (λ x. (cluster.get_service x s).0 ≡ err absent)
              ((text_eq_iff (sibling_name name suffix) k.name).0 n) e))
      go s st (err absent) e false n =
          ((lawful.reading (sibling_name name suffix)).at s st, ap not n)
      go s st (err already_exists) e b n = tt
      go s st (err name_required) e b n = tt
      go s st (err ServiceError.invalid_size) e b n = tt
      go s st (err another_tenant) e b n = tt
      go s st (err ServiceError.bad_protocol) e b n = tt
      go s st (err ServiceError.bad_port) e b n = tt
      go s st (err (is_mounted _)) e b n = tt
      go s st (err (ServiceError.call_failed _)) e b n = tt

  precheck-Leaves :
      (order : List Text)
      → Leaves stands
          (λ _ s. stands s × (avoids order ≡ true))
          (precheck cluster name creator order)
  unfolding precheck Spared
  precheck-Leaves [] = Leaves-pure tt λ s st. (st, refl)
  precheck-Leaves (suffix ∷ order) =
      Leaves-bind (λ _. Spared suffix) _ _ _ (check_one-Leaves suffix)
        λ _. record {
          holds = λ s (st, n).
              (Leaves-weaken stands _ (λ _ s. stands s × (avoids (suffix ∷ order) ≡ true)) _
                  (λ s st. st) (λ _ s (st, av). (st, both _ _ n av)) (precheck-Leaves order)).holds
                s st;
        }
    where
      both : (a b : Bool) → a ≡ true → b ≡ true → (a && b) ≡ true
      both a b ha hb = ground (arith, ha, hb)

  unless_foreign-Keeps :
      (r : Result ServiceError KubeService) → Keeps stands (unless_foreign cluster creator r)
  unless_foreign-Keeps (ok cur) = require-Keeps (not (is_foreign creator cur)) another_tenant
  unless_foreign-Keeps (err absent) = Keeps-pure tt
  unless_foreign-Keeps (err already_exists) = Keeps-raise _
  unless_foreign-Keeps (err name_required) = Keeps-raise _
  unless_foreign-Keeps (err ServiceError.invalid_size) = Keeps-raise _
  unless_foreign-Keeps (err another_tenant) = Keeps-raise _
  unless_foreign-Keeps (err ServiceError.bad_protocol) = Keeps-raise _
  unless_foreign-Keeps (err ServiceError.bad_port) = Keeps-raise _
  unless_foreign-Keeps (err (is_mounted _)) = Keeps-raise _
  unless_foreign-Keeps (err (ServiceError.call_failed _)) = Keeps-raise _

  precheck-Keeps : (order : List Text) → Keeps stands (precheck cluster name creator order)
  unfolding precheck
  precheck-Keeps [] = Keeps-pure tt
  precheck-Keeps (suffix ∷ order) =
      Keeps-bind _ _
        (Keeps-bind _ _ (Keeps-attempt _ (lawful.reading (sibling_name name suffix)))
          unless_foreign-Keeps)
        λ _. precheck-Keeps order

  deployment_or-Keeps :
      (dep : Deployment) (r : Result ServiceError (Unit {0}))
      → Keeps stands (deployment_or cluster dep r)
  deployment_or-Keeps dep (ok _) = Keeps-pure tt
  deployment_or-Keeps dep (err already_exists) =
      Keeps-bind _ _ (lawful.reading_deployment dep.name) λ _. lawful.updating_deployment dep
  deployment_or-Keeps dep (err absent) = Keeps-raise _
  deployment_or-Keeps dep (err name_required) = Keeps-raise _
  deployment_or-Keeps dep (err ServiceError.invalid_size) = Keeps-raise _
  deployment_or-Keeps dep (err another_tenant) = Keeps-raise _
  deployment_or-Keeps dep (err ServiceError.bad_protocol) = Keeps-raise _
  deployment_or-Keeps dep (err ServiceError.bad_port) = Keeps-raise _
  deployment_or-Keeps dep (err (is_mounted _)) = Keeps-raise _
  deployment_or-Keeps dep (err (ServiceError.call_failed _)) = Keeps-raise _

  service_or-Keeps :
      (svc : KubeService) (r : Result ServiceError (Unit {0}))
      → text_eq svc.name k.name ≡ false
      → Keeps stands (service_or cluster svc r)
  service_or-Keeps svc (ok _) n = Keeps-pure tt
  service_or-Keeps svc (err already_exists) n =
      Keeps-bind _ _ (lawful.reading svc.name)
        λ cur. lawful.updating (record svc { cluster_ip = cur.cluster_ip }) n
  service_or-Keeps svc (err absent) n = Keeps-raise _
  service_or-Keeps svc (err name_required) n = Keeps-raise _
  service_or-Keeps svc (err ServiceError.invalid_size) n = Keeps-raise _
  service_or-Keeps svc (err another_tenant) n = Keeps-raise _
  service_or-Keeps svc (err ServiceError.bad_protocol) n = Keeps-raise _
  service_or-Keeps svc (err ServiceError.bad_port) n = Keeps-raise _
  service_or-Keeps svc (err (is_mounted _)) n = Keeps-raise _
  service_or-Keeps svc (err (ServiceError.call_failed _)) n = Keeps-raise _

  write_services-Keeps :
      (ports : List Port) (order : List Text)
      → avoids order ≡ true
      → Keeps stands (write_services cluster name creator ports order)
  unfolding write_services apply_service
  write_services-Keeps ports [] h = Keeps-pure tt
  write_services-Keeps ports (suffix ∷ order) h =
      Keeps-bind _ _
        (Keeps-bind _ _ (Keeps-attempt _ (lawful.creating _)) (λ r.
          service_or-Keeps (service_for cluster name creator ports suffix) r
            (not-true _ (&&_true _ _ h).0)))
        λ _. write_services-Keeps ports order (&&_true _ _ h).1

module _ {S : Type 0} (cluster : Cluster S) (stands : S → Type 0) (k : KubeService)
    (lawful : KeepsService cluster stands k) (name creator : Text)
    (built : Result ServiceError Deployment) (foreign : is_foreign creator k ≡ true) where
  deploy_built-Keeps :
      (ports : List Port) (r : Result ServiceError Deployment)
      → avoids cluster stands k lawful name creator foreign (suffixes [] ports) ≡ true
      → Keeps stands (deploy_built cluster name creator ports r)
  unfolding apply_deployment
  deploy_built-Keeps ports (err e) av = Keeps-raise e
  deploy_built-Keeps ports (ok d) av =
      Keeps-bind _ _
        (Keeps-bind _ _ (Keeps-attempt _ (lawful.creating_deployment _)) (
          deployment_or-Keeps cluster stands k lawful name creator foreign
            (record d { name = name; managed = true; creator = creator })))
        λ _.
          write_services-Keeps cluster stands k lawful name creator foreign ports
            (suffixes [] ports) av

  deploy_checked-Keeps :
      (r : Result ServiceError (List Port))
      → Keeps stands (deploy_checked cluster name creator built r)
  deploy_checked-Keeps (err e) = Keeps-raise e
  deploy_checked-Keeps (ok ports) =
      Keeps-given
        (λ _. avoids cluster stands k lawful name creator foreign (suffixes [] ports) ≡ true) _ _
        (precheck-Keeps cluster stands k lawful name creator foreign (suffixes [] ports))
        (Leaves-weaken stands _ _ _ (λ s st. st) (λ _ s (st, av). av)
          (precheck-Leaves cluster stands k lawful name creator foreign (suffixes [] ports)))
        λ _. deploy_built-Keeps ports built

module _ {S : Type 0} (cluster : Cluster S) (stands : S → Type 0) (k : KubeService)
    (lawful : KeepsService cluster stands k) (name image creator : Text)
    (built : Result ServiceError Deployment) where
  -- Take a Service `k` that is not managed here, or that is annotated with another creator than the
  -- one that deploys, which is not empty. Where the API holds each name once and writes only the object
  -- it is given, `Deploy` leaves `k` as it is, on every branch, whatever name, ports and suffixes it is
  -- given and whatever the pod template is built to.
  pub deploy-Keeps :
      (container_port : ℕ) (ports : List Port)
      → is_foreign creator k ≡ true
      → Keeps stands (deploy cluster name image creator container_port ports built)
  unfolding deploy
  deploy-Keeps container_port ports foreign =
      Keeps-bind _ _ (require-Keeps (not (null name || null image)) name_required) λ _.
        deploy_checked-Keeps cluster stands k lawful name creator built foreign (
          check_ports (port_or_default container_port)
            (ports_or_default (port_or_default container_port) ports))
