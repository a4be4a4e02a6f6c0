-- ===== src/Services/Resumed.antt =====
-- What a pause and a resume of internal/servicesmgr/services.go do one after the other.
use workspace_gateway.Base.{
  ℕ, ◌≡◌, ◌∙◌, ap, refl, sym, subst, arith, Option, none, some, Text, Result, ok, err,
}
use workspace_gateway.Base.Exec.{◌>>=◌, ◌>>◌}
use workspace_gateway.Base.Leaves.{After, Leaves, Leaves-bind}
use workspace_gateway.Services.Api.{Deployment, ServiceError, Cluster}
use workspace_gateway.Services.Scaling.{
  or_zero, at_least_one, remembered, restored, pause, resume_service,
}

-- What the API documents of the Deployment with a name: reading returns it, and an update that
-- succeeds stores what it is given.
pub record StoresDeployment {S : Type 0} (cluster : Cluster S) (name : Text)
    (stored : S → Option Deployment) : Type 0 where
  pub get_keeps : (s : S) → stored (cluster.get_deployment name s).1 ≡ stored s
  pub get_reads :
      (s : S) (d : Deployment) → (cluster.get_deployment name s).0 ≡ ok d → stored s ≡ some d
  pub get_named : (s : S) (d : Deployment) → stored s ≡ some d → d.name ≡ name
  pub update_stores :
      (s : S) (d : Deployment)
      → d.name ≡ name
      → (cluster.update_deployment d s).0 ≡ ok tt
      → stored (cluster.update_deployment d s).1 ≡ some d

some_inj : {A : Type 0} (a b : A) → Path (Option A) (some a) (some b) → a ≡ b
some_inj a b h = ap (λ o. elim o [ some x ↦ x | none ↦ a ]) h

module _ {S : Type 0} (cluster : Cluster S) (name : Text) (stored : S → Option Deployment)
    (lawful : StoresDeployment cluster name stored) (d : Deployment) where
  -- The Deployment is read, changed and stored.
  changes :
      (f : Deployment → Deployment)
      → ((d : Deployment) → (f d).name ≡ d.name)
      → Leaves
          (λ s. stored s ≡ some d)
          (λ _ s. stored s ≡ some (f d))
          (cluster.get_deployment name >>= λ d. cluster.update_deployment (f d))
  changes f same = Leaves-bind (λ c s. (c ≡ d) × (stored s ≡ some d)) _ _ _ reading λ c. updating c
    where
      read :
          (s : S) (r : Result ServiceError Deployment)
          → stored s ≡ some d
          → (cluster.get_deployment name s).0 ≡ r
          → After (λ c s. (c ≡ d) × (stored s ≡ some d)) r (cluster.get_deployment name s).1
      read s (ok c) e h = (some_inj c d (sym (lawful.get_reads s c h) ∙ e), lawful.get_keeps s ∙ e)
      read s (err x) e h = tt

      reading :
          Leaves
            (λ s. stored s ≡ some d)
            (λ c s. (c ≡ d) × (stored s ≡ some d))
            (cluster.get_deployment name)
      reading = record { holds = λ s e. read s (cluster.get_deployment name s).0 e refl }

      update :
          (c : Deployment) (s : S) (r : Result ServiceError (Unit {0}))
          → c ≡ d
          → c.name ≡ name
          → (cluster.update_deployment (f c) s).0 ≡ r
          → After (λ _ s. stored s ≡ some (f d)) r (cluster.update_deployment (f c) s).1
      update c s (ok tt) e n h =
          lawful.update_stores s (f c) (same c ∙ n) h ∙ ap (λ x. some (f x)) e
      update c s (err x) e n h = tt

      updating :
          (c : Deployment)
          → Leaves
              (λ s. (c ≡ d) × (stored s ≡ some d))
              (λ _ s. stored s ≡ some (f d))
              (cluster.update_deployment (f c))
      updating c = record {
        holds = λ s (e, h).
            update c s (cluster.update_deployment (f c) s).0 e
              (ap (λ (x : Deployment). x.name) e ∙ lawful.get_named s d h) refl;
      }

at_least_one_twice : (n : ℕ) → at_least_one (at_least_one n) ≡ at_least_one n
at_least_one_twice n = ground arith

resumed_as_before :
    (d : Deployment) (o : Option (Option ℕ))
    → o ≡ none
    → record d { replicas = some (restored (remembered d o)); paused = none }
      ≡ record d { replicas = some (at_least_one (or_zero d.replicas)); paused = o }
resumed_as_before d none e =
    ap (λ n. record d { replicas = some n; paused = none })
      (at_least_one_twice (or_zero d.replicas))
resumed_as_before d (some o) e = absurd cc

module _ {S : Type 0} (cluster : Cluster S) (name : Text) (stored : S → Option Deployment)
    (lawful : StoresDeployment cluster name stored) (d : Deployment) where
  -- For the Deployment of a service that is not paused: where `Pause` and then `Resume` succeed, it is
  -- as before, with as many replicas; a service that had 0 of them, or no count set, comes back with 1.
  pub resume_service-pause :
      d.paused ≡ none
      → Leaves
          (λ s. stored s ≡ some d)
          (λ _ s.
            stored s ≡ some (record d { replicas = some (at_least_one (or_zero d.replicas)) }))
          (pause cluster name >> resume_service cluster name)
  unfolding pause resume_service
  resume_service-pause e =
      Leaves-bind _ _ _ _
        (changes cluster name stored lawful d
          (λ d. record d { replicas = some 0; paused = remembered d d.paused }) (λ _. refl))
        λ _.
          subst
            (λ x.
              Leaves
                (λ s.
                  stored s ≡ some (record d { replicas = some 0; paused = remembered d d.paused }))
                (λ _ s. stored s ≡ some x) (resume_service cluster name))
            (resumed_as_before d d.paused e)
            (changes cluster name stored lawful
              (record d { replicas = some 0; paused = remembered d d.paused })
              (λ d. record d { replicas = some (restored d.paused); paused = none }) (λ _. refl))
