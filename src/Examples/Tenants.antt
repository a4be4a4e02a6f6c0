-- ===== src/Examples/Tenants.antt =====
-- The theorems on services, on a cluster of one Service of another tenant and one Deployment.
use workspace_gateway.Base.{
  List, Any, All, inl, Bool, true, false, [], ◌∷◌, Option, none, some, ◌≡◌, ◌∙◌, refl, ap, sym,
  if◌then◌else◌, Text, codes, text_eq, text_eq_iff, Result, ok, err,
}
use workspace_gateway.Base.Exec.{Exec, ◌>>◌, Keeps}
use workspace_gateway.Base.Leaves.{Leaves}
use workspace_gateway.Services.Api.{
  Port, Deployment, KubeService, ServiceError, absent, already_exists, is_mounted, Cluster,
}
use workspace_gateway.Services.Deploying.{deploy}
use workspace_gateway.Services.Resumed.{StoresDeployment, resume_service-pause}
use workspace_gateway.Services.Scaling.{pause, resume_service}
use workspace_gateway.Services.Tenants.{KeepsService, deploy-Keeps}
use workspace_gateway.Services.Mounted.{Mounts, delete_claim_refuses}
use workspace_gateway.Services.Volumes.{delete_claim}

-- The Deployment `web`, and the Service of another tenant.
record State : Type 0 where
  web : Deployment
  theirs : KubeService

abbrev web_name : Text
web_name = codes "web"

abbrev their_service : KubeService
their_service = record {
  name = codes "web-api";
  managed = true;
  creator = codes "other";
  ports = [];
  cluster_ip = [];
}

abbrev web : Deployment
web = record {
  name = web_name;
  managed = true;
  creator = codes "acme";
  replicas = some 3;
  paused = none;
  claims = codes "data" ∷ [];
}

abbrev done : {A : Type 0} → A → Exec ServiceError State A
done a s = (ok a, s)

abbrev replaced : Bool → KubeService → State → State
replaced true svc s = record s { theirs = svc }
replaced false svc s = s

abbrev cluster : Cluster State
cluster = record {
  get_deployment = λ name s. (if text_eq name s.web.name then ok s.web else err absent, s);
  create_deployment = λ _ s. (err already_exists, s);
  update_deployment = λ d s. (ok tt, record s { web = d });
  list_deployments = λ s. (ok (s.web ∷ []), s);
  get_service = λ name s. (if text_eq name s.theirs.name then ok s.theirs else err absent, s);
  create_service = λ _ s. (ok tt, s);
  update_service = λ svc s. (ok tt, replaced (text_eq svc.name s.theirs.name) svc s);
  get_claim = λ _ s. (err absent, s);
  create_claim = λ _. done tt;
  delete_claim = λ _. done tt;
  is_quantity = λ _. true;
}

abbrev Stands : State → Type 0
Stands s = s.theirs ≡ their_service

either_way :
    (b : Bool) (svc : KubeService) (s : State) → b ≡ false → Stands s → Stands (replaced b svc s)
either_way true svc s e h = absurd cc
either_way false svc s e h = h

found_service :
    (s : State) (b : Bool) (cur : KubeService)
    → Stands s
    → Path (Result ServiceError KubeService) (if b then ok s.theirs else err absent) (ok cur)
    → cur ≡ their_service
found_service s true cur h e =
    sym (ap (λ (r : Result ServiceError KubeService). elim r [ ok x ↦ x | err _ ↦ cur ]) e) ∙ h
found_service s false cur h e = absurd cc

present :
    (s : State) (b : Bool)
    → b ≡ true
    → Path (Result ServiceError KubeService) (if b then ok s.theirs else err absent) (err absent)
    → ⊥
present s true h e = cc
present s false h e = cc

their_service-KeepsService : KeepsService cluster Stands their_service
their_service-KeepsService = record {
  reading = λ _. record { at = λ s p. p };
  get_reads = λ s cur h e. found_service s (text_eq their_service.name s.theirs.name) cur h e;
  get_absent = λ s h e.
      present s (text_eq their_service.name s.theirs.name)
        ((text_eq_iff their_service.name s.theirs.name).1
          (ap (λ (x : KubeService). x.name) (sym h)))
        e;
  creating = λ _. record { at = λ s p. p };
  updating = λ svc n. record {
    at = λ s p.
        either_way (text_eq svc.name s.theirs.name) svc s
          (ap (λ (x : KubeService). text_eq svc.name x.name) p ∙ n) p;
  };
  reading_deployment = λ _. record { at = λ s p. p };
  creating_deployment = λ _. record { at = λ s p. p };
  updating_deployment = λ _. record { at = λ s p. p };
}

abbrev api_port : Port
api_port = record { suffix = codes "api"; port = 80; protocol = []; target_port = 0 }

deploy-Keeps_example :
    Keeps Stands
      (deploy cluster web_name (codes "image") (codes "acme") 8080 (api_port ∷ []) (ok web))
unfolding text_eq
deploy-Keeps_example =
    deploy-Keeps cluster Stands their_service their_service-KeepsService web_name (codes "image")
      (codes "acme") (ok web) 8080 (api_port ∷ []) refl

abbrev stored_if : Bool → Deployment → Option Deployment
stored_if b d = if b then some d else none

abbrev stored : State → Option Deployment
stored s = stored_if (text_eq web_name s.web.name) s.web

stored_read :
    (b : Bool) (c d : Deployment)
    → Path (Result ServiceError Deployment) (if b then ok c else err absent) (ok d)
    → stored_if b c ≡ some d
stored_read true c d h =
    ap (λ (r : Result ServiceError Deployment). elim r [ ok x ↦ some x | err _ ↦ none ]) h
stored_read false c d h = absurd cc

stored_named :
    (b : Bool) (c d : Deployment)
    → text_eq web_name c.name ≡ b
    → stored_if b c ≡ some d
    → d.name ≡ web_name
stored_named true c d e h =
    ap (λ (o : Option Deployment). elim o [ some x ↦ x.name | none ↦ c.name ]) (sym h)
    ∙ sym ((text_eq_iff web_name c.name).0 e)
stored_named false c d e h = absurd cc

web-StoresDeployment : StoresDeployment cluster web_name stored
web-StoresDeployment = record {
  get_keeps = λ s. refl;
  get_reads = λ s d h. stored_read (text_eq web_name s.web.name) s.web d h;
  get_named = λ s d h. stored_named (text_eq web_name s.web.name) s.web d refl h;
  update_stores = λ s d n h. ap (λ b. stored_if b d) ((text_eq_iff web_name d.name).1 (sym n));
}

resume_service-pause_example :
    Leaves
      (λ s. stored s ≡ some web)
      (λ _ s. stored s ≡ some (record web { replicas = some 3 }))
      (pause cluster web_name >> resume_service cluster web_name)
resume_service-pause_example =
    resume_service-pause cluster web_name stored web-StoresDeployment web refl

delete_claim_refuses_example :
    (names : List Text) × (delete_claim cluster
        (codes "data")
        (record { web = web; theirs = their_service })
      ≡ (err (is_mounted names), record { web = web; theirs = their_service }))
    × Any (λ n. n ≡ web_name) names
    × All (λ n. Any (λ (x : Deployment). (x.name ≡ n) × Mounts (codes "data") x) (web ∷ [])) names
delete_claim_refuses_example =
    delete_claim_refuses cluster (codes "data") (record { web = web; theirs = their_service })
      (web ∷ []) web refl (inl refl) (inl refl)
