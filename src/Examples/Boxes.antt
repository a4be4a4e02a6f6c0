-- ===== src/Examples/Boxes.antt =====
-- The theorems on the requests on one sandbox, on a manager that knows two of them, and on the ports of a
-- service.
use workspace_gateway.Base.{
  true, [], some, if◌then◌else◌, Text, codes, text_eq, ok, All, ◌≡◌, refl, ◌∷◌, List,
}
use workspace_gateway.Examples.Deployment.{acme, other, env, cfg, hdr, world}
use workspace_gateway.Roles.Names.{valid_service_name}
use workspace_gateway.Service.Env.{Sandbox}
use workspace_gateway.Service.Proofs.Isolation.{IsAccess, run, delete, run-IsAccess}
use workspace_gateway.Service.Ports.{PortSpec, service_ports}
use workspace_gateway.Service.Proofs.Deployable.{service_ports-check_ports}
use workspace_gateway.Service.Sandboxes.{Manager}
use workspace_gateway.Services.Api.{Port}
use workspace_gateway.Services.Deploying.{check_ports, port_or_default, ports_or_default}

abbrev box : Text → Text → Sandbox
box name creator = record {
  name = name;
  phase = codes "Running";
  ready = true;
  creator = creator;
  session = codes "org:repo:dev";
  created_at = 1;
}

-- The sandbox `theirs` belongs to another tenant.
abbrev manager : Manager
manager = record {
  found = λ _ name.
      ok (if text_eq name (codes "theirs") then some (box name other) else some (box name acme));
  resolved = λ _ name. ok (codes "http://box", codes "t");
  deleted = λ _ name. ok true;
  logs = λ _ name tail previous.
      ok (record { lines = []; phase = codes "Running"; restarts = 0; message = [] });
  info = λ _ url token. ok (codes "/work", codes "/home");
  jobs = λ _ url token. ok [];
  job_output = λ job first last stream _ url token.
      ok (record { lines = []; total_lines = 0; start_line = 0; end_line = 0; done = true });
  file_list = λ path depth limit _ url token. ok (true, []);
  file_read = λ path first last _ url token. ok ([], 0, 0, 0);
}

run-IsAccess_example :
    All
      (IsAccess manager env cfg hdr (codes "mine"))
      (run manager env cfg hdr (codes "mine") delete world).calls
run-IsAccess_example = run-IsAccess manager env cfg hdr (codes "mine") delete world tt

abbrev specs : List PortSpec
specs =
    record { preset = codes "tcp80"; name = []; target_port = 0 }
    ∷ record { preset = codes "udp443"; name = codes "api"; target_port = 53 }
    ∷ []

abbrev ports : List Port
ports =
    record { suffix = []; port = 80; protocol = codes "tcp"; target_port = 8080 }
    ∷ record { suffix = codes "api"; port = 443; protocol = codes "udp"; target_port = 53 }
    ∷ []

specs_resolve : service_ports specs 0 ≡ ok ports
unfolding service_ports text_eq valid_service_name
specs_resolve = refl

service_ports-check_ports_example :
    check_ports (port_or_default 0) (ports_or_default (port_or_default 0) ports) ≡ ok ports
service_ports-check_ports_example = service_ports-check_ports specs 0 ports specs_resolve
