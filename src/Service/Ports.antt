-- ===== src/Service/Ports.antt =====
-- internal/workspacesvc/service.go: the ports that DeployService asks for, by the names of presets
-- (internal/servicesmgr/services.go).
use workspace_gateway.Base.{
  ℕ, ◌&&◌, not, List, [], ◌∷◌, Option, none, some, if◌then◌else◌, any, null, ◌==◌, Text, codes,
  text_eq, Result, ok, err,
}
use workspace_gateway.Roles.Names.{valid_service_name}
use workspace_gateway.Services.Api.{Port}
use workspace_gateway.Services.Deploying.{port_or_default, ports_or_default}

-- `PresetPorts`
unfoldable pub preset_ports : Text → Option (ℕ × Text)
preset_ports preset =
    if text_eq preset (codes "tcp80")
    then some (80, codes "tcp")
    else if text_eq preset (codes "tcp443")
    then some (443, codes "tcp")
    else if text_eq preset (codes "udp443")
    then some (443, codes "udp")
    else none

-- `ServicePortSpec`
pub record PortSpec : Type 0 where
  pub preset : Text
  pub name : Text
  pub target_port : ℕ

pub data PortError : Type 0 where
  bad_preset bad_name second_public : PortError

abbrev pub target_of : ℕ → ℕ → ℕ
target_of container_port target = if target == 0 then port_or_default container_port else target

abbrev pub port_with : List Text → ℕ → PortSpec → Option (ℕ × Text) → Result PortError Port
port_with public container_port spec none = err bad_preset
port_with public container_port spec (some (port, protocol)) =
    if not (null spec.name) && not (valid_service_name spec.name)
    then err bad_name
    else if port == 80 && any (text_eq spec.name) public
    then err second_public
    else ok (record {
      suffix = spec.name;
      port = port;
      protocol = protocol;
      target_port = target_of container_port spec.target_port;
    })

-- A port, where the suffixes with a public port so far are given.
unfoldable pub port_of : List Text → ℕ → PortSpec → Result PortError Port
unfolding preset_ports
port_of public container_port spec = port_with public container_port spec (preset_ports spec.preset)

abbrev pub prepend : Port → Result PortError (List Port) → Result PortError (List Port)
prepend p (ok ports) = ok (p ∷ ports)
prepend p (err e) = err e

abbrev pub extend :
    Result PortError Port → (Port → Result PortError (List Port)) → Result PortError (List Port)
extend (ok p) rest = prepend p (rest p)
extend (err e) rest = err e

abbrev pub with_public : List Text → Port → List Text
with_public public p = if p.port == 80 then p.suffix ∷ public else public

-- The loop of `servicePorts`.
unfoldable pub service_ports_from : List Text → ℕ → List PortSpec → Result PortError (List Port)
unfolding port_of
service_ports_from public container_port [] = ok []
service_ports_from public container_port (spec ∷ specs) =
    extend (port_of public container_port spec)
      λ p. service_ports_from (with_public public p) container_port specs

-- `servicePorts`
unfoldable pub service_ports : List PortSpec → ℕ → Result PortError (List Port)
unfolding service_ports_from
service_ports [] container_port = ok (ports_or_default (port_or_default container_port) [])
service_ports (spec ∷ specs) container_port = service_ports_from [] container_port (spec ∷ specs)
