-- ===== src/Service/Proofs/Deployable.antt =====
-- The ports that DeployService of internal/workspacesvc/service.go resolves are ones that `Deploy` of
-- internal/servicesmgr/services.go takes.
use workspace_gateway.Base.{
  ℕ, Bool, true, false, List, [], ◌∷◌, none, some, ◌≡◌, ◌∙◌, refl, sym, ap, subst, arith,
  if◌then◌else◌, any, ◌==◌, Text, codes, text_eq, Result, ok, err,
}
use workspace_gateway.Service.Ports.{
  PortSpec, PortError, preset_ports, port_with, port_of, target_of, prepend, extend, with_public,
  service_ports_from, service_ports,
}
use workspace_gateway.Services.Api.{Port}
use workspace_gateway.Services.Deploying.{
  cons_ok, check_port, check_ports, port_or_default, ports_or_default,
}

target_of-positive : (container_port target : ℕ) → (target_of container_port target == 0) ≡ false
target_of-positive container_port target = ground arith

port_inj : (p q : Port) → Path (Result PortError Port) (ok p) (ok q) → p ≡ q
port_inj p q h = ap (λ (r : Result PortError Port). elim r [ ok x ↦ x | err _ ↦ p ]) h

-- The port passes the tests of `Deploy` and is not changed.
Passes : ℕ → Port → Type 0
Passes c p = check_port c p ≡ ok p

kept_target :
    (c : ℕ) (p : Port) (b : Bool)
    → b ≡ false
    → record p { target_port = if b then c else p.target_port } ≡ p
kept_target c p true h = absurd cc
kept_target c p false h = refl

module _ (c : ℕ) where
  abbrev port_at : Text → ℕ → Text → ℕ → Port
  port_at suffix port protocol t = record {
    suffix = suffix;
    port = port;
    protocol = protocol;
    target_port = t;
  }

  Passes-tcp80 :
      (suffix : Text) (t : ℕ) → (t == 0) ≡ false → Passes c (port_at suffix 80 (codes "tcp") t)
  unfolding Passes check_port text_eq
  Passes-tcp80 suffix t h = ap ok (kept_target c (port_at suffix 80 (codes "tcp") t) (t == 0) h)

  Passes-tcp443 :
      (suffix : Text) (t : ℕ) → (t == 0) ≡ false → Passes c (port_at suffix 443 (codes "tcp") t)
  unfolding Passes check_port text_eq
  Passes-tcp443 suffix t h = ap ok (kept_target c (port_at suffix 443 (codes "tcp") t) (t == 0) h)

  Passes-udp443 :
      (suffix : Text) (t : ℕ) → (t == 0) ≡ false → Passes c (port_at suffix 443 (codes "udp") t)
  unfolding Passes check_port text_eq
  Passes-udp443 suffix t h = ap ok (kept_target c (port_at suffix 443 (codes "udp") t) (t == 0) h)

  tests :
      (x y : Bool) (p q : Port)
      → Passes c q
      → Path
          (Result PortError Port)
          (if x then err PortError.bad_name else if y then err PortError.second_public else ok q)
          (ok p)
      → Passes c p
  tests true y p q h e = absurd cc
  tests false true p q h e = absurd cc
  tests false false p q h e = subst (Passes c) (port_inj q p e) h

  module _ (container_port : ℕ) (public : List Text) (spec : PortSpec) where
    presets :
        (x y z : Bool) (p : Port)
        → port_with public container_port spec (
            if x
            then some (80, codes "tcp")
            else if y
            then some (443, codes "tcp")
            else if z
            then some (443, codes "udp")
            else none)
          ≡ ok p
        → Passes c p
    presets true y z p =
        tests _ (any (text_eq spec.name) public) p _
          (Passes-tcp80 spec.name _ (target_of-positive container_port spec.target_port))
    presets false true z p =
        tests _ false p _
          (Passes-tcp443 spec.name _ (target_of-positive container_port spec.target_port))
    presets false false true p =
        tests _ false p _
          (Passes-udp443 spec.name _ (target_of-positive container_port spec.target_port))
    presets false false false p = λ e. absurd cc

    port_of-Passes : (p : Port) → port_of public container_port spec ≡ ok p → Passes c p
    unfolding port_of preset_ports
    port_of-Passes p = presets _ _ _ p

  list_inj : (ps qs : List Port) → Path (Result PortError (List Port)) (ok ps) (ok qs) → qs ≡ ps
  list_inj ps qs h =
      sym (ap (λ (r : Result PortError (List Port)). elim r [ ok x ↦ x | err _ ↦ ps ]) h)

  checked :
      (p : Port) (ports : List Port)
      → Passes c p
      → check_ports c ports ≡ ok ports
      → check_ports c (p ∷ ports) ≡ ok (p ∷ ports)
  unfolding check_ports Passes
  checked p ports hp h = ap (λ r. cons_ok r (check_ports c ports)) hp ∙ ap (cons_ok (ok p)) h

  -- A list of ports that is made of a first port and of the others.
  module _ (Q : List Port → Type 0) (rest : Port → Result PortError (List Port)) where
    prepended :
        (p : Port) (r : Result PortError (List Port)) (ports : List Port)
        → prepend p r ≡ ok ports
        → ((others : List Port) → r ≡ ok others → Q (p ∷ others))
        → Q ports
    prepended p (ok others) ports e h =
        subst Q (sym (list_inj (p ∷ others) ports e)) (h others refl)
    prepended p (err x) ports e h = absurd cc

    extended :
        (r : Result PortError Port) (ports : List Port)
        → extend r rest ≡ ok ports
        → ((p : Port) (others : List Port) → r ≡ ok p → rest p ≡ ok others → Q (p ∷ others))
        → Q ports
    extended (ok p) ports e h = prepended p (rest p) ports e λ others. h p others refl
    extended (err x) ports e h = absurd cc

  service_ports_from-check_ports :
      (container_port : ℕ) (public : List Text) (specs : List PortSpec) (ports : List Port)
      → service_ports_from public container_port specs ≡ ok ports
      → check_ports c ports ≡ ok ports
  unfolding service_ports_from check_ports
  service_ports_from-check_ports container_port public [] ports e =
      subst (λ ps. check_ports c ps ≡ ok ps) (sym (list_inj [] ports e)) refl
  service_ports_from-check_ports container_port public (spec ∷ specs) ports e =
      extended (λ ps. check_ports c ps ≡ ok ps) _ (port_of public container_port spec) ports e
        λ p others ep eo.
          checked p others (port_of-Passes container_port public spec p ep)
            (service_ports_from-check_ports container_port (with_public public p) specs others eo)

-- Where DeployService resolves the ports that it is asked for, whatever they are and also where there are
-- none, `Deploy` accepts the ports that it is given and changes none of them, neither the protocol nor the
-- port of the container.
pub service_ports-check_ports :
    (specs : List PortSpec) (container_port : ℕ) (ports : List Port)
    → service_ports specs container_port ≡ ok ports
    → check_ports
        (port_or_default container_port)
        (ports_or_default (port_or_default container_port) ports)
      ≡ ok ports
unfolding service_ports service_ports_from check_ports
service_ports-check_ports [] container_port ports e =
    subst
      (λ ps.
        check_ports (port_or_default container_port)
          (ports_or_default (port_or_default container_port) ps)
        ≡ ok ps)
      (sym (
        list_inj (port_or_default container_port)
          (ports_or_default (port_or_default container_port) []) ports e))
      (checked (port_or_default container_port) _ []
        (Passes-tcp80 (port_or_default container_port) [] (port_or_default container_port)
          (target_of-positive container_port 0))
        refl)
service_ports-check_ports (spec ∷ specs) container_port ports e =
    extended (port_or_default container_port)
      (λ ps.
        check_ports (port_or_default container_port)
          (ports_or_default (port_or_default container_port) ps)
        ≡ ok ps)
      _ (port_of [] container_port spec) ports e
      λ p others ep eo.
        checked (port_or_default container_port) p others
          (port_of-Passes (port_or_default container_port) container_port [] spec p ep)
          (service_ports_from-check_ports (port_or_default container_port) container_port
            (with_public [] p) specs others eo)
