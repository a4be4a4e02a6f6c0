-- ===== src/Service/Tenant.antt =====
-- internal/workspacesvc/service.go: who the caller is, and the session that it speaks for.
use workspace_gateway.Base.{
  Bool, false, ◌&&◌, ◌||◌, not, List, [], ◌∷◌, Option, none, some, if◌then◌else◌, null, all, length,
  ltb, ◌==◌, Text, codes, text_eq, has_prefix, trim_prefix, trim_space, Result, ok, err,
}
use workspace_gateway.Base.Exec.{◌>>=◌, pure, raise, attempt}
use workspace_gateway.Roles.Names.{is_lower, is_upper, is_digit, parse_session}
use workspace_gateway.Service.Env.{
  Env, Config, Headers, Handler, Code, unauthenticated, from_agent, get_identity, ask, fail_with,
}

-- `validTenantID`; a byte outside ASCII belongs to a rune that fails the same test.
unfoldable pub valid_tenant_id : Text → Bool
valid_tenant_id t =
    if null t || ltb 64 (length t)
    then false
    else all (λ r. is_lower r || (is_upper r || (is_digit r || (r == b'_' || r == b'-')))) t

-- The loop of `bearerToken`.
unfoldable pub bearer_of : List Text → Text
bearer_of [] = []
bearer_of (v ∷ vs) =
    if has_prefix v (codes "Bearer ")
    then trim_space (trim_prefix v (codes "Bearer "))
    else bearer_of vs

unfoldable pub bearer_token : Headers → Text
unfolding bearer_of
bearer_token hdr = bearer_of hdr.authorization

-- `none` is `ok == false`.
unfoldable pub service_tenant : Config → Headers → Option Text
unfolding valid_tenant_id bearer_token
service_tenant cfg hdr =
    if null cfg.svc_token || not (text_eq (bearer_token hdr) cfg.svc_token)
    then none
    else (let t = trim_space hdr.abc_tenant in
        if valid_tenant_id t then some t else some cfg.svc_tenant)

abbrev pub named_tenant : Text → Handler Text
named_tenant t = if null t then raise unauthenticated else pure t

abbrev pub tenant_or_identity : Env → Option Text → Handler Text
tenant_or_identity env (some t) = pure t
tenant_or_identity env none =
    ask get_identity env.identity >>= λ r. fail_with from_agent r >>= named_tenant

unfoldable pub resolve_tenant : Env → Config → Headers → Handler Text
resolve_tenant env cfg hdr = tenant_or_identity env (service_tenant cfg hdr)

-- `sandboxAuth` repeats the first test of `resolveTenant`.
abbrev pub service_or : Option Text → Handler Text → Handler Text
service_or (some t) m = pure t
service_or none m = m

unfoldable pub sandbox_auth : Env → Config → Headers → Handler Text
unfolding resolve_tenant
sandbox_auth env cfg hdr = service_or (service_tenant cfg hdr) (resolve_tenant env cfg hdr)

abbrev pub text_or_empty : Result Code Text → Handler Text
text_or_empty (ok t) = pure t
text_or_empty (err e) = pure []

unfoldable pub tenant_of : Env → Config → Headers → Handler Text
unfolding resolve_tenant
tenant_of env cfg hdr = attempt (resolve_tenant env cfg hdr) >>= text_or_empty

abbrev org_of : Option (Text × Text × Text) → Text
org_of none = []
org_of (some (org, _, _)) = org

unfoldable pub caller_namespace : Headers → Text
caller_namespace hdr = if null hdr.session_name then [] else org_of (parse_session hdr.session_name)

unfoldable pub can_write : Text → Headers → Bool
unfolding caller_namespace
can_write resource_ns hdr =
    let caller_ns = caller_namespace hdr in
    null caller_ns || (null resource_ns || text_eq resource_ns caller_ns)

unfoldable pub writable : Text → Text → Bool
writable creator tenant = not (null creator) && text_eq creator tenant

unfoldable pub owned : Text → Text → Bool
owned creator tenant = null creator || text_eq creator tenant

unfoldable pub resolve_namespace : Headers → Text → Text
unfolding caller_namespace
resolve_namespace hdr explicit =
    let ns = caller_namespace hdr in if not (null ns) then ns else explicit
