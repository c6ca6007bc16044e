-- ===== src/Access.antt =====
-- internal/adapters/http/middleware, auth.go, jwt.go and tenant.go, and `dualAuth` of router.go: who
-- may make a request. The hash, the key store and the reading of a JWT are given.
pub mod Decisions
mod Tests
use payments_hub.Base.{
  ℕ, ◌+◌, ◌==◌, Bool, true, false, not, ◌&&◌, ◌||◌, leb, ltb, Option, none, some, List, [], ◌∷◌,
  if◌then◌else◌,
}
use payments_hub.Base.Bytes.{Bytes, codes, same}
use payments_hub.Base.Result.{Error, not_found, Result, ok, err}
use payments_hub.Base.Utf8.{trim_space}

-- `ports.APIKey`, as far as the middleware reads it.
pub record ApiKey : Type 0 where
  pub id : ℕ
  pub label : Bytes
  pub scopes : List Bytes
  pub client_id : Option ℕ

-- The claims of a JWT that are read; one that is missing or no string counts as empty.
pub record Claims : Type 0 where
  pub role : Bytes
  pub client_id : Bytes

-- The values of the request's context. 0 is `uuid.Nil`.
pub record Context : Type 0 where
  pub api_key_id : ℕ
  pub scopes : List Bytes
  pub label : Bytes
  pub tenant : ℕ
  pub claims : Option Claims

abbrev pub no_context : Context
no_context = record { api_key_id = 0; scopes = []; label = []; tenant = 0; claims = none }

-- What the middleware calls: `GetByHash`, SHA-256 in hexadecimal, `jwt.Parse` with an HMAC
-- signature under the secret, and `uuid.Parse`.
pub record Doors : Type 0 where
  pub get_by_hash : Bytes → Result ApiKey
  pub hash_token : Bytes → Bytes
  pub parse_jwt : Bytes → Option Claims
  pub parse_uuid : Bytes → Option ℕ

-- The handler is called with a context, or the request is answered.
pub data Decision : Type 0 where
  pass : Context → Decision
  reject : ℕ → Bytes → Decision

-- `strings.HasPrefix` with what follows.
abbrev pub after_prefix : Bytes → Bytes → Option Bytes
after_prefix [] s = some s
after_prefix (p ∷ ps) [] = none
after_prefix (p ∷ ps) (c ∷ s) = let rest = after_prefix ps s in if p == c then rest else none

abbrev pub non_empty : Bytes → Option Bytes
non_empty [] = none
non_empty s = some s

-- `bearerToken`, of the Authorization header.
unfoldable pub bearer_token : Bytes → Option Bytes
bearer_token header = elim (after_prefix (codes "Bearer ") header) [
  | none ↦ none
  | some t ↦ non_empty (trim_space t)
]

abbrev pub with_tenant : Option ℕ → Context → Context
with_tenant none c = c
with_tenant (some t) c = record c { tenant = t }

-- `errors.Is(err, domain.ErrNotFound)`
abbrev is_not_found : Error → Bool
is_not_found not_found = true
is_not_found _ = false

module _ (doors : Doors) where
  unfoldable pub accept_key : Result ApiKey → Context → Decision
  accept_key (ok key) c = pass (
      with_tenant key.client_id
        (record c { api_key_id = key.id; scopes = key.scopes; label = key.label }))
  accept_key (err e) c =
      if is_not_found e
      then reject 401 (codes "invalid_api_key")
      else reject 500 (codes "auth_lookup_failed")

  -- `APIKeyAuth`
  unfoldable pub api_key_auth : Bytes → Context → Decision
  api_key_auth header c = elim (bearer_token header) [
    | none ↦ reject 401 (codes "missing_or_malformed_authorization")
    | some token ↦ accept_key (doors.get_by_hash (doors.hash_token token)) c
  ]

  abbrev pub claimed_tenant : Bytes → Option ℕ
  claimed_tenant [] = none
  claimed_tenant s = doors.parse_uuid s

  unfoldable pub accept_claims : Claims → Context → Decision
  accept_claims claims c =
      pass (with_tenant (claimed_tenant claims.client_id) (record c { claims = some claims }))

  -- `JWTAuth`
  unfoldable pub jwt_auth : Bytes → Context → Decision
  jwt_auth header c = elim (after_prefix (codes "Bearer ") header) [
    | none ↦ reject 401 (codes "missing token")
    | some raw ↦ elim (doors.parse_jwt raw) [
      | none ↦ reject 401 (codes "invalid token")
      | some claims ↦ accept_claims claims c
    ]
  ]

-- `hasScope`
abbrev pub has_scope : List Bytes → Bytes → Bool
has_scope [] want = false
has_scope (s ∷ scopes) want = same s want || same s (codes "admin") || has_scope scopes want

-- The `levels` of `roleCovers`; 0 where the map has no key.
unfoldable pub level : Bytes → ℕ
level s =
    if same s (codes "viewer")
    then 1
    else if same s (codes "operator")
    then 2
    else if same s (codes "approver")
    then 3
    else if same s (codes "admin")
    then 4
    else 0

unfoldable pub role_covers : Bytes → Bytes → Bool
role_covers have need = leb (level need) (level have) && ltb 0 (level need)

-- `scopeToRole`, with the role for the other scopes.
unfoldable pub required_role : Bytes → Bytes
required_role s =
    if same s (codes "admin")
    then codes "admin"
    else if same s (codes "runs:approve")
    then codes "approver"
    else if same s (codes "runs:write")
    then codes "operator"
    else if same s (codes "payments:write")
    then codes "operator"
    else if same s (codes "payments:read")
    then codes "viewer"
    else if same s (codes "beneficiaries:write")
    then codes "operator"
    else codes "admin"

-- `RoleFromContext`
abbrev pub role_of : Option Claims → Bytes
role_of none = []
role_of (some claims) = claims.role

-- `RequireScope`: an API key is judged by its scopes, if it has any, and all else by the role.
abbrev pub judged : Bytes → List Bytes → Context → Decision
judged scope [] c =
    if role_covers (role_of c.claims) (required_role scope)
    then pass c
    else reject 403 (codes "insufficient_role")
judged scope scopes c =
    if has_scope scopes scope then pass c else reject 403 (codes "missing_scope")

unfoldable pub require_scope : Bytes → Context → Decision
require_scope scope c = judged scope c.scopes c

abbrev is_admin : List Bytes → Bool
is_admin [] = false
is_admin (s ∷ scopes) = same s (codes "admin") || is_admin scopes

abbrev by_role : Bytes → Option Claims → Context → Decision
by_role role none c = reject 401 (codes "authentication required")
by_role role (some claims) c =
    if role_covers claims.role role then pass c else reject 403 (codes "insufficient role")

-- `RequireRole`
unfoldable pub require_role : Bytes → Context → Decision
require_role role c = if is_admin c.scopes then pass c else by_role role c.claims c

-- `RequireTenant`
unfoldable pub require_tenant : Context → Decision
require_tenant c = if c.tenant == 0 then reject 403 (codes "tenant_required") else pass c

-- One middleware after another.
abbrev pub then_by : Decision → (Context → Decision) → Decision
then_by (pass c) next = next c
then_by (reject code message) next = reject code message

abbrev pub trim_prefix : Bytes → Bytes → Bytes
trim_prefix p s = elim (after_prefix p s) [ none ↦ s | some rest ↦ rest ]

abbrev pub starts_with : Bytes → Bytes → Bool
starts_with p s = elim (after_prefix p s) [ none ↦ false | some _ ↦ true ]

-- `dualAuth`: the beginning of the token tells an API key from a JWT.
unfoldable pub dual_auth : Doors → Bytes → Context → Decision
dual_auth doors header c =
    let token = trim_prefix (codes "Bearer ") header in
    if starts_with (codes "phk_") token || starts_with (codes "admin-demo") token
    then api_key_auth doors header c
    else jwt_auth doors header c
