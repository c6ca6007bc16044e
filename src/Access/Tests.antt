-- ===== src/Access/Tests.antt =====
-- Who gets through, at one API key.
use payments_hub.Base.{◌≡◌, refl, none, some, [], ◌∷◌}
use payments_hub.Base.Bytes.{codes}
use payments_hub.Base.Result.{ok}
use payments_hub.Access.{
  ApiKey, Claims, Doors, Context, no_context, pass, then_by, dual_auth, api_key_auth, accept_key,
  bearer_token, require_scope,
}
use payments_hub.Base.Utf8.{trim_space}
use payments_hub.Access.Decisions.{MayPass, dual_auth-MayPass}

abbrev key : ApiKey
key = record {
  id = 4;
  label = codes "erp";
  scopes = codes "payments:read" ∷ codes "runs:write" ∷ [];
  client_id = some 9;
}

abbrev doors : Doors
doors = record {
  get_by_hash = λ hash. ok key;
  hash_token = λ token. token;
  parse_jwt = λ raw. none;
  parse_uuid = λ s. none;
}

abbrev seen : Context
seen = record no_context { api_key_id = 4; scopes = key.scopes; label = key.label; tenant = 9 }

gets_through :
    then_by (dual_auth doors (codes "Bearer phk_1") no_context) (require_scope (codes "runs:write"))
    ≡ pass seen
unfolding dual_auth api_key_auth accept_key bearer_token require_scope trim_space
gets_through = refl

dual_auth-MayPass_example : MayPass doors (codes "runs:write") (codes "Bearer phk_1") seen
dual_auth-MayPass_example =
    dual_auth-MayPass doors (codes "runs:write") (codes "Bearer phk_1") seen gets_through

abbrev operator_claims : Claims
operator_claims = record { role = codes "operator"; client_id = [] }

abbrev admin_claims : Claims
admin_claims = record { role = codes "admin"; client_id = [] }
