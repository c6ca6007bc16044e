-- ===== src/Banks/Itau.antt =====
-- internal/adapters/banks/itau/rest, auth.go and client.go: Itaú's own token source and client.
pub mod Gateway
pub mod Equivalence
use payments_hub.Base.{
  ℕ, zero, suc, ◌/◌, ◌==◌, Bool, ◌&&◌, ◌||◌, Option, none, some, List, [], ◌∷◌, ◌++◌, ltb, leb,
  if◌then◌else◌,
}
use payments_hub.Base.Bytes.{Bytes, codes, same}
use payments_hub.Base.Int.{ℤ, pos, pos_part}
use payments_hub.Base.Result.{
  Error, Result, ok, err, auth_failed, unavailable, rate_limited, rejected_by_bank, invalid_input,
  unexpected_status, malformed,
}
use payments_hub.Banks.Wire.{
  Outside, Call, Json, Fields, Request, Response, TokenResponse, pure, raise, lift, read, modify,
  require, exchange, set, set_all, second, ◌>>=◌, ◌>>◌,
}
use payments_hub.Banks.Token.{is_cached, keep}
use payments_hub.Banks.Core.{Message, Verdict, done, again, follow, pause, execute, or_default}

pub record Config : Type 0 where
  pub base_url : Bytes
  pub token_url : Bytes
  pub oauth_client_id : Bytes
  pub oauth_secret : Bytes
  pub scope : Bytes
  pub max_retries : ℤ
  pub initial_backoff : ℤ

-- The defaults of `NewClient`.
unfoldable pub new_client : Config → Config
new_client cfg = record cfg {
  max_retries = or_default cfg.max_retries (pos 5);
  initial_backoff = or_default cfg.initial_backoff (pos second);
}

abbrev set_scope : Bytes → Fields → Fields
set_scope [] form = form
set_scope scope form = set (codes "scope") scope form

unfoldable pub token_form : Config → Fields
token_form cfg = set_scope cfg.scope (
    set (codes "client_secret") cfg.oauth_secret (
      set (codes "client_id") cfg.oauth_client_id
        (set (codes "grant_type") (codes "client_credentials") [])))

-- What the loop does with the answer to one request.
unfoldable pub judge : Option Response → Result Verdict
judge none = ok (again unavailable)
judge (some r) =
    if leb 200 r.status && ltb r.status 300
    then ok (done r)
    else if r.status == 429 || leb 500 r.status
    then ok (again (if r.status == 429 then rate_limited else unavailable))
    else err rejected_by_bank

unfoldable pub build : Config → Message → Bytes → Request
build cfg m token = record {
  method = m.method;
  url = cfg.base_url ++ m.path;
  headers = set_all m.headers (
      set (codes "Content-Type") (codes "application/json")
        (set (codes "Authorization") (codes "Bearer " ++ token) []));
  body = m.body;
}

module _ (out : Outside) where
  unfoldable pub token_request : Config → Request
  token_request cfg = record {
    method = codes "POST";
    url = cfg.token_url;
    headers = set (codes "Content-Type") (codes "application/x-www-form-urlencoded") [];
    body = some (out.encode_form (token_form cfg));
  }

  unfoldable pub accept_token : Option TokenResponse → Call Bytes
  accept_token none = raise auth_failed
  accept_token (some t) =
      if same t.access_token [] then raise auth_failed else (modify (keep t) >> pure t.access_token)

  unfoldable pub accept_reply : Option Response → Call Bytes
  accept_reply none = raise auth_failed
  accept_reply (some r) =
      if r.status == 200 then accept_token (out.unmarshal_itau_token r.body) else raise auth_failed

  unfoldable pub fetch : Config → Call Bytes
  fetch cfg =
      require (out.is_url cfg.token_url) auth_failed
      >> exchange out (token_request cfg)
      >>= accept_reply

  -- `Token`
  unfoldable pub get_token : Config → Call Bytes
  get_token cfg = read is_cached >>= λ cached. if cached then read (λ c. c.token) else fetch cfg

  -- `malformed` stands for an error that wraps no sentinel, of the request and of the body.
  unfoldable pub attempt : Config → Message → Call Verdict
  attempt cfg m = do
    token ← get_token cfg
    require (out.is_url (cfg.base_url ++ m.path)) malformed
    reply ← exchange out (build cfg m token)
    lift (judge reply)

  abbrev last_error : Option Error → Error
  last_error none = unexpected_status
  last_error (some e) = e

  -- The loop, as `Core.retry`.
  unfoldable pub retry : Config → Message → ℕ → ℕ → ℤ → Option Error → Call Response
  retry cfg m zero i backoff last = raise (last_error last)
  retry cfg m (suc left) i backoff last = pause out i backoff >>= λ next.
      attempt cfg m >>= λ v. follow out v (λ e. retry cfg m left (suc i) next (some e))

  unfoldable pub do_with_retry : Config → Message → Call Response
  do_with_retry cfg m = retry cfg m (pos_part cfg.max_retries) 0 cfg.initial_backoff none

  abbrev encode : Option (List (Bytes × Json)) → Result (Option Bytes)
  encode none = ok none
  encode (some body) = elim (out.marshal body) [ none ↦ err malformed | some raw ↦ ok (some raw) ]

  -- `doRequest`
  unfoldable pub do_request :
      Config → Bytes → Bytes → Option (List (Bytes × Json)) → Fields → Call Response
  do_request cfg method path body headers = do
    raw ← lift (encode body)
    execute out
        (do_with_retry cfg (record { method = method; path = path; body = raw; headers = headers }))
