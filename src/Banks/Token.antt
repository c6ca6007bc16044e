-- ===== src/Banks/Token.antt =====
-- `TokenSource` of internal/adapters/banks/bankcore/token.go.

pub mod Freshness
use payments_hub.Base.{
  ℕ, zero, suc, ◌+◌, ◌*◌, ◌==◌, Bool, not, ◌&&◌, Option, none, some, List, [], ◌∷◌, ◌++◌, length,
  if◌then◌else◌,
}
use payments_hub.Base.Bytes.{Bytes, codes, same}
use payments_hub.Base.Int.{ℤ, pos, negsuc, ◌+ℤ◌, ltb_ℤ, wrap64}
use payments_hub.Base.Result.{auth_failed}
use payments_hub.Banks.Wire.{
  Outside, Conn, Call, Fields, Request, Response, TokenResponse, pure, raise, read, modify, require,
  exchange, set, set_all, second, ◌>>=◌, ◌>>◌,
}

pub data TokenAuthStyle : Type 0 where
  auth_body_params auth_basic_header : TokenAuthStyle

pub record TokenConfig : Type 0 where
  pub token_url : Bytes
  pub client_id : Bytes
  pub client_secret : Bytes
  pub scope : Bytes
  pub auth_style : TokenAuthStyle
  pub extra_form : Fields

abbrev set_scope : Bytes → Fields → Fields
set_scope [] form = form
set_scope scope form = set (codes "scope") scope form

abbrev set_client : TokenConfig → Fields → Fields
set_client cfg form = elim cfg.auth_style [
  | auth_body_params ↦
      set (codes "client_secret") cfg.client_secret (set (codes "client_id") cfg.client_id form)
  | auth_basic_header ↦ form
]

unfoldable pub token_form : TokenConfig → Fields
token_form cfg = set_client cfg (
    set_all cfg.extra_form
      (set_scope cfg.scope (set (codes "grant_type") (codes "client_credentials") [])))

-- `ts.token != "" && time.Now().Before(ts.expires.Add(-30*time.Second))`
unfoldable pub is_cached : Conn → Bool
is_cached c = not (same c.token []) && ltb_ℤ (pos (c.now + 30 * second)) c.expires

-- The `Duration` added to the clock: 15 minutes by default, else the seconds with the product's
-- overflow.
unfoldable pub lifetime : ℤ → ℤ
lifetime (negsuc n) = pos (900 * second)
lifetime (pos zero) = pos (900 * second)
lifetime (pos (suc n)) = wrap64 (pos (suc n * second))

unfoldable pub keep : TokenResponse → Conn → Conn
keep t c = record c { token = t.access_token; expires = pos c.now +ℤ lifetime t.expires_in }

module _ (out : Outside) where
  unfoldable pub token_request : TokenConfig → Request
  token_request cfg = record {
    method = codes "POST";
    url = cfg.token_url;
    headers = set_basic cfg (
        set (codes "Accept") (codes "application/json")
          (set (codes "Content-Type") (codes "application/x-www-form-urlencoded") []));
    body = some (out.encode_form (token_form cfg));
  }
    where
      set_basic : TokenConfig → Fields → Fields
      set_basic cfg headers = elim cfg.auth_style [
        | auth_body_params ↦ headers
        | auth_basic_header ↦
            set (codes "Authorization") (out.basic_auth cfg.client_id cfg.client_secret) headers
      ]

  unfoldable pub accept_token : Option TokenResponse → Call Bytes
  accept_token none = raise auth_failed
  accept_token (some t) =
      if same t.access_token [] then raise auth_failed else (modify (keep t) >> pure t.access_token)

  unfoldable pub accept_reply : Option Response → Call Bytes
  accept_reply none = raise auth_failed
  accept_reply (some r) =
      if r.status == 200 then accept_token (out.unmarshal_token r.body) else raise auth_failed

  unfoldable pub fetch : TokenConfig → Call Bytes
  fetch cfg =
      require (out.is_url cfg.token_url) auth_failed
      >> exchange out (token_request cfg)
      >>= accept_reply

  -- `Token`
  unfoldable pub get_token : TokenConfig → Call Bytes
  get_token cfg = read is_cached >>= λ cached. if cached then read (λ c. c.token) else fetch cfg
