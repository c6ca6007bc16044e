-- ===== src/Banks/Core.antt =====
-- `Client` of internal/adapters/banks/bankcore/client.go.
pub mod Attempts
pub mod Backoff
use payments_hub.Base.{
  ℕ, zero, suc, ◌+◌, ◌/◌, ◌==◌, Bool, true, false, not, ◌&&◌, Option, none, some, List, [], ◌∷◌,
  ◌++◌, ltb, leb, if◌then◌else◌,
}
use payments_hub.Base.Bytes.{Bytes, codes}
use payments_hub.Base.Int.{ℤ, pos, negsuc, pos_part, wrap64}
use payments_hub.Base.Result.{
  Error, Result, ok, err, unavailable, rate_limited, rejected_by_bank, bad_response, circuit_open,
  cancelled, panicked,
}
use payments_hub.Banks.Wire.{
  Outside, Call, Json, Fields, Request, Response, pure, raise, lift, read, modify, require,
  exchange, set, set_all, second, ◌>>=◌, ◌>>◌,
}
use payments_hub.Banks.Token.{TokenConfig, get_token}

-- The time-out, the TLS configuration and the breaker's name belong to what is given.
pub record ClientConfig : Type 0 where
  pub base_url : Bytes
  pub max_retries : ℤ
  pub initial_backoff : ℤ
  pub token : Option TokenConfig
  pub decorator : Option (Request → Request)

-- What `Do` is asked to send.
pub record Message : Type 0 where
  pub method : Bytes
  pub path : Bytes
  pub body : Option Bytes
  pub headers : Fields

abbrev pub or_default : ℤ → ℤ → ℤ
or_default (pos zero) d = d
or_default z d = z

-- The defaults of `NewClient`.
unfoldable pub new_client : ClientConfig → ClientConfig
new_client cfg = record cfg {
  max_retries = or_default cfg.max_retries (pos 5);
  initial_backoff = or_default cfg.initial_backoff (pos (second / 2));
}

-- An attempt that does not end the loop.
pub data Verdict : Type 0 where
  done : Response → Verdict
  again : Error → Verdict

-- What the loop does with the answer to one request.
unfoldable pub judge : Option Response → Result Verdict
judge none = ok (again unavailable)
judge (some r) =
    if leb 200 r.status && ltb r.status 300
    then ok (done r)
    else if r.status == 429
    then ok (again rate_limited)
    else if leb 500 r.status
    then ok (again unavailable)
    else err rejected_by_bank

-- `backoff *= 2` on int64.
abbrev pub double64 : ℤ → ℤ
double64 (pos b) = wrap64 (pos (b + b))
double64 (negsuc b) = wrap64 (negsuc (suc (b + b)))

abbrev set_bearer : Bytes → Fields → Fields
set_bearer [] headers = headers
set_bearer token headers = set (codes "Authorization") (codes "Bearer " ++ token) headers

abbrev decorate : Option (Request → Request) → Request → Request
decorate none r = r
decorate (some f) r = f r

-- The request of one attempt.
unfoldable pub build : ClientConfig → Message → Bytes → Request
build cfg m token = decorate cfg.decorator (record {
  method = m.method;
  url = cfg.base_url ++ m.path;
  headers = set_all m.headers (
      set (codes "Accept") (codes "application/json")
        (set (codes "Content-Type") (codes "application/json") (set_bearer token [])));
  body = m.body;
})

module _ (out : Outside) where
  -- `Int64N` panics unless its argument is positive. A negative wait is over at once.
  unfoldable pub pause_for : ℤ → Call (Unit {0})
  pause_for (negsuc _) = raise panicked
  pause_for (pos b) = if b / 2 == 0 then raise panicked else do
    ended ← read (λ c. out.is_cancelled c.sent)
    require (not ended) cancelled
    modify λ c. record c { now = c.now + pos_part (wrap64 (pos (b + out.random c.sent (b / 2)))) }

  -- The wait before an attempt, with the backoff that it leaves.
  unfoldable pub pause : ℕ → ℤ → Call ℤ
  pause zero backoff = pure backoff
  pause (suc _) backoff = pause_for backoff >> pure (double64 backoff)

  unfoldable pub bearer : Option TokenConfig → Call Bytes
  bearer none = pure []
  bearer (some cfg) = get_token out cfg

  unfoldable pub attempt : ClientConfig → Message → Call Verdict
  attempt cfg m = do
    token ← bearer cfg.token
    require (out.is_url (cfg.base_url ++ m.path)) bad_response
    reply ← exchange out (build cfg m token)
    lift (judge reply)

  abbrev last_error : Option Error → Error
  last_error none = unavailable
  last_error (some e) = e

  abbrev pub follow : Verdict → (Error → Call Response) → Call Response
  follow (done r) next = pure r
  follow (again e) next = next e

  -- The loop: the attempts left, the number of the next one, the backoff and `lastErr`.
  unfoldable pub retry : ClientConfig → Message → ℕ → ℕ → ℤ → Option Error → Call Response
  retry cfg m zero i backoff last = raise (last_error last)
  retry cfg m (suc left) i backoff last = pause i backoff >>= λ next.
      attempt cfg m >>= λ v. follow v (λ e. retry cfg m left (suc i) next (some e))

  unfoldable pub do_with_retry : ClientConfig → Message → Call Response
  do_with_retry cfg m = retry cfg m (pos_part cfg.max_retries) 0 cfg.initial_backoff none

  abbrev is_ok {ℓ} : {A : Type ℓ} → Result A → Bool
  is_ok (ok _) = true
  is_ok (err _) = false

  -- `breaker.Execute`, which keeps what became of the call.
  unfoldable pub execute : {A : Type 0} → Call A → Call A
  execute f c =
      if out.admits c.outcomes c.now
      then (let (r, c') = f c in (r, record c' { outcomes = is_ok r ∷ c'.outcomes }))
      else (err circuit_open, c)

  abbrev encode : Option (List (Bytes × Json)) → Result (Option Bytes)
  encode none = ok none
  encode (some body) = elim (out.marshal body) [
    | none ↦ err bad_response
    | some raw ↦ ok (some raw)
  ]

  -- `Do`
  unfoldable pub perform :
      ClientConfig → Bytes → Bytes → Option (List (Bytes × Json)) → Fields → Call Response
  perform cfg method path body headers = do
    raw ← lift (encode body)
    execute
        (do_with_retry cfg (record { method = method; path = path; body = raw; headers = headers }))
