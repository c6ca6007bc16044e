-- ===== src/Banks/Wire.antt =====
-- What the clients of internal/adapters/banks use of other packages, and the state of one client:
-- its cached token, what its breaker has seen, the requests it has sent and the clock.
use payments_hub.Base.{ℕ, ◌+◌, Bool, Option, List, [], ◌∷◌, if◌then◌else◌}
use payments_hub.Base.Bytes.{Bytes, same}
use payments_hub.Base.Int.{ℤ}
use payments_hub.Base.Result.{Error, Result, ok, err}

-- The keys and values of a form, of headers, or of the flat part of a JSON object.
abbrev pub Fields : Type 0
Fields = List (Bytes × Bytes)

-- `Set` of `url.Values` and `http.Header`.
abbrev pub set : Bytes → Bytes → Fields → Fields
set key value [] = (key, value) ∷ []
set key value ((k, v) ∷ rest) =
    if same k key then (key, value) ∷ rest else (k, v) ∷ set key value rest

abbrev pub set_all : Fields → Fields → Fields
set_all [] fields = fields
set_all ((key, value) ∷ rest) fields = set_all rest (set key value fields)

-- The values of the `map[string]any` that the clients send.
pub data Json : Type 0 where
  text : Bytes → Json
  object : Fields → Json

pub record Request : Type 0 where
  pub method : Bytes
  pub url : Bytes
  pub headers : Fields
  pub body : Option Bytes

pub record Response : Type 0 where
  pub status : ℕ
  pub body : Bytes

-- What both token sources read of `tokenResponse`.
pub record TokenResponse : Type 0 where
  pub access_token : Bytes
  pub expires_in : ℤ

-- Times are nanoseconds.
abbrev pub second : ℕ
second = 1000000000

-- The packages that the clients call. What depends on the moment is a function of the requests sent
-- so far, the newest first.
pub record Outside : Type 0 where
  -- `http.Client.Do` with `io.ReadAll`, and the time until the clock is read again
  pub answer : List Request → Request → Option Response
  pub elapsed : List Request → ℕ
  -- whether `http.NewRequestWithContext` accepts the URL
  pub is_url : Bytes → Bool
  -- whether the context ends during the wait that follows
  pub is_cancelled : List Request → Bool
  -- `Int64N`
  pub random : List Request → ℕ → ℕ
  -- whether `gobreaker` lets a call through at a time, after calls that failed or did not
  pub admits : List Bool → ℕ → Bool
  pub marshal : List (Bytes × Json) → Option Bytes
  -- `json.Unmarshal` into a struct of strings with these tags
  pub unmarshal : List Bytes → Bytes → Option (Bytes → Bytes)
  -- into the `tokenResponse` of bankcore, and into the one of the Itaú client, which has fewer fields
  pub unmarshal_token : Bytes → Option TokenResponse
  pub unmarshal_itau_token : Bytes → Option TokenResponse
  pub encode_form : Fields → Bytes
  pub basic_auth : Bytes → Bytes → Bytes
  pub set_query : Bytes → Bytes → Bytes → Bytes
  -- `Format` with the layout 2006-01-02, and with RFC 3339
  pub date : ℕ → Bytes
  pub rfc3339 : ℕ → Bytes
  pub parse_rfc3339 : Bytes → Option ℕ

pub record Conn : Type 0 where
  pub token : Bytes
  pub expires : ℤ
  pub outcomes : List Bool
  pub sent : List Request
  pub now : ℕ

-- A call changes the client's state, also when it ends with an error.
abbrev pub Call : Type 0 → Type 0
Call A = Conn → Result A × Conn

module _ {A : Type 0} where
  unfoldable pub pure : A → Call A
  pure a c = (ok a, c)

  unfoldable pub raise : Error → Call A
  raise e c = (err e, c)

  unfoldable pub lift : Result A → Call A
  lift r c = (r, c)

  unfoldable pub read : (Conn → A) → Call A
  read f c = (ok (f c), c)

unfoldable pub modify : (Conn → Conn) → Call (Unit {0})
modify f c = (ok tt, f c)

-- `if !good { return err }`
unfoldable pub require : Bool → Error → Call (Unit {0})
require b e c = (if b then ok tt else err e, c)

module _ {A B : Type 0} where
  abbrev pub continue : Result A → (A → Call B) → Call B
  continue (ok a) f c = f a c
  continue (err e) f c = (err e, c)

  infixl 5 ◌>>=◌ ◌>>◌
  unfoldable pub ◌>>=◌ : Call A → (A → Call B) → Call B
  ◌>>=◌ m f c = let (r, c') = m c in continue r f c'

  unfoldable pub ◌>>◌ : Call A → Call B → Call B
  unfolding ◌>>=◌
  m >> k = m >>= λ _. k

module _ (out : Outside) where
  -- `Do` of an HTTP client: `none` is a transport error.
  unfoldable pub exchange : Request → Call (Option Response)
  exchange r c = (
    ok (out.answer c.sent r),
    record c { sent = r ∷ c.sent; now = c.now + out.elapsed (r ∷ c.sent) },
  )
