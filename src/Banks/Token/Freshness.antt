-- ===== src/Banks/Token/Freshness.antt =====
-- The token that `Token` of bankcore hands out: cached until 30 seconds before it expires.
use payments_hub.Base.{
  not, ◌&&◌, Option, ◌+◌, ◌*◌, ◌≡◌, ◌≢◌, ◌⊎◌, inl, inr, refl, ◌==◌, true, false, [], ◌∷◌, arith,
  Bool-cases, if◌then◌else◌, none, some,
}
use payments_hub.Base.Bytes.{Bytes, same}
use payments_hub.Base.Int.{ℤ, pos, pos_part, ltb_ℤ, ◌≤ℤ◌, ◌<ℤ◌}
use payments_hub.Base.Result.{Result, ok, err, auth_failed}
use payments_hub.Banks.Wire.{
  Outside, Conn, Response, TokenResponse, second, exchange, pure, raise, read, modify, require,
  ◌>>=◌, ◌>>◌,
}
use payments_hub.Banks.Token.{
  TokenConfig, get_token, fetch, accept_reply, accept_token, is_cached, lifetime, keep,
  token_request,
}

-- A server's lifetime of at most 9223372036 seconds is added to the clock as it is, and one that is
-- zero or negative counts as 15 minutes.
pub lifetime-bounds :
    (n : ℤ)
    → n ≤ℤ pos 9223372036
    → lifetime n ≡ (if ltb_ℤ (pos 0) n then pos (pos_part n * second) else pos (900 * second))
unfolding lifetime
lifetime-bounds n h = ground arith

-- A token that is kept and whose end is more than 30 seconds away.
abbrev pub IsFresh : Conn → Type 0
IsFresh c = (c.token ≢ []) × (pos (c.now + 30000000000) <ℤ c.expires)

is_cached-IsFresh : (c : Conn) → is_cached c ≡ true → IsFresh c
unfolding is_cached
is_cached-IsFresh c h = go c.token h
  where
    go :
        (t : Bytes)
        → (not (same t []) && ltb_ℤ (pos (c.now + 30 * second)) c.expires) ≡ true
        → (t ≢ []) × (pos (c.now + 30000000000) <ℤ c.expires)
    go [] h = cc
    go (b ∷ t) h = (λ q. cc, ground arith)

stale_of : (c : Conn) → is_cached c ≡ false → ¬ IsFresh c
unfolding is_cached
stale_of c h (k, l) = go c.token k h
  where
    go :
        (t : Bytes)
        → t ≢ []
        → ¬ ((not (same t []) && ltb_ℤ (pos (c.now + 30 * second)) c.expires) ≡ false)
    go [] k h = elim (k refl) [ ]
    go (b ∷ t) k h = ground arith

module _ (out : Outside) (cfg : TokenConfig) where
  -- A fetch that fails keeps the cache; one that succeeds has sent the one request for a token and
  -- caches the one that it hands out.
  abbrev pub Fetched : Conn → Result Bytes × Conn → Type 0
  Fetched c (err e, c') =
      (e ≡ auth_failed)
      × (c'.token ≡ c.token)
      × (c'.expires ≡ c.expires)
      × ((c'.sent ≡ c.sent) ⊎ (c'.sent ≡ token_request out cfg ∷ c.sent))
  Fetched c (ok t, c') = (t ≢ []) × (c'.token ≡ t) × (c'.sent ≡ token_request out cfg ∷ c.sent)

  accept_token-Fetched :
      (c c' : Conn) (t : Option TokenResponse)
      → c'.token ≡ c.token
      → c'.expires ≡ c.expires
      → c'.sent ≡ token_request out cfg ∷ c.sent
      → Fetched c (accept_token out t c')
  unfolding accept_token raise pure modify keep ◌>>◌ ◌>>=◌
  accept_token-Fetched c c' none h k s = (refl, h, k, inr s)
  accept_token-Fetched c c' (some t) h k s = kept t.access_token t refl
    where
      kept :
          (token : Bytes) (t : TokenResponse)
          → t.access_token ≡ token
          → Fetched c (accept_token out (some t) c')
      kept [] t e = rw (e) (refl, h, k, inr s)
      kept (b ∷ token) t e = rw (e) ((λ q. cc), refl, s)

  accept_reply-Fetched :
      (c c' : Conn) (r : Option Response)
      → c'.token ≡ c.token
      → c'.expires ≡ c.expires
      → c'.sent ≡ token_request out cfg ∷ c.sent
      → Fetched c (accept_reply out r c')
  unfolding accept_reply raise
  accept_reply-Fetched c c' none h k s = (refl, h, k, inr s)
  accept_reply-Fetched c c' (some r) h k s = elim (Bool-cases (r.status == 200)) [
    | inl e ↦ rw (e) (accept_token-Fetched c c' (out.unmarshal_token r.body) h k s)
    | inr e ↦ rw (e) (refl, h, k, inr s)
  ]

  fetch-Fetched : (c : Conn) → Fetched c (fetch out cfg c)
  unfolding fetch require exchange ◌>>◌ ◌>>=◌
  fetch-Fetched c = elim (Bool-cases (out.is_url cfg.token_url)) [
    | inl e ↦ rw (e) (accept_reply-Fetched c _ _ refl refl refl)
    | inr e ↦ rw (e) (refl, refl, refl, inl refl)
  ]

  get_token-cases :
      (c : Conn)
      → ((is_cached c ≡ true) × (get_token out cfg c ≡ (ok c.token, c)))
        ⊎ ((is_cached c ≡ false) × Fetched c (get_token out cfg c))
  unfolding get_token read ◌>>=◌
  get_token-cases c = elim (Bool-cases (is_cached c)) [
    | inl e ↦ inl (e, rw (e) refl)
    | inr e ↦ inr (e, rw (e) (fetch-Fetched c))
  ]

  -- A token that is kept and ends in more than 30 seconds is returned and nothing is sent. In
  -- every other case one request for a token is made at most: if it yields none, the error is
  -- the authentication's and the cache stays, and otherwise the new token is not empty and is the
  -- one that is cached.
  pub get_token-outcome :
      (c : Conn)
      → (IsFresh c × (get_token out cfg c ≡ (ok c.token, c)))
        ⊎ ((¬ IsFresh c) × Fetched c (get_token out cfg c))
  get_token-outcome c = elim (get_token-cases c) [
    | inl (e, f) ↦ inl (is_cached-IsFresh c e, f)
    | inr (e, f) ↦ inr (stale_of c e, f)
  ]
