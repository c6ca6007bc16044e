-- ===== src/Banks/Itau/Equivalence.antt =====
-- Itaú's own copy of the token source and of the retry loop, beside those of bankcore: both are run
-- on the same answers, one after the other.
use payments_hub.Base.{
  ℕ, zero, suc, ◌+◌, ◌/◌, ◌≡◌, refl, ap, ◌∙◌, Bool, true, false, inl, inr, List, [], ◌∷◌, ◌++◌,
  Option, none, some, length, Bool-cases, not, ◌==◌, if◌then◌else◌, arith,
}
use payments_hub.Base.Bytes.{same}
use payments_hub.Base.Int.{ℤ, pos, negsuc, pos_part, wrap64, ◌+ℤ◌}
use payments_hub.Base.Result.{Error, ok, auth_failed, panicked, cancelled}
use payments_hub.Banks.Wire.{
  Outside, Conn, Call, Request, Response, TokenResponse, read, modify, require, exchange, ◌>>◌,
  ◌>>=◌,
}
use payments_hub.Banks.Sim.{
  Alike, Sim, sim, run-Sim, bind-Sim, returned-Sim, then-Sim, lift-Sim, pure-Sim, raise-Sim,
  require-Sim, read-Sim,
}
use payments_hub.Banks.Token.{TokenConfig, is_cached, keep, lifetime}
use payments_hub.Banks.Token
use payments_hub.Banks.Core.{
  ClientConfig, Message, Verdict, done, again, follow, pause, pause_for, double64,
}
use payments_hub.Banks.Core
use payments_hub.Banks.Itau.{Config}
use payments_hub.Banks.Itau

-- What happens to a client, by the number of requests that it has sent.
pub record Script : Type 0 where
  pub answer_at : ℕ → Option Response
  pub elapsed_at : ℕ → ℕ
  pub is_cancelled_at : ℕ → Bool
  pub random_at : ℕ → ℕ → ℕ

-- The world in which a client meets a script.
abbrev pub run_by : Script → Outside → Outside
run_by s out = record out {
  answer = λ log r. s.answer_at (length log);
  elapsed = λ log. s.elapsed_at (length log);
  is_cancelled = λ log. s.is_cancelled_at (length log);
  random = λ log n. s.random_at (length log) n;
}

record IsScripted (out : Outside) : Type 0 where
  pub answer_script :
      (log log' : List Request) (r r' : Request)
      → length log ≡ length log'
      → out.answer log r ≡ out.answer log' r'
  pub elapsed_script :
      (log log' : List Request) → length log ≡ length log' → out.elapsed log ≡ out.elapsed log'
  pub cancelled_script :
      (log log' : List Request)
      → length log ≡ length log'
      → out.is_cancelled log ≡ out.is_cancelled log'
  pub random_script :
      (log log' : List Request) (n : ℕ)
      → length log ≡ length log'
      → out.random log n ≡ out.random log' n

is_cached-Alike : (c d : Conn) → Alike c d → is_cached c ≡ is_cached d
unfolding is_cached
is_cached-Alike c d l = rw (l.token, l.expires, l.now) refl

keep-Sim : (t : TokenResponse) → Sim (modify (keep t)) (modify (keep t))
unfolding modify keep
keep-Sim t = sim (λ c d l. (
  refl,
  record {
    token = refl;
    expires = ap (λ n. pos n +ℤ lifetime t.expires_in) l.now;
    now = l.now;
    sent = l.sent;
  },
))

good-Sim : (e e' : Error) → Sim (require true e) (require true e')
unfolding require
good-Sim e e' = sim (λ c d l. (refl, l))

-- The two ways of judging an answer agree.
judge-same : (o : Option Response) → Itau.judge o ≡ Core.judge o
unfolding Itau.judge Core.judge
judge-same none = refl
judge-same (some r) = ground arith

run_by-IsScripted : (s : Script) (out : Outside) → IsScripted (run_by s out)
run_by-IsScripted s out = record {
  answer_script = λ log log' r r' h. ap s.answer_at h;
  elapsed_script = λ log log' h. ap s.elapsed_at h;
  cancelled_script = λ log log' h. ap s.is_cancelled_at h;
  random_script = λ log log' n h. ap (λ k. s.random_at k n) h;
}

-- Both structs of an answer for a token are filled alike.
abbrev DecodeAlike : Outside → Type 0
DecodeAlike out =
    (log : List Request) (r : Request) (reply : Response)
    → out.answer log r ≡ some reply
    → out.unmarshal_token reply.body ≡ out.unmarshal_itau_token reply.body

module _ (out : Outside) (script : IsScripted out) (alike : DecodeAlike out) where
  exchange-Sim : (r r' : Request) → Sim (exchange out r) (exchange out r')
  unfolding exchange
  exchange-Sim r r' = sim (λ c d l. (
    ap (λ o. ok o) (script.answer_script c.sent d.sent r r' l.sent),
    record {
      token = l.token;
      expires = l.expires;
      now =
          ap (λ n. n + out.elapsed (r ∷ c.sent)) l.now
          ∙ ap (λ n. d.now + n) (script.elapsed_script (r ∷ c.sent) (r' ∷ d.sent) (ap suc l.sent));
      sent = ap suc l.sent;
    },
  ))

  accept_token-Sim :
      (t : Option TokenResponse) → Sim (Token.accept_token out t) (Itau.accept_token out t)
  unfolding Token.accept_token Itau.accept_token
  accept_token-Sim none = raise-Sim auth_failed
  accept_token-Sim (some t) = elim (Bool-cases (same t.access_token [])) [
    | inl e ↦ rw (e) (raise-Sim auth_failed)
    | inr e ↦ rw (e) (then-Sim (keep-Sim t) (pure-Sim t.access_token))
  ]

  accept_reply-Sim :
      (log : List Request) (r : Request) (o : Option Response)
      → out.answer log r ≡ o
      → Sim (Token.accept_reply out o) (Itau.accept_reply out o)
  unfolding Token.accept_reply Itau.accept_reply
  accept_reply-Sim log r none h = raise-Sim auth_failed
  accept_reply-Sim log r (some reply) h = elim (Bool-cases (reply.status == 200)) [
    | inl e ↦ rw (e, alike log r reply h) (accept_token-Sim (out.unmarshal_itau_token reply.body))
    | inr e ↦ rw (e) (raise-Sim auth_failed)
  ]

  -- What an exchange behind a check returns is the answer.
  answered :
      (b : Bool) (x : Error) (r : Request) (c : Conn) (o : Option Response)
      → ((require b x >> exchange out r) c).0 ≡ ok o
      → out.answer c.sent r ≡ o
  unfolding require exchange ◌>>◌ ◌>>=◌
  answered true x r c o h = cc
  answered false x r c o h = cc

  advance-Sim :
      (b : ℕ)
      → Sim
          (modify
            λ c. record c { now = c.now + pos_part (wrap64 (pos (b + out.random c.sent (b / 2)))) })
          (modify
            λ c. record c { now = c.now + pos_part (wrap64 (pos (b + out.random c.sent (b / 2)))) })
  unfolding modify
  advance-Sim b = sim (λ c d l. (
    refl,
    record {
      token = l.token;
      expires = l.expires;
      now =
          ap (λ n. n + pos_part (wrap64 (pos (b + out.random c.sent (b / 2))))) l.now
          ∙ ap (λ n. d.now + pos_part (wrap64 (pos (b + n))))
              (script.random_script c.sent d.sent (b / 2) l.sent);
      sent = l.sent;
    },
  ))

  module _ (t : TokenConfig) (cfg : Config) (same_url : t.token_url ≡ cfg.token_url) where
    fetch-Sim : Sim (Token.fetch out t) (Itau.fetch out cfg)
    unfolding Token.fetch Itau.fetch
    fetch-Sim =
        returned-Sim
          (then-Sim (rw (same_url) (require-Sim (out.is_url cfg.token_url) auth_failed))
            (exchange-Sim (Token.token_request out t) (Itau.token_request out cfg)))
          (λ c o h.
            accept_reply-Sim c.sent (Token.token_request out t) o (answered _ auth_failed _ c o h))

    get_token-Sim : Sim (Token.get_token out t) (Itau.get_token out cfg)
    unfolding Token.get_token Itau.get_token
    get_token-Sim = bind-Sim (read-Sim is_cached is_cached-Alike) cached
      where
        cached :
            (b : Bool)
            → Sim
                (if b then read (λ c. c.token) else Token.fetch out t)
                (if b then read (λ c. c.token) else Itau.fetch out cfg)
        cached true = read-Sim (λ c. c.token) (λ c d l. l.token)
        cached false = fetch-Sim

  module _ (client : ClientConfig) (t : TokenConfig) (cfg : Config) (m : Message)
      (same_token : client.token ≡ some t) (same_token_url : t.token_url ≡ cfg.token_url)
      (good_url : out.is_url (client.base_url ++ m.path) ≡ true)
      (good_url' : out.is_url (cfg.base_url ++ m.path) ≡ true) where
    attempt-Sim : Sim (Core.attempt out client m) (Itau.attempt out cfg m)
    unfolding Core.attempt Itau.attempt Core.bearer
    attempt-Sim =
        simp (same_token, good_url, good_url')
          (bind-Sim (get_token-Sim t cfg same_token_url) λ token. then-Sim (good-Sim _ _) (
            bind-Sim (exchange-Sim (Core.build client m token) (Itau.build cfg m token))
              λ o. rw (judge-same o) (lift-Sim (Core.judge o))))

    wait-Sim : (b : ℕ) → Sim (pause_for out (pos b)) (pause_for out (pos b))
    unfolding pause_for
    wait-Sim b = elim (Bool-cases (b / 2 == 0)) [
      | inl e ↦ rw (e) (raise-Sim panicked)
      | inr e ↦ rw (e) (
          bind-Sim (read-Sim _ (λ c d l. script.cancelled_script c.sent d.sent l.sent))
            λ ended. then-Sim (require-Sim (not ended) cancelled) (advance-Sim b))
    ]

    pause-Sim : (i : ℕ) (b : ℤ) → Sim (pause out i b) (pause out i b)
    unfolding pause pause_for
    pause-Sim zero b = pure-Sim b
    pause-Sim (suc i) (negsuc b) = then-Sim (raise-Sim panicked) (pure-Sim _)
    pause-Sim (suc i) (pos b) = then-Sim (wait-Sim b) (pure-Sim _)

    follow-Sim :
        (v : Verdict) (f f' : Error → Call Response)
        → ((e : Error) → Sim (f e) (f' e))
        → Sim (follow out v f) (follow out v f')
    follow-Sim (done r) f f' h = pure-Sim r
    follow-Sim (again e) f f' h = h e

    retry-Sim :
        (n i : ℕ) (b : ℤ) (e : Error)
        → Sim (Core.retry out client m n i b (some e)) (Itau.retry out cfg m n i b (some e))
    unfolding Core.retry Itau.retry
    retry-Sim zero i b e = raise-Sim e
    retry-Sim (suc n) i b e =
        bind-Sim (pause-Sim i b)
          λ next. bind-Sim attempt-Sim λ v. follow-Sim v _ _ (retry-Sim n (suc i) next)

    first-Sim :
        (n : ℕ) (b : ℤ)
        → Sim (Core.retry out client m (suc n) 0 b none) (Itau.retry out cfg m (suc n) 0 b none)
    unfolding Core.retry Itau.retry
    first-Sim n b =
        bind-Sim (pause-Sim 0 b)
          λ next. bind-Sim attempt-Sim λ v. follow-Sim v _ _ (retry-Sim n 1 next)

module _ (out : Outside) (s : Script) (client : ClientConfig) (t : TokenConfig) (cfg : Config)
    (m : Message) (same_token : client.token ≡ some t)
    (same_token_url : t.token_url ≡ cfg.token_url)
    (good_url : out.is_url (client.base_url ++ m.path) ≡ true)
    (good_url' : out.is_url (cfg.base_url ++ m.path) ≡ true) where
  -- Whatever both clients get as answer to the first request, to the second, and so on, whenever the
  -- context ends, and whatever the random numbers are: with a token source at the same address, as
  -- many attempts, at least one, the same backoff and URLs that are accepted, and where the two
  -- structs for a token are filled alike by every body among those answers, both loops return the
  -- same answer or error from states that are alike, and leave such states: as many requests sent,
  -- the same token cached, the same time.
  pub do_with_retry-same :
      (n : ℕ) (c d : Conn)
      → ((i : ℕ) (reply : Response)
          → s.answer_at i ≡ some reply
          → out.unmarshal_token reply.body ≡ out.unmarshal_itau_token reply.body)
      → client.max_retries ≡ pos (suc n)
      → cfg.max_retries ≡ pos (suc n)
      → client.initial_backoff ≡ cfg.initial_backoff
      → Alike c d
      → ((Core.do_with_retry (run_by s out) client m c).0
          ≡ (Itau.do_with_retry (run_by s out) cfg m d).0)
        × Alike
            (Core.do_with_retry (run_by s out) client m c).1
            (Itau.do_with_retry (run_by s out) cfg m d).1
  unfolding Core.do_with_retry Itau.do_with_retry
  do_with_retry-same n c d alike h k b l =
      simp (h, k, b)
        (run-Sim
          (first-Sim (run_by s out) (run_by-IsScripted s out)
            (λ log r reply e. alike (length log) reply e) client t cfg m same_token same_token_url
            good_url good_url' n cfg.initial_backoff)
          c d l)
