-- ===== src/Banks/Core/Attempts.antt =====
-- What one attempt and the loop of `doWithRetry` of bankcore end with.
use payments_hub.Base.{
  ℕ, zero, suc, ◌+◌, ◌*◌, ◌/◌, ◌==◌, ◌≤◌, ◌≡◌, ◌⊎◌, inl, inr, refl, ap, List, ◌∷◌, ◌++◌, Option,
  none, some, length, arith, Bool-cases, if◌then◌else◌,
}
use payments_hub.Base.Bytes.{Bytes}
use payments_hub.Base.Int.{ℤ, pos, negsuc}
use payments_hub.Base.Result.{
  Error, Result, ok, err, auth_failed, bad_response, cancelled, panicked,
}
use payments_hub.Banks.Wire.{
  Outside, Conn, Call, Request, Response, require, exchange, lift, pure, raise, continue, read,
  modify, ◌>>=◌, ◌>>◌,
}
use payments_hub.Banks.Token.{TokenConfig, get_token}
use payments_hub.Banks.Token.Freshness.{Fetched, get_token-outcome}
use payments_hub.Banks.Core.{
  ClientConfig, Message, Verdict, done, again, judge, build, bearer, attempt, pause, retry, follow,
  do_with_retry, pause_for,
}

-- The requests sent between two states: at least `j` and at most `k`.
abbrev pub Sent : ℕ → ℕ → Conn → Conn → Type 0
Sent j k c c' = (length c.sent + j ≤ length c'.sent) × (length c'.sent ≤ length c.sent + k)

module _ (out : Outside) (cfg : ClientConfig) (m : Message) where
  -- Getting a token fails with the authentication's error alone.
  abbrev Granted : Conn → Result Bytes × Conn → Type 0
  Granted c (ok _, c') = Sent 0 1 c c'
  Granted c (err e, c') = (e ≡ auth_failed) × Sent 0 1 c c'

  Fetched→Granted :
      (t : TokenConfig) (c : Conn) (result : Result Bytes × Conn)
      → Fetched out t c result
      → Granted c result
  Fetched→Granted t c (ok s, c') (_, _, e) = rw (e) (omega arith, omega arith)
  Fetched→Granted t c (err e, c') (f, _, _, inl g) = (f, rw (g) (omega arith, omega arith))
  Fetched→Granted t c (err e, c') (f, _, _, inr g) = (f, rw (g) (omega arith, omega arith))

  bearer-Granted : (o : Option TokenConfig) (c : Conn) → Granted c (bearer out o c)
  unfolding bearer pure
  bearer-Granted none c = (omega arith, omega arith)
  bearer-Granted (some t) c = elim (get_token-outcome out t c) [
    | inl (_, e) ↦ rw (e) (omega arith, omega arith)
    | inr (_, f) ↦ Fetched→Granted t c (get_token out t c) f
  ]

  -- The last request was answered with what `judge` makes `v` of.
  abbrev pub Answered : Conn → Result Verdict → Type 0
  Answered c v =
      (log : List Request) × (r : Request) × (c.sent ≡ r ∷ log) × (judge (out.answer log r) ≡ v)

  -- An attempt fails before its request is sent, or ends as the answer to it says.
  abbrev pub Tried : Conn → Result Verdict × Conn → Type 0
  Tried c (v, c') =
      (((v ≡ err auth_failed) ⊎ (v ≡ err bad_response)) × Sent 0 1 c c')
      ⊎ (Answered c' v × Sent 1 2 c c')

  Sent-after :
      (c c' : Conn) (t : Bytes)
      → Sent 0 1 c c'
      → Tried c (
          continue
            (if out.is_url (cfg.base_url ++ m.path) then ok tt else err bad_response)
            (λ _. exchange out (build cfg m t) >>= λ reply. lift (judge reply))
            c')
  unfolding exchange ◌>>=◌ lift
  Sent-after c c' t (h, k) = elim (Bool-cases (out.is_url (cfg.base_url ++ m.path))) [
    | inl e ↦ rw (e) (inr ((c'.sent, build cfg m t, refl, refl), (omega arith, omega arith)))
    | inr e ↦ rw (e) (inl (inr refl, (h, k)))
  ]

  Granted-Tried :
      (c : Conn) (result : Result Bytes × Conn)
      → Granted c result
      → Tried c (
          continue result.0
            (λ t. require (out.is_url (cfg.base_url ++ m.path)) bad_response >>= λ _.
              exchange out (build cfg m t) >>= λ reply. lift (judge reply))
            result.1)
  unfolding require ◌>>=◌
  Granted-Tried c (ok t, c') h = Sent-after c c' t h
  Granted-Tried c (err e, c') (f, h) = rw (f) (inl (inl refl, h))

  pub attempt-Tried : (c : Conn) → Tried c (attempt out cfg m c)
  unfolding attempt ◌>>=◌ ◌>>◌
  attempt-Tried c = Granted-Tried c (bearer out cfg.token c) (bearer-Granted cfg.token c)

  -- A wait sends nothing.
  abbrev Paused : Conn → Result ℤ × Conn → Type 0
  Paused c (ok _, c') = c'.sent ≡ c.sent
  Paused c (err e, c') = ((e ≡ cancelled) ⊎ (e ≡ panicked)) × (c'.sent ≡ c.sent)

  pause-Paused : (i : ℕ) (b : ℤ) (c : Conn) → Paused c (pause out i b c)
  unfolding pause pause_for pure raise read require modify ◌>>=◌ ◌>>◌
  pause-Paused zero b c = refl
  pause-Paused (suc i) (negsuc b) c = (inr refl, refl)
  pause-Paused (suc i) (pos b) c = elim (Bool-cases (b / 2 == 0)) [
    | inl e ↦ rw (e) (inr refl, refl)
    | inr e ↦ elim (Bool-cases (out.is_cancelled c.sent)) [
      | inl f ↦ rw (e, f) (inl refl, refl)
      | inr f ↦ rw (e, f) refl
    ]
  ]

  -- The errors that are not an answer of the bank.
  abbrev pub IsLocal : Error → Type 0
  IsLocal e = ((e ≡ auth_failed) ⊎ (e ≡ bad_response)) ⊎ ((e ≡ cancelled) ⊎ (e ≡ panicked))

  -- How a loop of `n` attempts ends: with the answer to the last request that was made, or with an
  -- error of its own. An answer that asks for another attempt ends it after the last attempt only.
  abbrev pub Ended : ℕ → Conn → Result Response × Conn → Type 0
  Ended n c (ok r, c') = Answered c' (ok (done r)) × Sent 1 (2 * n) c c'
  Ended n c (err e, c') =
      (Answered c' (ok (again e)) × Sent n (2 * n) c c')
      ⊎ ((Answered c' (err e) × Sent 1 (2 * n) c c') ⊎ (IsLocal e × Sent 0 (2 * n) c c'))

  -- One more attempt before a loop.
  extend_Ended :
      (n : ℕ) (c c' : Conn) (result : Result Response × Conn)
      → Sent 1 2 c c'
      → Ended n c' result
      → Ended (suc n) c result
  extend_Ended n c c' (ok r, d) s (a, t) = (a, (omega arith, omega arith))
  extend_Ended n c c' (err e, d) s (inl (a, t)) = inl (a, (omega arith, omega arith))
  extend_Ended n c c' (err e, d) s (inr (inl (a, t))) = inr (inl (a, (omega arith, omega arith)))
  extend_Ended n c c' (err e, d) s (inr (inr (a, t))) = inr (inr (a, (omega arith, omega arith)))

  module _ (n : ℕ) (next : Error → Call Response)
      (rest : (e : Error) (c : Conn) → Answered c (ok (again e)) → Ended n c (next e c)) where
    after_attempt :
        (c : Conn) (result : Result Verdict × Conn)
        → Tried c result
        → Ended (suc n) c (continue result.0 (λ v. follow out v next) result.1)
    unfolding pure
    after_attempt c (ok v, d) (inl (inl x, s)) = cc
    after_attempt c (ok v, d) (inl (inr x, s)) = cc
    after_attempt c (err e, d) (inl (inl x, s)) =
        inr (inr (inl (inl cc), (omega arith, omega arith)))
    after_attempt c (err e, d) (inl (inr x, s)) =
        inr (inr (inl (inr cc), (omega arith, omega arith)))
    after_attempt c (ok (done r), d) (inr (a, s)) = (a, (omega arith, omega arith))
    after_attempt c (ok (again e), d) (inr (a, s)) = extend_Ended n c d (next e d) s (rest e d a)
    after_attempt c (err e, d) (inr (a, s)) = inr (inl (a, (omega arith, omega arith)))

  -- A loop that starts after as many requests.
  moved_Ended :
      (n : ℕ) (c d : Conn) (result : Result Response × Conn)
      → length d.sent ≡ length c.sent
      → Ended n d result
      → Ended n c result
  moved_Ended n c d (ok r, d') e (a, t) = (a, (omega arith, omega arith))
  moved_Ended n c d (err x, d') e (inl (a, t)) = inl (a, (omega arith, omega arith))
  moved_Ended n c d (err x, d') e (inr (inl (a, t))) = inr (inl (a, (omega arith, omega arith)))
  moved_Ended n c d (err x, d') e (inr (inr (a, t))) = inr (inr (a, (omega arith, omega arith)))

  after_pause :
      (n : ℕ) (next : ℤ → Error → Call Response)
      → ((b : ℤ) (e : Error) (c : Conn) → Answered c (ok (again e)) → Ended n c (next b e c))
      → (c : Conn) (result : Result ℤ × Conn) → Paused c result
      → Ended
          (suc n)
          c
          (continue result.0 (λ b. attempt out cfg m >>= λ v. follow out v (next b)) result.1)
  unfolding ◌>>=◌
  after_pause n next rest c (err e, d) (l, s) =
      inr (inr (inr l, (rw (s) (omega arith), rw (s) (omega arith))))
  after_pause n next rest c (ok b, d) s =
      moved_Ended (suc n) c d _ (ap length s)
        (after_attempt n (next b) (rest b) d (attempt out cfg m d) (attempt-Tried d))

  first_Ended :
      (n i : ℕ) (b : ℤ) (last : Option Error)
      → ((b : ℤ) (e : Error) (c : Conn)
          → Answered c (ok (again e))
          → Ended n c (retry out cfg m n (suc i) b (some e) c))
      → (c : Conn) → Ended (suc n) c (retry out cfg m (suc n) i b last c)
  unfolding retry ◌>>=◌
  first_Ended n i b last rest c =
      after_pause n (λ b e. retry out cfg m n (suc i) b (some e)) rest c (pause out i b c)
        (pause-Paused i b c)

  retry-Ended :
      (n i : ℕ) (b : ℤ) (e : Error) (c : Conn)
      → Answered c (ok (again e))
      → Ended n c (retry out cfg m n i b (some e) c)
  unfolding retry raise
  retry-Ended zero i b e c h = inl (h, (omega arith, omega arith))
  retry-Ended (suc n) i b e c h = first_Ended n i b (some e) (λ b. retry-Ended n (suc i) b) c

  -- With `n` attempts allowed, at least one: a good answer is the one to the last request sent; an
  -- answer that is not retried is the last one too; an error that is retried is returned only
  -- after the `n` requests that were allowed; every other error is one of the client's own. Never
  -- more than `2 * n` requests are sent, those for tokens included.
  pub do_with_retry-outcome :
      (n : ℕ) (c : Conn)
      → cfg.max_retries ≡ pos (suc n)
      → Ended (suc n) c (do_with_retry out cfg m c)
  unfolding do_with_retry
  do_with_retry-outcome n c h =
      simp (h) (first_Ended n 0 cfg.initial_backoff none (λ b. retry-Ended n 1 b) c)
