-- ===== src/Store/Answers.antt =====
-- What a block of calls answers, when it answers well: one rule for each way to build a block.
use payments_hub.Base.{◌≡◌, refl}
use payments_hub.Base.Result.{Result, ok, err}
use payments_hub.Store.Tables.{World}
use payments_hub.Store.Query.{Db, pure, continue, ◌>>=◌, ◌>>◌}

-- Every good answer satisfies `P`.
unfoldable pub Answers : {A : Type 0} → (A → Type 0) → Db A → Type 0
Answers P m = (w w' : World) (a : _) → m w ≡ (ok a, w') → P a

module _ {A B : Type 0} (P : B → Type 0) where
  pub Answers-bind :
      (Q : A → Type 0) (m : Db A) (f : A → Db B)
      → Answers Q m
      → ((a : A) → Q a → Answers P (f a))
      → Answers P (m >>= f)
  unfolding Answers ◌>>=◌
  Answers-bind Q m f h k w w' b e = go (m w).0 (m w).1 refl e
    where
      go : (r : Result _) (v : World) → m w ≡ (r, v) → continue r f v ≡ (ok b, w') → P b
      go (ok a) v d e = k a (h w v a d) v w' b e
      go (err x) v d e = cc

  -- The answer of the first call is of no interest.
  pub Answers-after : (m : Db A) (f : A → Db B) → ((a : A) → Answers P (f a)) → Answers P (m >>= f)
  unfolding Answers
  Answers-after m f k = Answers-bind (λ _. Unit {0}) m f (λ _ _ _ _. tt) (λ a _. k a)

  pub Answers-then : (m : Db A) (k : Db B) → Answers P k → Answers P (m >> k)
  unfolding ◌>>◌
  Answers-then m k h = Answers-after m _ (λ _. h)

pub Answers-pure : {A : Type 0} (P : A → Type 0) (a : A) → P a → Answers P (pure a)
unfolding Answers pure
Answers-pure P a h w w' b e = let same : b ≡ a = cc in rw same h

pub Answers-weaken :
    {A : Type 0} (Q P : A → Type 0) (m : Db A) → ((a : A) → Q a → P a) → Answers Q m → Answers P m
unfolding Answers
Answers-weaken Q P m h k w w' a e = h a (k w w' a e)
