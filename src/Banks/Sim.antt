-- ===== src/Banks/Sim.antt =====
-- Two clients that go through the same states but for what their requests say.
use payments_hub.Base.{◌≡◌, refl, ap, Bool, length}
use payments_hub.Base.Result.{Error, Result, ok, err}
use payments_hub.Banks.Wire.{Conn, Call, continue, pure, raise, lift, read, require, ◌>>=◌, ◌>>◌}

-- The states of the two clients: the same but for what the requests said.
pub record Alike (c d : Conn) : Type 0 where
  pub token : c.token ≡ d.token
  pub expires : c.expires ≡ d.expires
  pub now : c.now ≡ d.now
  pub sent : length c.sent ≡ length d.sent

-- Both calls return the same from states that are alike, and leave such states.
pub data Sim {A : Type 0} (m m' : Call A) : Type 0 where
  sim : ((c d : Conn) → Alike c d → ((m c).0 ≡ (m' d).0) × Alike (m c).1 (m' d).1) → Sim m m'

pub run-Sim :
    {A : Type 0} {m m' : Call A}
    → Sim m m'
    → (c d : Conn) → Alike c d
    → ((m c).0 ≡ (m' d).0) × Alike (m c).1 (m' d).1
run-Sim (sim h) = h

ok_value : {A : Type 0} (a b : A) → ◌≡◌ {A = Result A} (ok a) (ok b) → b ≡ a
ok_value a b e = cc

module _ {A B : Type 0} where
  continue-Sim :
      (f f' : A → Call B) (r r' : Result A × Conn)
      → ((a : A) → r.0 ≡ ok a → Sim (f a) (f' a))
      → r.0 ≡ r'.0
      → Alike r.1 r'.1
      → ((continue r.0 f r.1).0 ≡ (continue r'.0 f' r'.1).0)
        × Alike (continue r.0 f r.1).1 (continue r'.0 f' r'.1).1
  continue-Sim f f' (ok a, c) (ok b, d) h e l = rw (ok_value a b e) (run-Sim (h a refl) c d l)
  continue-Sim f f' (err x, c) (err y, d) h e l = (cc, l)
  continue-Sim f f' (ok a, c) (err y, d) h e l = cc
  continue-Sim f f' (err x, c) (ok b, d) h e l = cc

  -- The second calls are compared at the values that the first one can return.
  pub returned-Sim :
      {m m' : Call A} {f f' : A → Call B}
      → Sim m m'
      → ((c : Conn) (a : A) → (m c).0 ≡ ok a → Sim (f a) (f' a))
      → Sim (m >>= f) (m' >>= f')
  unfolding ◌>>=◌
  returned-Sim {m} {m'} {f} {f'} h k =
      sim (λ c d l. continue-Sim f f' (m c) (m' d) (k c) (run-Sim h c d l).0 (run-Sim h c d l).1)

  pub bind-Sim :
      {m m' : Call A} {f f' : A → Call B}
      → Sim m m'
      → ((a : A) → Sim (f a) (f' a))
      → Sim (m >>= f) (m' >>= f')
  bind-Sim h k = returned-Sim h (λ c a e. k a)

pub then-Sim :
    {B : Type 0} {m m' : Call (Unit {0})} {k k' : Call B}
    → Sim m m'
    → Sim k k'
    → Sim (m >> k) (m' >> k')
unfolding ◌>>◌
then-Sim h k = bind-Sim h (λ _. k)

pub lift-Sim : {A : Type 0} (r : Result A) → Sim (lift r) (lift r)
unfolding lift
lift-Sim r = sim (λ c d l. (refl, l))

pub pure-Sim : {A : Type 0} (a : A) → Sim (pure a) (pure a)
unfolding pure
pure-Sim a = sim (λ c d l. (refl, l))

pub raise-Sim : {A : Type 0} (e : Error) → Sim {A = A} (raise e) (raise e)
unfolding raise
raise-Sim e = sim (λ c d l. (refl, l))

pub require-Sim : (b : Bool) (e : Error) → Sim (require b e) (require b e)
unfolding require
require-Sim b e = sim (λ c d l. (refl, l))

pub read-Sim :
    {A : Type 0} (f : Conn → A) → ((c d : Conn) → Alike c d → f c ≡ f d) → Sim (read f) (read f)
unfolding read
read-Sim f h = sim (λ c d l. (ap (λ a. ok a) (h c d l), l))
