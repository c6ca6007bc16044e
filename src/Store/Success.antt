-- ===== src/Store/Success.antt =====
-- What a block of calls that ends well has done, call by call.
use payments_hub.Base.{◌≡◌, refl, Bool, true, false, List, [], ◌∷◌}
use payments_hub.Base.Result.{Error, Result, ok, err}
use payments_hub.Store.Tables.{World, Fault, none_at_all, request_lost, reply_lost}
use payments_hub.Store.Query.{Db, lift, raise_if, scheduled, query, continue, try, ◌>>=◌, ◌>>◌}

pub bind_ok :
    {A B : Type 0} (m : Db A) (f : A → Db B) (w : World) (b : B) (w' : World)
    → (m >>= f) w ≡ (ok b, w')
    → (a : A) × (v : World) × (m w ≡ (ok a, v)) × (f a v ≡ (ok b, w'))
unfolding ◌>>=◌
bind_ok m f w b w' h = go (m w).0 (m w).1 refl h
  where
    go :
        (r : Result _) (v : World)
        → m w ≡ (r, v)
        → continue r f v ≡ (ok b, w')
        → (a : _) × (u : World) × (m w ≡ (ok a, u)) × (f a u ≡ (ok b, w'))
    go (ok a) v d e = (a, v, d, e)
    go (err x) v d e = cc

pub then_ok :
    {A B : Type 0} (m : Db A) (k : Db B) (w : World) (b : B) (w' : World)
    → (m >> k) w ≡ (ok b, w')
    → (a : A) × (v : World) × (m w ≡ (ok a, v)) × (k v ≡ (ok b, w'))
unfolding ◌>>◌
then_ok m k w b w' h = bind_ok m _ w b w' h

scheduled_ok :
    {A : Type 0} (fs : List Fault) (f : Db A) (w : World) (a : A) (w' : World)
    → scheduled fs f w ≡ (ok a, w')
    → (gs : List Fault) × (f (record w { faults = gs }) ≡ (ok a, w'))
scheduled_ok [] f w a w' h = (w.faults, h)
scheduled_ok (none_at_all ∷ rest) f w a w' h = (rest, h)
scheduled_ok (request_lost ∷ rest) f w a w' h = cc
scheduled_ok (reply_lost ∷ rest) f w a w' h = cc

-- A statement that ends well was executed.
pub query_ok :
    {A : Type 0} (f : Db A) (w : World) (a : A) (w' : World)
    → query f w ≡ (ok a, w')
    → (gs : List Fault) × (f (record w { faults = gs }) ≡ (ok a, w'))
unfolding query
query_ok f w a w' h = scheduled_ok w.faults f w a w' h

pub lift_ok :
    (r : Result (Unit {0})) (w : World) (a : Unit {0}) (w' : World)
    → lift r w ≡ (ok a, w')
    → (r ≡ ok tt) × (w' ≡ w)
unfolding lift
lift_ok r w a w' h = (cc, cc)

pub raise_if_ok :
    (b : Bool) (e : Error) (w : World) (a : Unit {0}) (w' : World)
    → raise_if b e w ≡ (ok a, w')
    → (b ≡ false) × (w' ≡ w)
unfolding raise_if
raise_if_ok true e w a w' h = cc
raise_if_ok false e w a w' h = (refl, cc)

-- A statement that only reads leaves everything but the schedule of failures.
pub read_world :
    {A : Type 0} (look : World → Result A) (w : World)
    → (gs : List Fault) × ((query (λ v. (look v, v)) w).1 ≡ record w { faults = gs })
unfolding query
read_world look w = go w.faults
  where
    go :
        (fs : List Fault)
        → (gs : List Fault) × ((scheduled fs (λ v. (look v, v)) w).1 ≡ record w { faults = gs })
    go [] = (w.faults, refl)
    go (none_at_all ∷ rest) = (rest, refl)
    go (request_lost ∷ rest) = (rest, refl)
    go (reply_lost ∷ rest) = (rest, refl)

pub try_ok :
    {A B : Type 0} (m : Db A) (f : Result A → Db B) (w : World) (b : B) (w' : World)
    → try m f w ≡ (ok b, w')
    → (r : Result A) × (v : World) × (m w ≡ (r, v)) × (f r v ≡ (ok b, w'))
unfolding try
try_ok m f w b w' h = ((m w).0, (m w).1, refl, h)

-- A lookup that ends well answers what it finds.
pub look_ok :
    {A : Type 0} (look : World → Result A) (w : World) (a : A) (w' : World)
    → query (λ v. (look v, v)) w ≡ (ok a, w')
    → (gs : List Fault) × (look (record w { faults = gs }) ≡ ok a) × (w' ≡ record w { faults = gs })
look_ok look w a w' h = let (gs, e) = query_ok (λ v. (look v, v)) w a w' h in (gs, cc, cc)
