-- ===== src/Store/Always.antt =====
-- What holds between the world before a block of calls and the world after it, however the calls
-- end: one rule for each way to build a block. The relation is given with its laws.
use payments_hub.Base.{suc, ◌≡◌, refl, if◌then◌else◌, true, false, Bool, List, [], ◌∷◌}
use payments_hub.Base.Result.{Error, Result, ok, err}
use payments_hub.Store.Tables.{World, Fault, none_at_all, request_lost, reply_lost}
use payments_hub.Store.Query.{
  Db, pure, raise, lift, faulty, scheduled, query, continue, try, clock, new_uuid, raise_if, ◌>>=◌,
  ◌>>◌,
}

pub record IsPreorder (R : World → World → Type 0) : Type 0 where
  pub refl_R : (w : World) → R w w
  pub trans_R : (u v w : World) → R u v → R v w → R u w
  pub ids_R : (w : World) → R w (record w { next_id = suc w.next_id })
  pub faults_R : (w : World) (fs : List Fault) → R w (record w { faults = fs })

unfoldable pub Always : {A : Type 0} → (World → World → Type 0) → Db A → Type 0
Always R m = (w : World) → R w (m w).1

module _ {R : World → World → Type 0} (o : IsPreorder R) {A : Type 0} where
  pub Always-pure : (a : A) → Always R (pure a)
  unfolding Always pure
  Always-pure a w = o.refl_R w

  pub Always-lift : (r : Result A) → Always R (lift r)
  unfolding Always lift
  Always-lift r w = o.refl_R w

  Always-faulty : (fault : Fault) (f : Db A) → Always R f → Always R (faulty fault f)
  unfolding Always
  Always-faulty none_at_all f h w = h w
  Always-faulty request_lost f h w = o.refl_R w
  Always-faulty reply_lost f h w = h w

  Always-scheduled : (fs : List Fault) (f : Db A) → Always R f → Always R (scheduled fs f)
  unfolding Always
  Always-scheduled [] f h w = h w
  Always-scheduled (fault ∷ rest) f h w =
      o.trans_R _ _ _ (o.faults_R w rest) (Always-faulty fault f h (record w { faults = rest }))

  pub Always-query : (f : Db A) → Always R f → Always R (query f)
  unfolding Always query
  Always-query f h w = Always-scheduled w.faults f h w

pub Always-raise :
    {R : World → World → Type 0} (o : IsPreorder R) (A : Type 0) (e : Error)
    → Always R (raise {A = A} e)
unfolding Always raise
Always-raise o A e w = o.refl_R w

module _ {R : World → World → Type 0} (o : IsPreorder R) {A B : Type 0} where
  Always-continue :
      (r : Result A) (f : A → Db B) → ((a : A) → Always R (f a)) → Always R (continue r f)
  unfolding Always
  Always-continue (ok a) f h w = h a w
  Always-continue (err e) f h w = o.refl_R w

  pub Always-bind :
      (m : Db A) (f : A → Db B) → Always R m → ((a : A) → Always R (f a)) → Always R (m >>= f)
  unfolding Always ◌>>=◌
  Always-bind m f h k w = let (r, w') = m w in o.trans_R _ _ _ (h w) (Always-continue r f k w')

  pub Always-try :
      (m : Db A) (f : Result A → Db B)
      → Always R m
      → ((r : Result A) → Always R (f r))
      → Always R (try m f)
  unfolding Always try
  Always-try m f h k w = let (r, w') = m w in o.trans_R _ _ _ (h w) (k r w')

pub Always-then :
    {R : World → World → Type 0} (o : IsPreorder R) {A B : Type 0} (m : Db A) (k : Db B)
    → Always R m
    → Always R k
    → Always R (m >> k)
unfolding ◌>>◌
Always-then o m k h j = Always-bind o m _ h (λ _. j)

pub Always-raise_if :
    {R : World → World → Type 0} (o : IsPreorder R) (b : Bool) (e : Error) → Always R (raise_if b e)
unfolding Always raise_if
Always-raise_if o b e w = o.refl_R w

-- The two calls that are no statement.
pub Always-clock : {R : World → World → Type 0} (o : IsPreorder R) → Always R clock
unfolding Always clock
Always-clock o w = o.refl_R w

pub Always-new_uuid : {R : World → World → Type 0} (o : IsPreorder R) → Always R new_uuid
unfolding Always new_uuid
Always-new_uuid o w = o.ids_R w

pub Always-if :
    {R : World → World → Type 0} (o : IsPreorder R) {A : Type 0} (b : Bool) (m k : Db A)
    → Always R m
    → Always R k
    → Always R (if b then m else k)
Always-if o true m k h j = h
Always-if o false m k h j = j

-- What holds of a block at one world, where a rule needs what the calls before it found.
module _ {R : World → World → Type 0} (o : IsPreorder R) where
  pub At-scheduled :
      {A : Type 0} (fs : List Fault) (f : Db A) (w : World)
      → ((gs : List Fault) → R (record w { faults = gs }) (f (record w { faults = gs })).1)
      → R w (scheduled fs f w).1
  At-scheduled [] f w h = h w.faults
  At-scheduled (none_at_all ∷ rest) f w h =
      o.trans_R w (record w { faults = rest }) _ (o.faults_R w rest) (h rest)
  At-scheduled (request_lost ∷ rest) f w h = o.faults_R w rest
  At-scheduled (reply_lost ∷ rest) f w h =
      o.trans_R w (record w { faults = rest }) _ (o.faults_R w rest) (h rest)

  pub At-query :
      {A : Type 0} (f : Db A) (w : World)
      → ((gs : List Fault) → R (record w { faults = gs }) (f (record w { faults = gs })).1)
      → R w (query f w).1
  unfolding query
  At-query f w h = At-scheduled w.faults f w h

  pub At-lift :
      {B : Type 0} (r : Result (Unit {0})) (k : Db B) (w : World)
      → (r ≡ ok tt → R w (k w).1)
      → R w ((lift r >> k) w).1
  unfolding lift ◌>>◌ ◌>>=◌
  At-lift (ok _) k w h = h refl
  At-lift (err e) k w h = o.refl_R w

  pub At-raise_if :
      {B : Type 0} (b : Bool) (e : Error) (k : Db B) (w : World)
      → (b ≡ false → R w (k w).1)
      → R w ((raise_if b e >> k) w).1
  unfolding raise_if ◌>>◌ ◌>>=◌
  At-raise_if true e k w h = o.refl_R w
  At-raise_if false e k w h = h refl

  -- The calls behind a first one that is known at this world.
  pub At-then :
      {A B : Type 0} (m : Db A) (k : Db B) (w : World)
      → R w (m w).1
      → Always R k
      → R w ((m >> k) w).1
  unfolding Always ◌>>◌ ◌>>=◌
  At-then m k w h j =
      let (r, w') = m w in o.trans_R w w' _ h (Always-continue o r (λ _. k) (λ _. j) w')

  -- The calls behind a lookup know the row that it found.
  pub Always-found :
      {A B : Type 0} (look : World → Result A) (f : A → Db B)
      → ((w : World) (a : A) → look w ≡ ok a → R w (f a w).1)
      → Always R (query (λ w. (look w, w)) >>= f)
  unfolding Always query ◌>>=◌
  Always-found look f h w = found w.faults w
    where
      looked : (w : World) (r : Result _) → look w ≡ r → R w (continue r f w).1
      looked w (ok a) e = h w a e
      looked w (err x) e = o.refl_R w

      found :
          (fs : List Fault) (w : World)
          → R w (let (r, w') = scheduled fs (λ w. (look w, w)) w in continue r f w').1
      found [] w = looked w (look w) refl
      found (none_at_all ∷ rest) w =
          let v : World = record w { faults = rest } in
          o.trans_R w v _ (o.faults_R w rest) (looked v (look v) refl)
      found (request_lost ∷ rest) w = o.faults_R w rest
      found (reply_lost ∷ rest) w = o.faults_R w rest
