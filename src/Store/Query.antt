-- ===== src/Store/Query.antt =====
-- Calls on the database: the world comes back after an error too, since what was written before
-- it stays written.
use payments_hub.Base.{ℕ, suc, List, [], ◌∷◌, Bool, if◌then◌else◌}
use payments_hub.Base.Result.{Error, unavailable, Result, ok, err}
use payments_hub.Store.Tables.{World, Fault, none_at_all, request_lost, reply_lost}

abbrev pub Db : Type 0 → Type 0
Db A = World → Result A × World

module _ {A : Type 0} where
  unfoldable pub pure : A → Db A
  pure a w = (ok a, w)

  unfoldable pub raise : Error → Db A
  raise e w = (err e, w)

  unfoldable pub lift : Result A → Db A
  lift r w = (r, w)

  -- The body of a statement, run as the next fault says.
  abbrev pub faulty : Fault → Db A → Db A
  faulty none_at_all f w = f w
  faulty request_lost f w = (err unavailable, w)
  faulty reply_lost f w = (err unavailable, (f w).1)

  abbrev pub scheduled : List Fault → Db A → Db A
  scheduled [] f w = f w
  scheduled (fault ∷ rest) f w = faulty fault f (record w { faults = rest })

  -- One statement sent to the database.
  unfoldable pub query : Db A → Db A
  query f w = scheduled w.faults f w

module _ {A B : Type 0} where
  abbrev pub continue : Result A → (A → Db B) → Db B
  continue (ok a) f w = f a w
  continue (err e) f w = (err e, w)

  infixl 5 ◌>>=◌ ◌>>◌
  unfoldable pub ◌>>=◌ : Db A → (A → Db B) → Db B
  ◌>>=◌ m f w = let (r, w') = m w in continue r f w'

  unfoldable pub ◌>>◌ : Db A → Db B → Db B
  unfolding ◌>>=◌
  m >> k = m >>= λ _. k

  -- A call whose outcome the caller looks at itself, the error included.
  unfoldable pub try : Db A → (Result A → Db B) → Db B
  try m f w = let (r, w') = m w in f r w'

-- `if bad { return err }`
unfoldable pub raise_if : Bool → Error → Db (Unit {0})
raise_if b e w = (if b then err e else ok tt, w)

-- `uuid.New()`
unfoldable pub new_uuid : Db ℕ
new_uuid w = (ok w.next_id, record w { next_id = suc w.next_id })

-- `time.Now()`
unfoldable pub clock : Db ℕ
clock w = (ok w.now, w)
