-- ===== src/Settings/Invariants.antt =====
-- What any sequence of requests keeps, whichever statements fail.
use payments_hub.Base.{
  ℕ, ◌≤◌, ◌≡◌, refl, ◌∙◌, inl, inr, Bool, true, false, ◌==◌, List, [], ◌∷◌, ◌++◌, Bool-cases,
  if◌then◌else◌, arith,
}
use payments_hub.Settings.{BankConnection, Desk, Vault}
use payments_hub.Settings.Connections.{is_row, change, remove, encrypt_fields, pad}
use payments_hub.Settings.Handlers.{new_row, Call, step, serve}
use payments_hub.Settings.Isolation.{IsKept, step-Kept}

-- No row counts more than three attempts.
abbrev pub IsBounded : List BankConnection → Type 0
IsBounded [] = Unit
IsBounded (b ∷ bs) = (b.validation_attempts ≤ 3) × IsBounded bs

IsBounded-append :
    (bs : List BankConnection) (b : BankConnection)
    → b.validation_attempts ≤ 3
    → IsBounded bs
    → IsBounded (bs ++ b ∷ [])
IsBounded-append [] b h k = (h, tt)
IsBounded-append (c ∷ bs) b h (k, ks) = (k, IsBounded-append bs b h ks)

IsBounded-change :
    (id tenant : ℕ) (f : BankConnection → BankConnection) (bs : List BankConnection)
    → ((b : BankConnection) → b.validation_attempts ≤ 3 → (f b).validation_attempts ≤ 3)
    → IsBounded bs
    → IsBounded (change id tenant f bs)
IsBounded-change id tenant f [] h k = tt
IsBounded-change id tenant f (b ∷ bs) h (k, ks) =
    (changed (is_row id tenant b), IsBounded-change id tenant f bs h ks)
  where
    changed : (c : Bool) → (if c then f b else b).validation_attempts ≤ 3
    changed true = h b k
    changed false = k

IsBounded-remove :
    (id tenant : ℕ) (bs : List BankConnection) → IsBounded bs → IsBounded (remove id tenant bs)
IsBounded-remove id tenant [] k = tt
IsBounded-remove id tenant (b ∷ bs) (k, ks) =
    removed (is_row id tenant b) (IsBounded-remove id tenant bs ks)
  where
    removed :
        (c : Bool)
        → IsBounded (remove id tenant bs)
        → IsBounded (if c then remove id tenant bs else b ∷ remove id tenant bs)
    removed true r = r
    removed false r = (k, r)

IsBounded-IsKept : (vault : Vault) (tenant : ℕ) → IsKept vault tenant IsBounded
unfolding encrypt_fields new_row pad
IsBounded-IsKept vault tenant = record {
  inserted = λ req d rows h. IsBounded-append rows _ (omega arith) h;
  sealed_anew = λ id nonce req rows h. IsBounded-change id tenant _ rows (λ b k. k) h;
  restated = λ id n status error now rows l h. IsBounded-change id tenant _ rows (λ b k. l) h;
  removed = λ id rows h. IsBounded-remove id tenant rows h;
}

-- Whatever the requests and whichever statements fail: where no row counts more than three
-- attempts of validation, none does after the requests.
pub serve-IsBounded :
    (vault : Vault) (calls : List (ℕ × Call)) (d : Desk)
    → IsBounded d.connections
    → IsBounded (serve vault calls d).connections
unfolding serve
serve-IsBounded vault [] d h = h
serve-IsBounded vault ((tenant, call) ∷ calls) d h =
    serve-IsBounded vault calls (step vault tenant call d)
      (step-Kept IsBounded vault tenant (IsBounded-IsKept vault tenant) call d h)

-- The rows of a tenant.
abbrev pub rows_of : ℕ → List BankConnection → List BankConnection
rows_of t [] = []
rows_of t (b ∷ bs) = let rest = rows_of t bs in if b.client_id == t then b ∷ rest else rest

-- The requests of other tenants.
abbrev pub AllOthers : ℕ → List (ℕ × Call) → Type 0
AllOthers t [] = Unit
AllOthers t ((tenant, _) ∷ calls) = ((tenant == t) ≡ false) × AllOthers t calls

module _ (t tenant : ℕ) (other : (tenant == t) ≡ false) where
  rows_of-append :
      (bs : List BankConnection) (b : BankConnection)
      → b.client_id ≡ tenant
      → rows_of t (bs ++ b ∷ []) ≡ rows_of t bs
  rows_of-append [] b h = rw (h, other) refl
  rows_of-append (c ∷ bs) b h = rw (rows_of-append bs b h) refl

  not_mine : (id : ℕ) (b : BankConnection) → is_row id tenant b ≡ true → (b.client_id == t) ≡ false
  not_mine id b h = ground (arith, other)

  rows_of-change :
      (id : ℕ) (f : BankConnection → BankConnection) (bs : List BankConnection)
      → ((b : BankConnection) → (f b).client_id ≡ b.client_id)
      → rows_of t (change id tenant f bs) ≡ rows_of t bs
  rows_of-change id f [] h = refl
  rows_of-change id f (b ∷ bs) h = elim (Bool-cases (is_row id tenant b)) [
    | inl e ↦ rw (e, h b, not_mine id b e, rows_of-change id f bs h) refl
    | inr e ↦ rw (e, rows_of-change id f bs h) refl
  ]

  rows_of-remove :
      (id : ℕ) (bs : List BankConnection) → rows_of t (remove id tenant bs) ≡ rows_of t bs
  rows_of-remove id [] = refl
  rows_of-remove id (b ∷ bs) = elim (Bool-cases (is_row id tenant b)) [
    | inl e ↦ rw (e, not_mine id b e) (rows_of-remove id bs)
    | inr e ↦ rw (e, rows_of-remove id bs) refl
  ]

  rows_of-IsKept :
      (vault : Vault) (mine : List BankConnection)
      → IsKept vault tenant (λ rows. rows_of t rows ≡ mine)
  unfolding encrypt_fields new_row pad
  rows_of-IsKept vault mine = record {
    inserted = λ req d rows h. rows_of-append rows _ refl ∙ h;
    sealed_anew = λ id nonce req rows h. rows_of-change id _ rows (λ b. refl) ∙ h;
    restated = λ id n status error now rows l h. rows_of-change id _ rows (λ b. refl) ∙ h;
    removed = λ id rows h. rows_of-remove id rows ∙ h;
  }

-- Whatever the requests of other tenants and whichever statements fail: the connections of a tenant
-- stay as they are, in their order.
pub serve-others :
    (vault : Vault) (t : ℕ) (calls : List (ℕ × Call)) (d : Desk)
    → AllOthers t calls
    → rows_of t (serve vault calls d).connections ≡ rows_of t d.connections
unfolding serve
serve-others vault t [] d h = refl
serve-others vault t ((tenant, call) ∷ calls) d (h, hs) =
    serve-others vault t calls (step vault tenant call d) hs
    ∙ step-Kept (λ rows. rows_of t rows ≡ rows_of t d.connections) vault tenant
        (rows_of-IsKept t tenant h vault (rows_of t d.connections)) call d refl
