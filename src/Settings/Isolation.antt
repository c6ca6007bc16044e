-- ===== src/Settings/Isolation.antt =====
-- What the handlers keep: the rows of the other tenants, and the bound on the attempts.
use payments_hub.Base.{
  ℕ, suc, ◌+◌, ◌≤◌, ◌≡◌, inl, inr, Bool, true, false, ◌||◌, ltb, Option, none, some, List, [], ◌∷◌,
  ◌++◌, Bool-cases, if◌then◌else◌, arith,
}
use payments_hub.Base.Bytes.{Bytes, codes}
use payments_hub.Base.Result.{Error, Result, ok, err}
use payments_hub.Store.{Fault, none_at_all, request_lost, reply_lost}
use payments_hub.Banks.Validators.{BankCredentials, is_empty}
use payments_hub.Settings.{
  ConnectionStatus, draft, validating, active, failed, BankConnection, Desk, ConnectionReq, Vault,
}
use payments_hub.Settings.Connections.{
  Reply, Statement, read_at, pad, outcome, scheduled, change, remove, write, insert_row, read_row,
  set_status, encrypt_fields, restate,
}
use payments_hub.Settings.Handlers.{
  reply, checked, new_row, create, update, delete, conclude, check_with, check_row, validate_row,
  validate, Call, creates, updates, deletes, validates, step,
}

-- What every statement of a tenant's requests keeps.
pub record IsKept (vault : Vault) (tenant : ℕ) (P : List BankConnection → Type 0) : Type 0 where
  pub inserted :
      (req : ConnectionReq) (d : Desk) (rows : List BankConnection)
      → P rows
      → P (rows ++ pad (new_row vault tenant req d) ∷ [])
  pub sealed_anew :
      (id : ℕ) (nonce : Bytes) (req : ConnectionReq) (rows : List BankConnection)
      → P rows
      → P (change id tenant (encrypt_fields vault nonce req) rows)
  pub restated :
      (id n : ℕ) (status : ConnectionStatus) (error : Option Bytes) (now : ℕ)
      (rows : List BankConnection)
      → n ≤ 3
      → P rows
      → P (change id tenant (restate status n error now) rows)
  pub removed : (id : ℕ) (rows : List BankConnection) → P rows → P (remove id tenant rows)

module _ (P : List BankConnection → Type 0) where
  abbrev Kept : Option (List BankConnection) → Type 0
  Kept none = Unit
  Kept (some rows) = P rows

  outcome-Kept :
      (o : Option (List BankConnection)) (d : Desk)
      → P d.connections
      → Kept o
      → P (outcome o d).1.connections
  outcome-Kept none d h k = h
  outcome-Kept (some rows) d h k = k

  scheduled-Kept :
      (faults : List Fault) (f : Statement) (d : Desk)
      → P d.connections
      → Kept (f d.connections)
      → P (scheduled faults f d).1.connections
  scheduled-Kept [] f d h k = outcome-Kept (f d.connections) d h k
  scheduled-Kept (none_at_all ∷ rest) f d h k =
      outcome-Kept (f d.connections) (record d { faults = rest }) h k
  scheduled-Kept (request_lost ∷ rest) f d h k = h
  scheduled-Kept (reply_lost ∷ rest) f d h k =
      outcome-Kept (f d.connections) (record d { faults = rest }) h k

  -- The table has the property after a call.
  data After {A : Type 0} (r : A × Desk) : Type 0 where
    after : P r.1.connections → After r

  write-Kept :
      (f : Statement) (d : Desk) → P d.connections → Kept (f d.connections) → After (write f d)
  unfolding write
  write-Kept f d h k = after (scheduled-Kept d.faults f d h k)

  checked-Kept :
      (r : Bool × Desk) (e : Bytes) (next : Desk → Reply × Desk)
      → After r
      → ((d : Desk) → P d.connections → After (next d))
      → After (checked r e next)
  checked-Kept (true, d) e next (after h) k = k d h
  checked-Kept (false, d) e next (after h) k = after h

  read_row-Kept :
      (id tenant : ℕ) (d : Desk) → P d.connections → P (read_row id tenant d).1.connections
  unfolding read_row
  read_row-Kept id tenant d h = after_faults d.faults
    where
      after_faults : (faults : List Fault) → P (read_at faults id tenant d).1.connections
      after_faults [] = h
      after_faults (none_at_all ∷ rest) = h
      after_faults (request_lost ∷ rest) = h
      after_faults (reply_lost ∷ rest) = h

  if-Kept : (b : Bool) (x y : Reply × Desk) → After x → After y → After (if b then x else y)
  if-Kept true x y h k = h
  if-Kept false x y h k = k

  insert_row-Kept :
      (b : BankConnection) (rows : List BankConnection)
      → P rows
      → P (rows ++ pad b ∷ [])
      → Kept (insert_row b rows)
  unfolding insert_row
  insert_row-Kept b rows h k = accepted _
    where
      accepted : (c : Bool) → Kept (if c then some (rows ++ pad b ∷ []) else none)
      accepted true = k
      accepted false = tt

  held : {A : Type 0} {r : A × Desk} → After r → P r.1.connections
  held (after h) = h

  drop : {A B : Type 0} (b : B) {r : A × Desk} → After r → After (b, r.1)
  drop b (after h) = after h

  module _ (vault : Vault) (tenant : ℕ) (kept : IsKept vault tenant P) where
    set_status-Kept :
        (id n : ℕ) (status : ConnectionStatus) (error : Option Bytes) (d : Desk)
        → n ≤ 3
        → P d.connections
        → {A : Type 0} (a : A) → After (a, (set_status id tenant status n error d).1)
    unfolding set_status
    set_status-Kept id n status error d l h a =
        drop a (write-Kept _ d h (kept.restated id n status error d.now d.connections l h))

    create-Kept :
        (body : Option ConnectionReq) (d : Desk)
        → P d.connections
        → After (create vault tenant body d)
    unfolding create
    create-Kept none d h = after h
    create-Kept (some req) d h =
        if-Kept (is_empty req.bank_code || is_empty req.bank_name || is_empty req.auth_method)
          (reply 400 (codes "bank_code, bank_name, auth_method required"), d)
          (checked inserted (codes "create_failed") (λ d'. (reply 201 [], d'))) (after h)
          (checked-Kept inserted (codes "create_failed") (λ d'. (reply 201 [], d'))
            (write-Kept (insert_row (new_row vault tenant req d))
              (record d { next_id = suc d.next_id; drawn = suc d.drawn }) h
              (insert_row-Kept (new_row vault tenant req d) d.connections h
                (kept.inserted req d d.connections h)))
            (λ d' h'. after h'))
      where
        inserted : Bool × Desk
        inserted =
            write (insert_row (new_row vault tenant req d))
              (record d { next_id = suc d.next_id; drawn = suc d.drawn })

    update-Kept :
        (id : Option ℕ) (body : Option ConnectionReq) (d : Desk)
        → P d.connections
        → After (update vault tenant id body d)
    unfolding update
    update-Kept none body d h = after h
    update-Kept (some id) none d h = after h
    update-Kept (some id) (some req) d h =
        checked-Kept
          (write
            (λ rows. some (change id tenant (encrypt_fields vault (vault.nonce d.drawn) req) rows))
            (record d { drawn = suc d.drawn }))
          (codes "update_failed") (λ d'. (reply 200 [], (set_status id tenant draft 0 none d').1))
          (write-Kept
            (λ rows. some (change id tenant (encrypt_fields vault (vault.nonce d.drawn) req) rows))
            (record d { drawn = suc d.drawn }) h
            (kept.sealed_anew id (vault.nonce d.drawn) req d.connections h))
          (λ d' h'. set_status-Kept id 0 draft none d' (omega arith) h' (reply 200 []))

    delete-Kept : (id : Option ℕ) (d : Desk) → P d.connections → After (delete vault tenant id d)
    unfolding delete
    delete-Kept none d h = after h
    delete-Kept (some id) d h = drop _ (write-Kept _ d h (kept.removed id d.connections h))

    check_row-Kept :
        (id n : ℕ) (code : Bytes) (creds : Option BankCredentials) (d : Desk)
        → n ≤ 3
        → P d.connections
        → After (check_row vault tenant id n code creds d)
    unfolding check_row check_with conclude
    check_row-Kept id n code none d l h = set_status-Kept id n failed _ d l h _
    check_row-Kept id n code (some creds) d l h = with_validator (vault.validator_of code)
      where
        concluded :
            (text : Error → Bytes) (r : Result (Unit {0}))
            → After (conclude vault tenant id n text r d)
        concluded text (err e) = set_status-Kept id n failed _ d l h _
        concluded text (ok u) = set_status-Kept id n active _ d l h _

        with_validator :
            (v : Option (BankCredentials → Result (Unit {0})))
            → After (check_with vault tenant id n code creds v d)
        with_validator none = set_status-Kept id n failed _ d l h _
        with_validator (some v) = concluded _ (v creds)

    validate_row-Kept :
        (id : ℕ) (row : Option BankConnection) (d : Desk)
        → P d.connections
        → After (validate_row vault tenant id row d)
    unfolding validate_row
    validate_row-Kept id none d h = after h
    validate_row-Kept id (some b) d h = elim (Bool-cases (ltb 3 (b.validation_attempts + 1))) [
      | inl e ↦ rw (e) (after h)
      | inr e ↦ rw (e) (
          check_row-Kept id (b.validation_attempts + 1) b.bank_code _ _ (bounded _ e) (
            held (
              set_status-Kept id (b.validation_attempts + 1) validating none d (bounded _ e) h tt)))
    ]
      where
        bounded : (n : ℕ) → ltb 3 n ≡ false → n ≤ 3
        bounded n e = ground arith

    validate-Kept :
        (id : Option ℕ) (d : Desk) → P d.connections → After (validate vault tenant id d)
    unfolding validate
    validate-Kept none d h = after h
    validate-Kept (some id) d h =
        validate_row-Kept id (read_row id tenant d).0 (read_row id tenant d).1
          (read_row-Kept id tenant d h)

    pub step-Kept :
        (call : Call) (d : Desk) → P d.connections → P (step vault tenant call d).connections
    step-Kept (creates body) d h = held (create-Kept body d h)
    step-Kept (updates id body) d h = held (update-Kept id body d h)
    step-Kept (deletes id) d h = held (delete-Kept id d h)
    step-Kept (validates id) d h = held (validate-Kept id d h)
