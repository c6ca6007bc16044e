-- ===== src/Store/Transaction.antt =====
-- Transactions, as ReschedulePayment of internal/app/runs.go uses one: the statements work on a
-- draft of the tables. After one that fails the database refuses all others, and only a commit
-- makes the draft the tables.
use payments_hub.Base.{
  ℕ, suc, ◌≡◌, ◌⊎◌, inl, inr, refl, sym, ◌∙◌, Bool, true, false, List, [], ◌∷◌, if◌then◌else◌,
  Bool-cases, ap,
}
use payments_hub.Base.Result.{Error, unavailable, Result, ok, err}
use payments_hub.Store.Tables.{World, Fault, none_at_all, request_lost, reply_lost}
use payments_hub.Store.Query.{Db, pure, query, ◌>>◌}
use payments_hub.Store.Success.{query_ok}

pub record Tx : Type 0 where
  pub draft : World
  pub is_aborted : Bool

abbrev pub Part : Type 0 → Type 0
Part A = Tx → Result A × Tx

module _ {A : Type 0} where
  abbrev pub ended : Result A × World → Result A × Tx
  ended (ok a, w) = (ok a, record { draft = w; is_aborted = false })
  ended (err e, w) = (err e, record { draft = w; is_aborted = true })

  -- One statement of the transaction.
  unfoldable pub exec : Db A → Part A
  exec f t = if t.is_aborted then (err unavailable, t) else ended (query f t.draft)

  -- An error of the program, which the database does not see.
  abbrev pub give_up : Error → Part A
  give_up e t = (err e, t)

module _ {A B : Type 0} where
  abbrev pub on_success : Result A → (A → Part B) → Part B
  on_success (ok a) f t = f a t
  on_success (err e) f t = (err e, t)

  unfoldable pub and_then : Part A → (A → Part B) → Part B
  and_then m f t = let (r, t') = m t in on_success r f t'

  -- A statement whose outcome the program looks at itself.
  unfoldable pub regardless : Part A → (Result A → Part B) → Part B
  regardless m f t = let (r, t') = m t in f r t'

-- `s.newUUID()` between two statements.
unfoldable pub draw : {A : Type 0} → (ℕ → Part A) → Part A
draw f t = f t.draft.next_id (record t { draft = record t.draft { next_id = suc t.draft.next_id } })

-- The tables as they were; identifiers and failures are used up.
abbrev pub rolled_back : World → World → World
rolled_back w d = record w { faults = d.faults; next_id = d.next_id }

abbrev pub committed : List Fault → World → World → Result (Unit {0}) × World
committed [] w d = (ok tt, d)
committed (none_at_all ∷ rest) w d = (ok tt, record d { faults = rest })
committed (request_lost ∷ rest) w d = (err unavailable, record (rolled_back w d) { faults = rest })
committed (reply_lost ∷ rest) w d = (err unavailable, record d { faults = rest })

-- A commit of what was aborted is a rollback too.
abbrev pub finish_tx : Result (Unit {0}) → Tx → Db (Unit {0})
finish_tx (err e) t w = (err e, rolled_back w t.draft)
finish_tx (ok _) t w =
    if t.is_aborted
    then (err unavailable, rolled_back w t.draft)
    else committed t.draft.faults w t.draft

abbrev pub opened : World → Tx
opened w = record { draft = w; is_aborted = false }

abbrev pub is_good {ℓ} : {A : Type ℓ} → Result A → Bool
is_good (ok _) = true
is_good (err _) = false

-- The same rows in every table.
pub data SameRows (v w : World) : Type 0 where
  same_rows :
      w.payments ≡ v.payments
      → w.items ≡ v.items
      → w.events ≡ v.events
      → w.runs ≡ v.runs
      → w.postponements ≡ v.postponements
      → SameRows v w

unfoldable pub in_draft : Part (Unit {0}) → Db (Unit {0})
in_draft body w = let (r, t) = body (opened w) in finish_tx r t w

-- `Begin`, the body, and `Commit` where it has no error; the deferred `Rollback` where it has one.
unfoldable pub transact : Part (Unit {0}) → Db (Unit {0})
transact body = query (pure tt) >> in_draft body

clash : {A : Type 0} → true ≡ false → A
clash h = cc

-- A statement that leaves the transaction in order ran on the draft.
pub exec_step :
    {A : Type 0} (f : Db A) (t t' : Tx) (r : Result A)
    → exec f t ≡ (r, t')
    → t'.is_aborted ≡ false
    → (t.is_aborted ≡ false)
      × (a : A) × (gs : List Fault) × (r ≡ ok a)
      × (f (record t.draft { faults = gs }) ≡ (ok a, t'.draft))
unfolding exec
exec_step {A} f t t' r h k = go t.is_aborted refl h
  where
    ran :
        (q : Result A) (w : World)
        → query f t.draft ≡ (q, w)
        → ended (q, w) ≡ (r, t')
        → (a : A) × (gs : List Fault) × (r ≡ ok a)
          × (f (record t.draft { faults = gs }) ≡ (ok a, t'.draft))
    ran (ok a) w d e =
        let (gs, g) = query_ok f t.draft a w d in
        (a, gs, sym (ap (λ x. x.0) e), g ∙ ap (λ v. (ok a, v)) (ap (λ x. x.1.draft) e))
    ran (err x) w d e = clash (ap (λ x. x.1.is_aborted) e ∙ k)

    go :
        (b : Bool)
        → t.is_aborted ≡ b
        → ◌≡◌ {A = Result A × Tx}
            (if b then (err unavailable, t) else ended (query f t.draft))
            (r, t')
        → (t.is_aborted ≡ false)
          × (a : A) × (gs : List Fault) × (r ≡ ok a)
          × (f (record t.draft { faults = gs }) ≡ (ok a, t'.draft))
    go true d e = clash (sym d ∙ ap (λ x. x.1.is_aborted) e ∙ k)
    go false d e =
        let (a, gs, p, q) = ran (query f t.draft).0 (query f t.draft).1 refl e in (d, a, gs, p, q)

-- A statement without an error leaves the transaction in order.
pub exec_ok :
    {A : Type 0} (f : Db A) (t t' : Tx) (a : A) → exec f t ≡ (ok a, t') → t'.is_aborted ≡ false
unfolding exec
exec_ok {A} f t t' a h = go t.is_aborted (query f t.draft) h
  where
    go :
        (b : Bool) (q : Result A × World)
        → ◌≡◌ {A = Result A × Tx} (if b then (err unavailable, t) else ended q) (ok a, t')
        → t'.is_aborted ≡ false
    go true q e = cc
    go false (ok x, w) e = sym (ap (λ x. x.1.is_aborted) e)
    go false (err x, w) e = cc

-- After a transaction the tables are as they were, or its body had no error and they are its draft.
pub in_draft-cases :
    (body : Part (Unit {0})) (w : World)
    → SameRows w (in_draft body w).1 × (is_good (in_draft body w).0 ≡ false)
      ⊎ ((body (opened w)).0 ≡ ok tt) × SameRows (body (opened w)).1.draft (in_draft body w).1
unfolding in_draft
in_draft-cases body w = cases (body (opened w)).0 (body (opened w)).1
  where
    rows :
        (fs : List Fault) (d : World)
        → SameRows w (committed fs w d).1 × (is_good (committed fs w d).0 ≡ false)
          ⊎ (◌≡◌ {A = Result (Unit {0})} (ok tt) (ok tt)) × SameRows d (committed fs w d).1
    rows [] d = inr (refl, same_rows refl refl refl refl refl)
    rows (none_at_all ∷ rest) d = inr (refl, same_rows refl refl refl refl refl)
    rows (request_lost ∷ rest) d = inl (same_rows refl refl refl refl refl, refl)
    rows (reply_lost ∷ rest) d = inr (refl, same_rows refl refl refl refl refl)

    cases :
        (r : Result (Unit {0})) (t : Tx)
        → SameRows w (finish_tx r t w).1 × (is_good (finish_tx r t w).0 ≡ false)
          ⊎ (r ≡ ok tt) × SameRows t.draft (finish_tx r t w).1
    cases (err e) t = inl (same_rows refl refl refl refl refl, refl)
    cases (ok tt) t = elim (Bool-cases t.is_aborted) [
      | inl e ↦ inl (rw (e) (same_rows refl refl refl refl refl, refl))
      | inr e ↦ rw (e) (rows t.draft.faults t.draft)
    ]
