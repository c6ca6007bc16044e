-- ===== src/App/Receive/Replay/Steps.antt =====
-- What the steps of `Execute` leave for a replay (receive_payment.go).
use payments_hub.Base.{
  ℕ, suc, ◌≡◌, refl, sym, ap, ◌∙◌, Bool, true, false, not, Option, none, some, List, [], ◌∷◌, ◌++◌,
  ◌==◌, if◌then◌else◌,
}
use payments_hub.Base.Bytes.{Bytes, same, same_refl}
use payments_hub.Base.Result.{ok, err, not_found}
use payments_hub.Payment.{Payment}
use payments_hub.Store.{World, Fault, PaymentEvent, IdempotencyRecord, pure, new_uuid, clock, ◌>>=◌}
use payments_hub.Store.Success.{bind_ok, query_ok}
use payments_hub.Store.Rows.{Unchanged, event_row-Unchanged, find_key-append, find_record-append}
use payments_hub.Store.Payments.{find_key, contains_id, or_missing}
use payments_hub.Store.Events.{insert_event, event_row, with_id}
use payments_hub.Store.Idempotency.{find_record}
use payments_hub.App.Receive.{ReceiveInput, ReceiveResult, created}

pub Unchanged-trans : (u v w : World) → Unchanged u v → Unchanged v w → Unchanged u w
Unchanged-trans u v w (p, a) (q, b) = (q ∙ p, b ∙ a)

pub new_uuid_ok : (w : World) (id : ℕ) (v : World) → new_uuid w ≡ (ok id, v) → Unchanged w v
unfolding new_uuid
new_uuid_ok w id v h = let e : v ≡ record w { next_id = suc w.next_id } = cc in rw e (refl, refl)

pub clock_ok : (w : World) (now : ℕ) (v : World) → clock w ≡ (ok now, v) → v ≡ w
unfolding clock
clock_ok w now v h = cc

pub pure_ok : {A : Type 0} (a b : A) (w v : World) → pure a w ≡ (ok b, v) → (b ≡ a) × (v ≡ w)
unfolding pure
pure_ok a b w v h = (cc, cc)

pub branch_ok :
    (b : Bool) (e e' : PaymentEvent) (w v : World)
    → (if b then new_uuid >>= (λ id. pure (record e { id = id })) else pure e) w ≡ (ok e', v)
    → Unchanged w v
branch_ok true e e' w v h =
    let (id, u, h1, h2) = bind_ok new_uuid _ w e' v h in
    let (_, same_world) = pure_ok (record e { id = id }) e' u v h2 in
    rw same_world (new_uuid_ok w id u h1)
branch_ok false e e' w v h = let (_, same_world) = pure_ok e e' w v h in rw same_world (refl, refl)

pub with_id_ok : (e e' : PaymentEvent) (w v : World) → with_id e w ≡ (ok e', v) → Unchanged w v
unfolding with_id
with_id_ok e e' w v h = branch_ok (e.id == 0) e e' w v h

pub insert_event_ok :
    (e : PaymentEvent) (w : World) (a : Unit {0}) (v : World)
    → insert_event e w ≡ (ok a, v)
    → Unchanged w v
unfolding insert_event
insert_event_ok e w a v h =
    let (e', u, h1, h2) = bind_ok (with_id e) _ w a v h in
    let (gs, h3) = query_ok (event_row e') u a v h2 in
    let same_tables = event_row-Unchanged e' (record u { faults = gs }) in
    let at : (event_row e' (record u { faults = gs })).1 ≡ v = ap (λ x. x.1) h3 in
    Unchanged-trans w u v (with_id_ok e e' w u h1) (rw at at same_tables)

-- What the replay of a request needs to find.
abbrev pub Replayable : ReceiveInput → Payment → World → Type 0
Replayable i p w =
    (find_key i.idempotency_key w.payments ≡ some p)
    × (contains_id i.payer_account_id w.payer_accounts ≡ true)
    × ((r : IdempotencyRecord) × (find_record i.idempotency_key w.idempotency ≡ some r)
        × (same r.request_hash i.request_hash ≡ true))

pub Replayable-moved :
    (i : ReceiveInput) (q : Payment) (res : ReceiveResult) (w v : World)
    → res ≡ created q
    → v ≡ w
    → Replayable i q w
    → Replayable i res.payment v
Replayable-moved i q res w v answer last h = rw (last, answer) h

pub Unchanged-moved : (u w v : World) → v ≡ w → Unchanged u w → Unchanged u v
Unchanged-moved u w v e h = rw e h

-- The world behind the insertion of the record.
pub Replayable-recorded :
    (i : ReceiveInput) (q : Payment) (kept : IdempotencyRecord) (u w v : World)
    → Unchanged u v
    → v.idempotency ≡ w.idempotency ++ kept ∷ []
    → find_record i.idempotency_key w.idempotency ≡ none
    → (kept.key ≡ i.idempotency_key) × (kept.request_hash ≡ i.request_hash)
    → find_key i.idempotency_key u.payments ≡ some q
    → contains_id i.payer_account_id u.payer_accounts ≡ true
    → Replayable i q v
Replayable-recorded i q kept u w v (pay, acc) idem free (key, hash) found account = (
  ap (find_key i.idempotency_key) pay ∙ found,
  ap (contains_id i.payer_account_id) acc ∙ account,
  (
    kept,
    ap (find_record i.idempotency_key) idem
        ∙ ap (λ k. find_record k (w.idempotency ++ kept ∷ [])) (sym key)
        ∙ find_record-append w.idempotency kept (ap (λ k. find_record k w.idempotency) key ∙ free),
    ap (λ h. same h i.request_hash) hash ∙ same_refl i.request_hash,
  ),
)

-- The world behind the insertion of the payment.
pub found_new :
    (k : Bytes) (q : Payment) (w v : World)
    → v.payments ≡ w.payments ++ q ∷ []
    → q.idempotency_key ≡ k
    → find_key k w.payments ≡ none
    → find_key k v.payments ≡ some q
found_new k q w v pay key free =
    ap (find_key k) pay
    ∙ ap (λ j. find_key j (w.payments ++ q ∷ [])) (sym key)
    ∙ find_key-append w.payments q (ap (λ j. find_key j w.payments) key ∙ free)

pub some_of_ok : {A : Type 0} (q : Option A) (a : A) → or_missing q ≡ ok a → q ≡ some a
some_of_ok none a h = cc
some_of_ok (some b) a h = cc

pub true_of_not : (b : Bool) → not b ≡ false → b ≡ true
true_of_not true h = refl
true_of_not false h = cc

pub true_of_if : (b : Bool) (a : Unit {0}) → (if b then ok tt else err not_found) ≡ ok a → b ≡ true
true_of_if true a h = refl
true_of_if false a h = cc

-- The worlds behind a read, and behind a check that passed.
pub Replayable-read :
    (i : ReceiveInput) (p : Payment) (existing : IdempotencyRecord) (gs : List Fault)
    (res : ReceiveResult) (w w1 w2 w' : World)
    → w1 ≡ w
    → w2 ≡ record w1 { faults = gs }
    → (res.payment ≡ p) × (w' ≡ w2)
    → find_key i.idempotency_key w1.payments ≡ some p
    → contains_id i.payer_account_id w.payer_accounts ≡ true
    → find_record i.idempotency_key w.idempotency ≡ some existing
    → same existing.request_hash i.request_hash ≡ true
    → Replayable i res.payment w'
Replayable-read i p existing gs res w w1 w2 w' a b (c, d) found account stored hash =
    let here : Replayable i p w = (
      ap (λ v. find_key i.idempotency_key v.payments) (sym a) ∙ found,
      account,
      (existing, stored, hash),
    ) in
    let there : Replayable i p w2 = rw b (rw a here) in rw (c, d) there
