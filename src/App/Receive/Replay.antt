-- ===== src/App/Receive/Replay.antt =====
-- A request that is sent again after a good answer (receive_payment.go, Execute).
mod Steps
use payments_hub.Base.{
  ℕ, suc, ◌≡◌, refl, sym, ap, ◌∙◌, Bool, true, false, not, Option, none, some, List, [], ◌∷◌, ◌++◌,
  ◌==◌, arith, if◌then◌else◌,
}
use payments_hub.Base.Bytes.{Bytes, same, same_refl}
use payments_hub.Base.Result.{Result, ok, err, not_found}
use payments_hub.Payment.{Payment, new}
use payments_hub.Store.{
  calm, World, Fault, PaymentEvent, IdempotencyRecord, Db, query, pure, lift, raise, raise_if, try,
  new_uuid, clock, ◌>>=◌, ◌>>◌,
}
use payments_hub.Store.Success.{
  bind_ok, then_ok, query_ok, lift_ok, raise_if_ok, look_ok, read_world, try_ok,
}
use payments_hub.Store.Rows.{
  Unchanged, insert_row_ok, event_row-Unchanged, record_row_ok, find_key-append, find_record-append,
}
use payments_hub.Store.Payments.{insert, insert_row, get_by_key, find_key, contains_id, or_missing}
use payments_hub.Store.Events.{insert_event, event_row, with_id}
use payments_hub.Store.Idempotency.{insert_record, record_row, get_record, find_record}
use payments_hub.App.Receive.{
  ReceiveInput, ReceiveResult, validate_input, get_account, check_account, draft_payment,
  ingress_event, snapshot, created, persist_new, replay_or_persist, execute,
}
use payments_hub.App.Receive.Replay.Steps.{
  Replayable, Replayable-moved, Replayable-read, Replayable-recorded, Unchanged-moved,
  Unchanged-trans, branch_ok, clock_ok, found_new, insert_event_ok, new_uuid_ok, pure_ok,
  some_of_ok, true_of_if, true_of_not, with_id_ok,
}

module _ (rfc3339 : ℕ → Bytes) (i : ReceiveInput) where
  -- The event and the record behind a payment that was inserted.
  recorded :
      (q : Payment) (w : World) (res : ReceiveResult) (w' : World)
      → (new_uuid >>= λ event_id.
            insert_event (ingress_event i event_id q)
            >> (clock >>= λ now. insert_record (snapshot i now q) >> pure (created q)))
          w
        ≡ (ok res, w')
      → find_key i.idempotency_key w.payments ≡ some q
      → contains_id i.payer_account_id w.payer_accounts ≡ true
      → Replayable i res.payment w'
  unfolding insert_record
  recorded q w res w' h found account =
      let (event_id, w1, e1, h1) = bind_ok new_uuid _ w res w' h in
      let (a2, w2, e2, h2) = then_ok (insert_event (ingress_event i event_id q)) _ w1 res w' h1 in
      let (now, w3, e3, h3) = bind_ok clock _ w2 res w' h2 in
      let (a4, w4, e4, h4) = then_ok (insert_record (snapshot i now q)) _ w3 res w' h3 in
      let (answer, last) = pure_ok (created q) res w4 w' h4 in
      let (gs, r4) = query_ok (record_row (snapshot i now q)) w3 a4 w4 e4 in
      let (same4, idem, free) =
        record_row_ok (snapshot i now q) (record w3 { faults = gs }) a4 w4 r4 in
      let until2 : Unchanged w w2 =
        Unchanged-trans w w1 w2 (new_uuid_ok w event_id w1 e1)
          (insert_event_ok (ingress_event i event_id q) w1 a2 w2 e2) in
      let until4 : Unchanged w w4 =
        Unchanged-trans w w3 w4 (Unchanged-moved w w2 w3 (clock_ok w2 now w3 e3) until2) same4 in
      Replayable-moved i q res w4 w' answer last (
        Replayable-recorded i q (record (snapshot i now q) { created_at = w3.now }) w w3 w4 until4
          idem free (refl, refl) found account)

  persisted :
      (w : World) (res : ReceiveResult) (w' : World)
      → persist_new rfc3339 i w ≡ (ok res, w')
      → contains_id i.payer_account_id w.payer_accounts ≡ true
      → Replayable i res.payment w'
  unfolding persist_new insert draft_payment new
  persisted w res w' h account =
      let (id, w1, e1, h1) = bind_ok new_uuid _ w res w' h in
      let (now, w2, e2, h2) = bind_ok clock _ w1 res w' h1 in
      let draft = draft_payment i id (rfc3339 now) in
      let (q, w3, e3, h3) = bind_ok (insert draft) _ w2 res w' h2 in
      let (gs, r3) = query_ok (insert_row draft) w2 q w3 e3 in
      let (pay, acc, key, free) = insert_row_ok draft (record w2 { faults = gs }) q w3 r3 in
      let (_, acc1) = Unchanged-moved w w1 w2 (clock_ok w1 now w2 e2) (new_uuid_ok w id w1 e1) in
      recorded q w3 res w' h3 (found_new i.idempotency_key q w2 w3 pay key free)
        (ap (contains_id i.payer_account_id) (acc ∙ acc1) ∙ account)

  -- The answer from the stored record.
  replayed_ok :
      (existing : IdempotencyRecord) (w : World) (res : ReceiveResult) (w' : World)
      → replay_or_persist rfc3339 i (ok existing) w ≡ (ok res, w')
      → find_record i.idempotency_key w.idempotency ≡ some existing
      → contains_id i.payer_account_id w.payer_accounts ≡ true
      → Replayable i res.payment w'
  unfolding replay_or_persist get_by_key
  replayed_ok existing w res w' h found account =
      let (a1, w1, e1, h1) =
        then_ok (raise_if (not (same existing.request_hash i.request_hash)) _) _ w res w' h in
      let (matches, same1) =
        raise_if_ok (not (same existing.request_hash i.request_hash)) _ w a1 w1 e1 in
      let (p, w2, e2, h2) = bind_ok (get_by_key i.idempotency_key) _ w1 res w' h1 in
      let (gs, look, same2) =
        look_ok (λ v. or_missing (find_key i.idempotency_key v.payments)) w1 p w2 e2 in
      let answer : ReceiveResult = record {
        payment = p;
        replayed = true;
        cached_at = existing.created_at;
      } in
      let (good, last) = pure_ok answer res w2 w' h2 in
      Replayable-read i p existing gs res w w1 w2 w' same1 same2 (ap (λ x. x.payment) good, last)
        (some_of_ok _ p look) account found (true_of_not _ matches)

  -- What the check of the account leaves.
  account_ok :
      (w : World) (a : Unit {0}) (v : World)
      → try (get_account i.payer_account_id) check_account w ≡ (ok a, v)
      → (gs : List Fault) × (v ≡ record w { faults = gs })
        × (contains_id i.payer_account_id w.payer_accounts ≡ true)
  unfolding get_account check_account raise
  account_ok w a v h =
      let (r, u, e, f) = try_ok (get_account i.payer_account_id) check_account w a v h in go r u e f
    where
      go :
          (r : Result (Unit {0})) (u : World)
          → get_account i.payer_account_id w ≡ (r, u)
          → check_account r u ≡ (ok a, v)
          → (gs : List Fault) × (v ≡ record w { faults = gs })
            × (contains_id i.payer_account_id w.payer_accounts ≡ true)
      go (ok b) u e f =
          let (gs, found, same_world) =
            look_ok
              (λ x.
                if contains_id i.payer_account_id x.payer_accounts then ok tt else err not_found)
              w b u e in
          let (_, last) = pure_ok tt a u v f in (gs, last ∙ same_world, true_of_if _ b found)
      go (err x) u e f = cc

  -- The lookup of the record, whatever it ends with, and what follows.
  looked_up :
      (w : World) (res : ReceiveResult) (w' : World)
      → try (get_record i.idempotency_key) (replay_or_persist rfc3339 i) w ≡ (ok res, w')
      → contains_id i.payer_account_id w.payer_accounts ≡ true
      → Replayable i res.payment w'
  unfolding get_record replay_or_persist
  looked_up w res w' h account =
      let (r, u, e, f) =
        try_ok (get_record i.idempotency_key) (replay_or_persist rfc3339 i) w res w' h in
      go r u e f
    where
      go :
          (r : Result IdempotencyRecord) (u : World)
          → get_record i.idempotency_key w ≡ (r, u)
          → replay_or_persist rfc3339 i r u ≡ (ok res, w')
          → Replayable i res.payment w'
      go (ok existing) u e f =
          let (gs, found, same_world) =
            look_ok (λ v. or_missing (find_record i.idempotency_key v.idempotency)) w existing u
              e in
          replayed_ok existing u res w' f
            (ap (λ v. find_record i.idempotency_key v.idempotency) same_world
              ∙ some_of_ok _ existing found)
            (ap (λ v. contains_id i.payer_account_id v.payer_accounts) same_world ∙ account)
      go (err x) u e f =
          let (gs, same_world) =
            read_world (λ v. or_missing (find_record i.idempotency_key v.idempotency)) w in
          persisted u res w' f (
            ap (λ v. contains_id i.payer_account_id v.payer_accounts)
              (sym (ap (λ z. z.1) e) ∙ same_world)
            ∙ account)

  answered :
      (w : World) (res : ReceiveResult) (w' : World)
      → execute rfc3339 i w ≡ (ok res, w')
      → (validate_input i ≡ ok tt) × Replayable i res.payment w'
  unfolding execute
  answered w res w' h =
      let (a1, w1, e1, h1) = then_ok (lift (validate_input i)) _ w res w' h in
      let (valid, _) = lift_ok (validate_input i) w a1 w1 e1 in
      let (a2, w2, e2, h2) =
        then_ok (try (get_account i.payer_account_id) check_account) _ w1 res w' h1 in
      let (gs, same2, account) = account_ok w1 a2 w2 e2 in
      (
        valid,
        looked_up w2 res w' h2
            (ap (λ v. contains_id i.payer_account_id v.payer_accounts) same2 ∙ account),
      )

  replays :
      (p : Payment) (w : World) (existing : IdempotencyRecord)
      → validate_input i ≡ ok tt
      → find_key i.idempotency_key w.payments ≡ some p
      → contains_id i.payer_account_id w.payer_accounts ≡ true
      → find_record i.idempotency_key w.idempotency ≡ some existing
      → same existing.request_hash i.request_hash ≡ true
      → execute rfc3339 i (calm w)
        ≡ (ok (record { payment = p; replayed = true; cached_at = existing.created_at }), calm w)
  unfolding execute lift get_account check_account get_record replay_or_persist raise_if get_by_key
      query try pure ◌>>=◌ ◌>>◌
  replays p w existing valid found account stored hash =
      rw (valid, account, stored, hash, found) refl

  -- Once `Execute` has answered a request well, whatever failed on the way, the same request sent
  -- again to the world that it left is answered with the same payment, as a replay, and changes
  -- nothing, as long as no statement fails.
  pub execute_replays :
      (w : World) (res : ReceiveResult) (w' : World)
      → execute rfc3339 i w ≡ (ok res, w')
      → (t : ℕ) × (execute rfc3339 i (calm w')
          ≡ (ok (record { payment = res.payment; replayed = true; cached_at = t }), calm w'))
  execute_replays w res w' h =
      let (valid, (found, account, (existing, stored, hash))) = answered w res w' h in
      (existing.created_at, replays res.payment w' existing valid found account stored hash)
