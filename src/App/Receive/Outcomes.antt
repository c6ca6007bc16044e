-- ===== src/App/Receive/Outcomes.antt =====
-- What `Execute` leaves behind (receive_payment.go).
use payments_hub.Base.{
  ℕ, ◌==◌, suc, ◌+◌, ◌≤◌, ◌≡◌, refl, ◌∙◌, ap, true, none, some, List, [], ◌∷◌, ◌++◌, append-nil,
  append_assoc, sym, arith, ◌⊎◌, inl, inr, if◌then◌else◌,
}
use payments_hub.Base.Bytes.{Bytes, same, same_refl}
use payments_hub.Base.Result.{Result, ok, err}
use payments_hub.Payment.{Payment, new}
use payments_hub.Payment.Lifecycle.{received}
use payments_hub.Store.{PaymentEvent, IdempotencyRecord, clock, World, Db, query, pure, ◌>>=◌, ◌>>◌}
use payments_hub.Store.Always.{
  IsPreorder, Always, Always-pure, Always-raise, Always-lift, Always-query, Always-bind, Always-try,
  Always-new_uuid, Always-if, Always-clock, Always-raise_if, Always-then,
}
use payments_hub.Store.Events.{insert_event, with_id, event_row, event_row_lem}
use payments_hub.Store.Idempotency.{insert_record, get_record, record_row, record_row_lem}
use payments_hub.App.Receive.{
  ReceiveInput, get_account, check_account, draft_payment, persist_new, replay_or_persist, execute,
  account_error, ingress_event, snapshot, created,
}
use payments_hub.Store.Payments.{insert, insert_row, get_by_key, find_key}

-- How many payments have the key.
unfoldable pub count_key : Bytes → List Payment → ℕ
count_key key [] = 0
count_key key (p ∷ ps) = (if same p.idempotency_key key then 1 else 0) + count_key key ps

abbrev pub AllNew : Bytes → List Payment → Type 0
AllNew key [] = Unit {0}
AllNew key (p ∷ ps) = (p.idempotency_key ≡ key) × (p.status ≡ received) × AllNew key ps

-- The payments of `w'` are those of `w` and then new ones of this key that are RECEIVED; and one
-- payment of the key stays the most there is.
abbrev pub Adds : Bytes → World → World → Type 0
Adds key w w' =
    (added : List Payment) × (w'.payments ≡ w.payments ++ added)
    × AllNew key added
    × (count_key key w.payments ≤ 1 → count_key key w'.payments ≤ 1)

AllNew-append :
    (key : Bytes) (ps qs : List Payment) → AllNew key ps → AllNew key qs → AllNew key (ps ++ qs)
AllNew-append key [] qs h k = k
AllNew-append key (p ∷ ps) qs (a, b, h) k = (a, b, AllNew-append key ps qs h k)

key_order : (key : Bytes) → IsPreorder (Adds key)
key_order key = record {
  refl_R = λ w. ([], sym (append-nil w.payments), tt, λ h. h);
  trans_R = λ u v w (ps, p, h, c) (qs, q, k, d). (
    ps ++ qs,
    q ∙ ap (λ l. l ++ qs) p ∙ append_assoc u.payments ps qs,
    AllNew-append key ps qs h k,
    λ e. d (c e),
  );
  ids_R = λ w. ([], sym (append-nil w.payments), tt, λ h. h);
  faults_R = λ w fs. ([], sym (append-nil w.payments), tt, λ h. h);
}

count_none : (key : Bytes) (ps : List Payment) → find_key key ps ≡ none → count_key key ps ≡ 0
unfolding count_key find_key
count_none key [] h = refl
count_none key (p ∷ ps) h = let ih = count_none key ps in ground arith

same_key : (key : Bytes) (p : Payment) → p.idempotency_key ≡ key → same p.idempotency_key key ≡ true
same_key key p h = rw h (same_refl key)

count_snoc :
    (key : Bytes) (ps : List Payment) (p : Payment)
    → p.idempotency_key ≡ key
    → count_key key (ps ++ p ∷ []) ≡ suc (count_key key ps)
unfolding count_key
count_snoc key [] p h = rw (same_key key p h)
count_snoc key (q ∷ ps) p h = let ih = count_snoc key ps p h in omega arith

Adds-same : (key : Bytes) (w w' : World) → w'.payments ≡ w.payments → Adds key w w'
Adds-same key w w' h = ([], h ∙ sym (append-nil w.payments), tt, λ c. rw h c)

Adds-one :
    (key : Bytes) (w w' : World) (p : Payment)
    → w'.payments ≡ w.payments ++ p ∷ []
    → p.idempotency_key ≡ key
    → p.status ≡ received
    → find_key key w.payments ≡ none
    → Adds key w w'
Adds-one key w w' p h k s free = (
  p ∷ [],
  h,
  (k, s, tt),
  λ c.
      let few = count_snoc key w.payments p k in
      let zero_before = count_none key w.payments free in rw h (omega arith),
)

-- What the statement of `insert` does to the payments.
insert_row_lem :
    (p : Payment) (w : World)
    → ((insert_row p w).1.payments ≡ w.payments)
      ⊎ (((insert_row p w).1.payments
            ≡ w.payments ++ (record p { created_at = w.now; updated_at = w.now }) ∷ [])
          × (find_key p.idempotency_key w.payments ≡ none))
unfolding insert_row
insert_row_lem p w = elim (find_key p.idempotency_key w.payments) [
  | none ↦ ground arith
  | some q ↦ ground arith
]

insert_row-Adds :
    (key : Bytes) (p : Payment)
    → p.idempotency_key ≡ key
    → p.status ≡ received
    → Always (Adds key) (insert_row p)
unfolding Always
insert_row-Adds key p k s w = elim (insert_row_lem p w) [
  | inl h ↦ Adds-same key w (insert_row p w).1 h
  | inr (h, free) ↦
      Adds-one key w (insert_row p w).1 (record p { created_at = w.now; updated_at = w.now }) h k s
        (rw k at free)
]

insert-Adds :
    (key : Bytes) (p : Payment)
    → p.idempotency_key ≡ key
    → p.status ≡ received
    → Always (Adds key) (insert p)
unfolding insert
insert-Adds key p k s = Always-query (key_order key) (insert_row p) (insert_row-Adds key p k s)

module _ (key : Bytes) where
  Always-quiet :
      {A : Type 0} (m : Db A) → ((w : World) → (m w).1.payments ≡ w.payments) → Always (Adds key) m
  unfolding Always
  Always-quiet m h w = Adds-same key w (m w).1 (h w)

  event_row-Adds : (e : PaymentEvent) → Always (Adds key) (query (event_row e))
  event_row-Adds e =
      Always-query (key_order key) (event_row e)
        (Always-quiet (event_row e) (λ w. event_row_lem e w))

  insert_event-Adds : (e : PaymentEvent) → Always (Adds key) (insert_event e)
  unfolding insert_event with_id
  insert_event-Adds e =
      let o = key_order key in
      Always-bind o _ _
        (Always-if o (e.id == 0) _ _ (Always-bind o _ _ (Always-new_uuid o) (λ id. Always-pure o _))
          (Always-pure o e))
        event_row-Adds

  insert_record-Adds : (r : IdempotencyRecord) → Always (Adds key) (insert_record r)
  unfolding insert_record
  insert_record-Adds r =
      Always-query (key_order key) (record_row r)
        (Always-quiet (record_row r) (λ w. record_row_lem r w))

  get_record-Adds : (k : Bytes) → Always (Adds key) (get_record k)
  unfolding get_record
  get_record-Adds k = Always-query (key_order key) _ (Always-quiet _ (λ w. refl))

  get_by_key-Adds : (k : Bytes) → Always (Adds key) (get_by_key k)
  unfolding get_by_key
  get_by_key-Adds k = Always-query (key_order key) _ (Always-quiet _ (λ w. refl))

  get_account-Adds : (id : ℕ) → Always (Adds key) (get_account id)
  unfolding get_account
  get_account-Adds id = Always-query (key_order key) _ (Always-quiet _ (λ w. refl))

  check_account-Adds : (r : Result (Unit {0})) → Always (Adds key) (check_account r)
  unfolding check_account
  check_account-Adds (ok _) = Always-pure (key_order key) tt
  check_account-Adds (err e) = Always-raise (key_order key) (Unit {0}) (account_error e)

module _ (rfc3339 : ℕ → Bytes) (i : ReceiveInput) where
  module _ (o : IsPreorder (Adds i.idempotency_key)) where
    replay_or_persist-Adds :
        (r : Result IdempotencyRecord)
        → Always (Adds i.idempotency_key) (persist_new rfc3339 i)
        → Always (Adds i.idempotency_key) (replay_or_persist rfc3339 i r)
    unfolding replay_or_persist
    replay_or_persist-Adds (err _) h = h
    replay_or_persist-Adds (ok existing) h = Always-then o _ _ (Always-raise_if o _ _) (
        Always-bind o _ _ (get_by_key-Adds i.idempotency_key i.idempotency_key)
          (λ p. Always-pure o _))

    record_ingress-Adds :
        (p : Payment) (event_id : ℕ)
        → Always (Adds i.idempotency_key) (
            insert_event (ingress_event i event_id p)
            >> (clock >>= λ now. insert_record (snapshot i now p) >> pure (created p)))
    record_ingress-Adds p event_id = Always-then o _ _ (insert_event-Adds i.idempotency_key _) (
        Always-bind o _ _ (Always-clock o)
          (λ now. Always-then o _ _ (insert_record-Adds i.idempotency_key _) (Always-pure o _)))

    persist_new-Adds : Always (Adds i.idempotency_key) (persist_new rfc3339 i)
    unfolding persist_new draft_payment new
    persist_new-Adds = Always-bind o _ _ (Always-new_uuid o) (λ id.
        Always-bind o _ _ (Always-clock o) (λ now.
          Always-bind o _ _
            (insert-Adds i.idempotency_key (draft_payment i id (rfc3339 now)) refl refl)
            (λ p. Always-bind o _ _ (Always-new_uuid o) (record_ingress-Adds p))))

    execute-Always : Always (Adds i.idempotency_key) (execute rfc3339 i)
    unfolding execute
    execute-Always = Always-then o _ _ (Always-lift o _) (
        Always-then o _ _
          (Always-try o _ _ (get_account-Adds i.idempotency_key i.payer_account_id)
            (check_account-Adds i.idempotency_key))
          (Always-try o _ _ (get_record-Adds i.idempotency_key i.idempotency_key)
            (λ r. replay_or_persist-Adds r persist_new-Adds)))

  -- However the calls of `Execute` fail, in whatever world it starts where at most one payment has
  -- the key of the request, and whatever it answers: the payments after it are those before it and
  -- then new ones that are RECEIVED and have this key, and still at most one payment has the key.
  pub execute_adds_one :
      (w : World)
      → count_key i.idempotency_key w.payments ≤ 1
      → (added : List Payment) × ((execute rfc3339 i w).1.payments ≡ w.payments ++ added)
        × AllNew i.idempotency_key added
        × (count_key i.idempotency_key (execute rfc3339 i w).1.payments ≤ 1)
  unfolding Always
  execute_adds_one w h =
      let (added, a, n, c) = execute-Always (key_order i.idempotency_key) w in (added, a, n, c h)
