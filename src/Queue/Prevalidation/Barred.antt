-- ===== src/Queue/Prevalidation/Barred.antt =====
-- What PrevalidatePaymentWorker makes of a payment to a blacklisted beneficiary (jobs.go), however
-- its statements end.
use payments_hub.Base.{
  ℕ, ◌≡◌, ◌⊎◌, inl, inr, refl, sym, ap, ◌∙◌, Bool-cases, true, false, Option, none, some, List, [],
  ◌∷◌, ◌++◌, ◌==◌,
}
use payments_hub.Base.Bytes.{Bytes, codes, same}
use payments_hub.Base.Result.{Result, ok, err, unavailable}
use payments_hub.Payment.{Payment}
use payments_hub.Payment.Lifecycle.{Status, received, validated_local, rejected, is}
use payments_hub.Store.{
  World, Fault, none_at_all, request_lost, reply_lost, PaymentEvent, query, pure, continue, ◌>>=◌,
  ◌>>◌,
}
use payments_hub.Store.Always.{
  IsPreorder, Always, Always-pure, Always-lift, Always-query, Always-bind, Always-try, Always-then,
  Always-clock, Always-new_uuid, Always-if,
}
use payments_hub.Store.Success.{read_world, look_ok}
use payments_hub.Store.Payments.{
  find_payment, replace_payment, restate, get, or_missing, is_some, update_status, update_row,
}
use payments_hub.Store.Evolve.{find_payment-id}
use payments_hub.Store.Events.{insert_event, with_id, event_row, event_row_lem}
use payments_hub.Banks.Pix.{PrevalidatePixResult}
use payments_hub.App.PreAnalysis.{
  Rulebook, BlacklistEntry, Verdict, verdict, beneficiary_doc, blacklisted, evaluate, evaluate_for,
  check_blacklist,
}
use payments_hub.Queue.Submission.{note}
use payments_hub.Queue.Prevalidation.{
  Prevalidate, accept_received, set_aside, by_key, act_on, analyse, follow_key, check_key,
  prevalidate,
}

abbrev status_in : Option Payment → Option Status
status_in none = none
status_in (some p) = some p.status

-- The status of the payment with an id, if it is stored.
abbrev pub status_at : ℕ → World → Option Status
status_at id w = status_in (find_payment id w.payments)

-- A payment's status stays, or becomes VALIDATED_LOCAL or REJECTED.
pub data Barred (id : ℕ) (v w : World) : Type 0 where
  unmoved : status_at id w ≡ status_at id v → Barred id v w
  validated : status_at id w ≡ some validated_local → Barred id v w
  turned_down : status_at id w ≡ some rejected → Barred id v w

-- An active entry of the blacklist that concerns the payment's client names its beneficiary.
abbrev pub IsListed : Rulebook → Payment → Type 0
IsListed rules p =
    (client : ℕ) × (e : BlacklistEntry) × (es : List BlacklistEntry) × (p.client_id ≡ some client)
    × (same (beneficiary_doc rules p) [] ≡ false)
    × (blacklisted (beneficiary_doc rules p) client rules.blacklist ≡ e ∷ es)

Barred-trans : (id : ℕ) (u v w : World) → Barred id u v → Barred id v w → Barred id u w
Barred-trans id u v w h (validated k) = validated k
Barred-trans id u v w h (turned_down k) = turned_down k
Barred-trans id u v w (unmoved h) (unmoved k) = unmoved (k ∙ h)
Barred-trans id u v w (validated h) (unmoved k) = validated (k ∙ h)
Barred-trans id u v w (turned_down h) (unmoved k) = turned_down (k ∙ h)

barring : (id : ℕ) → IsPreorder (Barred id)
barring id = record {
  refl_R = λ w. unmoved refl;
  trans_R = Barred-trans id;
  ids_R = λ w. unmoved refl;
  faults_R = λ w fs. unmoved refl;
}

Barred-same : (id : ℕ) (v w : World) → w.payments ≡ v.payments → Barred id v w
Barred-same id v w h = unmoved (ap (λ ps. status_in (find_payment id ps)) h)

status-replace :
    (id : ℕ) (to : Status) (why : Bytes) (now : ℕ) (ps : List Payment)
    → is_some (find_payment id ps) ≡ true
    → status_in (find_payment id (replace_payment id (restate to [] why now) ps)) ≡ some to
unfolding find_payment replace_payment
status-replace id to why now [] h = cc
status-replace id to why now (q ∷ ps) h = elim (Bool-cases (q.id == id)) [
  | inl e ↦ rw (e, e) refl
  | inr e ↦ rw (e, e) (status-replace id to why now ps (rw e at h))
]

module _ (id : ℕ) where
  row-Barred :
      (to : Status) (why : Bytes)
      → ((w w' : World) → status_at id w' ≡ some to → Barred id w w')
      → Always (Barred id) (update_row id to [] why)
  unfolding Always update_row
  row-Barred to why arrives w = elim (Bool-cases (is_some (find_payment id w.payments))) [
    | inl e ↦ rw (e) (arrives w _ (status-replace id to why w.now w.payments e))
    | inr e ↦ rw (e) (unmoved refl)
  ]

  update-Barred :
      (to : Status) (why : Bytes)
      → ((w w' : World) → status_at id w' ≡ some to → Barred id w w')
      → Always (Barred id) (update_status id to [] why)
  unfolding update_status
  update-Barred to why arrives = Always-query (barring id) _ (row-Barred to why arrives)

  event-Barred : (e : PaymentEvent) → Always (Barred id) (query (event_row e))
  unfolding Always
  event-Barred e =
      Always-query (barring id) (event_row e) (λ w. Barred-same id w _ (event_row_lem e w))

  note-Barred : (e : PaymentEvent) → Always (Barred id) (note e)
  unfolding note insert_event with_id
  note-Barred e =
      Always-try (barring id) _ _
        (Always-bind (barring id) _ _
          (Always-if (barring id) (e.id == 0) _ _
            (Always-bind (barring id) _ _ (Always-new_uuid (barring id))
              (λ j. Always-pure (barring id) _))
            (Always-pure (barring id) e))
          event-Barred)
        (λ r. Always-pure (barring id) tt)

  set_aside-Barred : (why reason : Bytes) → Always (Barred id) (set_aside id rejected why reason)
  unfolding set_aside
  set_aside-Barred why reason =
      Always-try (barring id) _ _ (update-Barred rejected why (λ w w'. turned_down))
        (λ r. note-Barred _)

accept-Barred : (p : Payment) → Always (Barred p.id) (accept_received p)
unfolding accept_received
accept-Barred p =
    Always-if (barring p.id) (is p.status received) _ _
      (Always-then (barring p.id) _ _ (update-Barred p.id validated_local [] (λ w w'. validated))
        (note-Barred p.id _))
      (Always-pure (barring p.id) tt)

module _ (rules : Rulebook) (p : Payment) (client : ℕ) (e : BlacklistEntry)
    (es : List BlacklistEntry) (owner : p.client_id ≡ some client)
    (document : same (beneficiary_doc rules p) [] ≡ false)
    (listed : blacklisted (beneficiary_doc rules p) client rules.blacklist ≡ e ∷ es) where
  abbrev rejection : Verdict
  rejection =
      verdict (codes "REJECT")
        (codes "beneficiary document "
          ++ beneficiary_doc rules p
          ++ codes " is blacklisted: "
          ++ e.reason)
        (codes "blacklist")

  -- The analysis refuses the payment, or its query fails.
  evaluate_listed :
      (w : World) (gs : List Fault)
      → ((fs : List Fault) × (evaluate rules p (record w { faults = gs })
            ≡ (ok rejection, record w { faults = fs })))
        ⊎ ((fs : List Fault) × (evaluate rules p (record w { faults = gs })
              ≡ (err unavailable, record w { faults = fs })))
  unfolding evaluate evaluate_for check_blacklist query pure ◌>>=◌ beneficiary_doc
  evaluate_listed w [] = inl ([], rw (owner, document, listed) refl)
  evaluate_listed w (none_at_all ∷ rest) = inl (rest, rw (owner, document, listed) refl)
  evaluate_listed w (request_lost ∷ rest) = inr (rest, rw (owner, document) refl)
  evaluate_listed w (reply_lost ∷ rest) = inr (rest, rw (owner, document) refl)

  analyse-Barred : Always (Barred p.id) (analyse (some rules) p)
  unfolding Always analyse act_on ◌>>=◌
  analyse-Barred w = elim (evaluate_listed w w.faults) [
    | inl (fs, h) ↦ rw (h) (
        Barred-trans p.id w (record w { faults = fs }) _ (unmoved refl)
          (set_aside-Barred p.id rejection.reason _ (record w { faults = fs })))
    | inr (fs, h) ↦ rw (h) (unmoved refl)
  ]

  follow_key-Barred :
      (r : PrevalidatePixResult) → Always (Barred p.id) (follow_key (some rules) p r)
  unfolding follow_key
  follow_key-Barred r =
      Always-if (barring p.id) (same r.verdict (codes "REJECT")) _ _ (set_aside-Barred p.id _ _)
        analyse-Barred

  worked-Barred :
      (gateway : Prevalidate)
      → Always (Barred p.id) (accept_received p >> check_key gateway (some rules) p)
  unfolding check_key
  worked-Barred gateway = Always-then (barring p.id) _ _ (accept-Barred p) (
      Always-if (barring p.id) (by_key p) _ _
        (Always-bind (barring p.id) _ _ (Always-clock (barring p.id))
          (λ now. Always-bind (barring p.id) _ _ (Always-lift (barring p.id) _) follow_key-Barred))
        analyse-Barred)

module _ (gateway : Prevalidate) (rules : Rulebook) where
  -- However the statements of a worker with a pre-analysis service end, whatever the bank says of
  -- the key, and whatever the status and the type of the payment: where the payment of a job is
  -- stored, the document of its beneficiary is not empty, and an active entry of the blacklist that
  -- concerns its client names this document, its status stays, or becomes VALIDATED_LOCAL or
  -- REJECTED; so the job never makes it PREVALIDATED or UNDER_REVIEW.
  pub prevalidate-blacklisted :
      (id : ℕ) (p : Payment) (w : World)
      → find_payment id w.payments ≡ some p
      → IsListed rules p
      → Barred id w (prevalidate gateway (some rules) id w).1
  unfolding prevalidate get ◌>>=◌ Always
  prevalidate-blacklisted id p w found listed =
      let (fs, e) = read_world (λ v. or_missing (find_payment id v.payments)) w in
      looked (query (λ v. (or_missing (find_payment id v.payments), v)) w).0 _ refl fs e
    where
      same_payment : (q : Payment) → or_missing (find_payment id w.payments) ≡ ok q → p ≡ q
      same_payment q h = cc (rw found at h)

      worked :
          (q : Payment) (v : World)
          → p ≡ q
          → Barred id v ((accept_received q >> check_key gateway (some rules) q) v).1
      worked q v h =
          let (client, entry, others, owner, document, named) = listed in
          rw (sym h, sym (find_payment-id id w.payments p found))
            (worked-Barred rules p client entry others owner document named gateway v)

      looked :
          (r : Result Payment) (v : World)
          → query (λ x. (or_missing (find_payment id x.payments), x)) w ≡ (r, v)
          → (fs : List Fault) → v ≡ record w { faults = fs }
          → Barred id w
              (continue r (λ q. accept_received q >> check_key gateway (some rules) q) v).1
      looked (err x) v d fs e = Barred-same id w v (ap (λ x. x.payments) e)
      looked (ok q) v d fs e =
          let (gs, f, g) = look_ok (λ x. or_missing (find_payment id x.payments)) w q v d in
          Barred-trans id w v _ (Barred-same id w v (ap (λ x. x.payments) e))
            (worked q v (same_payment q f))
