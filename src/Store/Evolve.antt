-- ===== src/Store/Evolve.antt =====
-- What may become of the payments that are stored, while the services run: what they order stays,
-- and their status moves along the table of transitions.
use payments_hub.Base.{
  ℕ, ◌≡◌, refl, ◌∙◌, Bool, true, false, some, List, [], ◌∷◌, ◌==◌, Bool-cases, arith, inl, inr,
}
use payments_hub.Base.Bytes.{Bytes}
use payments_hub.Payment.{Payment}
use payments_hub.Payment.Lifecycle.{
  Status, received, validated_local, under_review, prevalidated, on_hold, can_transition,
}
use payments_hub.Store.Tables.{World}
use payments_hub.Store.Always.{IsPreorder}
use payments_hub.Store.Payments.{find_payment, replace_payment, update_row, restate}

-- The statuses of a payment that waits for its approval, or is on hold.
abbrev pub is_pending : Status → Bool
is_pending received = true
is_pending validated_local = true
is_pending under_review = true
is_pending prevalidated = true
is_pending on_hold = true
is_pending _ = false

-- A chain of transitions of the table, with steps of a pending payment back to PREVALIDATED.
pub data Reaches : Status → Status → Type 0 where
  stay : (s : Status) → Reaches s s
  go_on : (s t u : Status) → can_transition s t ≡ true → Reaches t u → Reaches s u
  go_back : (s u : Status) → is_pending s ≡ true → Reaches prevalidated u → Reaches s u

pub Reaches-trans : (s t u : Status) → Reaches s t → Reaches t u → Reaches s u
Reaches-trans s t u (stay _) k = k
Reaches-trans s t u (go_back _ _ pending rest) k =
    go_back s u pending (Reaches-trans prevalidated t u rest k)
Reaches-trans s t u (go_on _ v _ legal rest) k = go_on s v u legal (Reaches-trans v t u rest k)

pub Reaches-one : (s t : Status) → can_transition s t ≡ true → Reaches s t
Reaches-one s t h = go_on s t t h (stay t)

-- The same order to pay, later in its life.
abbrev pub Later : Payment → Payment → Type 0
Later p q =
    (q.id ≡ p.id)
    × (q.amount ≡ p.amount)
    × (q.idempotency_key ≡ p.idempotency_key)
    × Reaches p.status q.status

abbrev pub AllLater : List Payment → List Payment → Type 0
AllLater [] [] = Unit {0}
AllLater [] (q ∷ qs) = ⊥
AllLater (p ∷ ps) [] = ⊥
AllLater (p ∷ ps) (q ∷ qs) = Later p q × AllLater ps qs

-- No payment is added or lost, and each is the same order, later in its life.
abbrev pub Evolves : World → World → Type 0
Evolves w w' = AllLater w.payments w'.payments

Later-refl : (p : Payment) → Later p p
Later-refl p = (refl, refl, refl, stay p.status)

Later-trans : (p q r : Payment) → Later p q → Later q r → Later p r
Later-trans p q r (a, b, c, d) (a', b', c', d') =
    (a' ∙ a, b' ∙ b, c' ∙ c, Reaches-trans p.status q.status r.status d d')

pub AllLater-refl : (ps : List Payment) → AllLater ps ps
AllLater-refl [] = tt
AllLater-refl (p ∷ ps) = (Later-refl p, AllLater-refl ps)

AllLater-trans : (ps qs rs : List Payment) → AllLater ps qs → AllLater qs rs → AllLater ps rs
AllLater-trans [] [] rs h k = k
AllLater-trans [] (q ∷ qs) rs h k = elim h [ ]
AllLater-trans (p ∷ ps) [] rs h k = elim h [ ]
AllLater-trans (p ∷ ps) (q ∷ qs) [] h k = elim k [ ]
AllLater-trans (p ∷ ps) (q ∷ qs) (r ∷ rs) (h, hs) (k, ks) =
    (Later-trans p q r h k, AllLater-trans ps qs rs hs ks)

pub evolution : IsPreorder Evolves
evolution = record {
  refl_R = λ w. AllLater-refl w.payments;
  trans_R = λ u v w h k. AllLater-trans u.payments v.payments w.payments h k;
  ids_R = λ w. AllLater-refl w.payments;
  faults_R = λ w fs. AllLater-refl w.payments;
}

pub Evolves-same : (w w' : World) → w'.payments ≡ w.payments → Evolves w w'
Evolves-same w w' h = rw h (AllLater-refl w.payments)

-- A row that is found has the id asked for.
pub find_payment-id :
    (id : ℕ) (ps : List Payment) (p : Payment) → find_payment id ps ≡ some p → p.id ≡ id
unfolding find_payment
find_payment-id id [] p h = ground arith
find_payment-id id (q ∷ ps) p h = let ih = find_payment-id id ps p in ground arith

restate-Later :
    (p : Payment) (to : Status) (bank_ref reject_reason : Bytes) (now : ℕ)
    → can_transition p.status to ≡ true
    → Later p (restate to bank_ref reject_reason now p)
restate-Later p to b r now h = (refl, refl, refl, Reaches-one p.status to h)

some_inj : (q p : Payment) → some q ≡ some p → q ≡ p
some_inj q p h = cc

pub replace-AllLater :
    (id : ℕ) (f : Payment → Payment) (ps : List Payment) (p : Payment)
    → find_payment id ps ≡ some p
    → Later p (f p)
    → AllLater ps (replace_payment id f ps)
unfolding replace_payment find_payment
replace-AllLater id f [] p h k = tt
replace-AllLater id f (q ∷ ps) p h k = elim (Bool-cases (q.id == id)) [
  | inl hit ↦ let e : q ≡ p = some_inj q p (rw hit at h) in rw hit (rw e k, AllLater-refl ps)
  | inr miss ↦
      let found : find_payment id ps ≡ some p = rw miss at h in
      rw miss (Later-refl q, replace-AllLater id f ps p found k)
]

pub update_row-Evolves :
    (p : Payment) (to : Status) (bank_ref reject_reason : Bytes) (w : World)
    → find_payment p.id w.payments ≡ some p
    → can_transition p.status to ≡ true
    → Evolves w (update_row p.id to bank_ref reject_reason w).1
unfolding update_row
update_row-Evolves p to b r w found legal = rw found (
    replace-AllLater p.id (restate to b r w.now) w.payments p found
      (restate-Later p to b r w.now legal))
