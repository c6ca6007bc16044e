-- ===== src/Payment/Histories.antt =====
-- What a payment's history of transitions shows, from `New` on (payment.go, status.go).
use payments_hub.Base.{
  ℕ, suc, ◌+◌, ◌≤◌, ◌≡◌, ◌⊎◌, inl, inr, Bool, true, false, List, [], ◌∷◌, arith, length, Bool-cases,
  if◌then◌else◌,
}
use payments_hub.Base.Result.{Result, ok, ◌>>=◌}
use payments_hub.Payment.{Payment, apply_transition}
use payments_hub.Payment.Lifecycle.{
  Status, received, validated_local, under_review, prevalidated, approved, on_hold, submitting,
  sent, settled, failed, rejected, canceled, expired, is, is_terminal, can_transition, transition,
  contains,
}

-- `ApplyTransition` called for one target after another, up to the first refusal.
unfoldable pub apply_all : Payment → List Status → Result Payment
apply_all p [] = ok p
apply_all p (t ∷ ts) = apply_transition p t >>= λ q. apply_all q ts

pub count : Status → List Status → ℕ
count s [] = 0
count s (t ∷ ts) = if is s t then suc (count s ts) else count s ts

-- The statuses from which money may already have left.
unfoldable pub is_released : Status → Bool
is_released submitting = true
is_released sent = true
is_released settled = true
is_released failed = true
is_released _ = false

-- The statuses that only a payment that was approved once can have.
past_approval : Status → Bool
past_approval approved = true
past_approval on_hold = true
past_approval s = is_released s

-- One call of `ApplyTransition`: the table allowed it, and the status is the target.
pub apply_transition_ok :
    (p : Payment) (t : Status) (q : Payment)
    → apply_transition p t ≡ ok q
    → (can_transition p.status t ≡ true) × (q ≡ record p { status = t })
unfolding apply_transition transition
apply_transition_ok p t q h = ground arith

step_past :
    (s t : Status)
    → can_transition s t ≡ true
    → past_approval s ≡ false
    → (is approved t ≡ true) ⊎ (past_approval t ≡ false)
unfolding can_transition past_approval is_released
step_past s t h k = ground arith

past_of_released : (s : Status) → is_released s ≡ true → past_approval s ≡ true
unfolding past_approval is_released
past_of_released s h = ground arith

-- The first call of a successful series, and the calls after it.
apply_all-cons :
    (p : Payment) (t : Status) (ts : List Status) (q : Payment)
    → apply_all p (t ∷ ts) ≡ ok q
    → (can_transition p.status t ≡ true) × (apply_all (record p { status = t }) ts ≡ ok q)
unfolding apply_all apply_transition transition
apply_all-cons p t ts q h = elim (Bool-cases (can_transition p.status t)) [
  | inl legal ↦ (legal, rw legal at h)
  | inr refused ↦ cc (rw refused at h)
]

past_needs_approval :
    (p : Payment) (ts : List Status) (q : Payment)
    → apply_all p ts ≡ ok q
    → past_approval p.status ≡ false
    → past_approval q.status ≡ true
    → contains approved ts ≡ true
unfolding apply_all
past_needs_approval p [] q h k l = ground arith
past_needs_approval p (t ∷ ts) q h k l =
    let (legal, rest) = apply_all-cons p t ts q h in
    elim (step_past p.status t legal k) [
      | inl found ↦ ground arith
      | inr before ↦
          ground (arith, past_needs_approval (record p { status = t }) ts q rest before l)
    ]

-- The table of transitions has no way from RECEIVED to SUBMITTING, SENT, SETTLED or FAILED that
-- leaves out APPROVED: a series of calls of ApplyTransition that all succeed and lead from the one
-- to one of the others has APPROVED among its targets. Statuses that are written without
-- ApplyTransition and its table, as some are by the workers, are not meant.
pub released_needs_approval :
    (p : Payment) (ts : List Status) (q : Payment)
    → p.status ≡ received
    → apply_all p ts ≡ ok q
    → is_released q.status ≡ true
    → contains approved ts ≡ true
unfolding past_approval is_released
released_needs_approval p ts q start h l =
    past_needs_approval p ts q h (rw start) (past_of_released q.status l)

-- How often a payment may still be sent before it fails again.
budget : Status → ℕ
budget sent = 0
budget settled = 0
budget _ = 1

budget-step :
    (s t : Status)
    → can_transition s t ≡ true
    → count sent (t ∷ []) + budget t ≤ budget s + count failed (t ∷ [])
unfolding can_transition count budget
budget-step s t h = ground arith

count-cons : (s t : Status) (ts : List Status) → count s (t ∷ ts) ≡ count s (t ∷ []) + count s ts
unfolding count
count-cons s t ts = ground arith

count-sent-le :
    (p : Payment) (ts : List Status) (q : Payment)
    → apply_all p ts ≡ ok q
    → count sent ts ≤ budget p.status + count failed ts
unfolding count
count-sent-le p [] q h = omega arith
count-sent-le p (t ∷ ts) q h =
    let (legal, rest) = apply_all-cons p t ts q h in
    omega (
      arith,
      budget-step p.status t legal,
      count-cons sent t ts,
      count-cons failed t ts,
      count-sent-le (record p { status = t }) ts q rest,
    )

-- Along the table of transitions SENT follows SENT only with a FAILED in between: a series of calls
-- of ApplyTransition that all succeed has SENT among its targets at most once more often than
-- FAILED. Statuses that are written without ApplyTransition and its table, as some are by the
-- workers, are not meant.
pub sent-le-failed :
    (p : Payment) (ts : List Status) (q : Payment)
    → apply_all p ts ≡ ok q
    → count sent ts ≤ 1 + count failed ts
unfolding budget
sent-le-failed p ts q h = ground (arith, count-sent-le p ts q h)

-- A way to a terminal status from each status.
way : Status → List Status
way received = canceled ∷ []
way validated_local = canceled ∷ []
way under_review = canceled ∷ []
way prevalidated = canceled ∷ []
way approved = canceled ∷ []
way on_hold = canceled ∷ []
way submitting = sent ∷ settled ∷ []
way sent = settled ∷ []
way failed = submitting ∷ sent ∷ settled ∷ []
way s = []

goal : Status → Status
goal submitting = settled
goal sent = settled
goal failed = settled
goal settled = settled
goal rejected = rejected
goal expired = expired
goal _ = canceled

way_lem : (p : Payment) → apply_all p (way p.status) ≡ ok (record p { status = goal p.status })
unfolding way goal apply_all apply_transition transition can_transition
way_lem p = ground arith

goal-terminal : (s : Status) → is_terminal (goal s) ≡ true
unfolding goal is_terminal
goal-terminal s = ground arith

length-way : (s : Status) → length (way s) ≤ 3
unfolding way
length-way s = ground arith

-- From every status at most three accepted transitions lead to a terminal one.
pub terminal_reachable :
    (p : Payment)
    → (ts : List Status) × (q : Payment) × (apply_all p ts ≡ ok q)
      × (is_terminal q.status ≡ true)
      × (length ts ≤ 3)
terminal_reachable p = (
  way p.status,
  record p { status = goal p.status },
  way_lem p,
  goal-terminal p.status,
  length-way p.status,
)
