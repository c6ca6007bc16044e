-- ===== src/Run/Lifecycle.antt =====
-- The life of a run: it only moves forward, and it cannot execute before it is approved (run.go).
use payments_hub.Base.{
  ℕ, ◌+◌, ◌≤◌, ◌≡◌, refl, ◌↔◌, ◌⊎◌, inl, inr, Bool, true, false, List, [], ◌∷◌, arith, length,
  Bool-cases,
}
use payments_hub.Base.Result.{Result, ok, ◌>>=◌}
use payments_hub.Run.{
  Status, open_run, approved, executing, partially_settled, closed, failed, is_terminal,
  can_transition, transition, Run, apply_transition,
}

-- `ApplyTransition` called for one target after another, up to the first refusal.
unfoldable pub apply_all : Run → List Status → Result Run
apply_all r [] = ok r
apply_all r (t ∷ ts) = apply_transition r t >>= λ q. apply_all q ts

-- The transitions that are left at most.
rank : Status → ℕ
rank open_run = 4
rank approved = 3
rank executing = 2
rank partially_settled = 1
rank closed = 0
rank failed = 0

rank-step : (s t : Status) → can_transition s t ≡ true → rank t + 1 ≤ rank s
unfolding rank can_transition
rank-step s t h = ground arith

rank-le : (s : Status) → rank s ≤ 4
unfolding rank
rank-le s = ground arith

apply_all-cons :
    (r : Run) (t : Status) (ts : List Status) (q : Run)
    → apply_all r (t ∷ ts) ≡ ok q
    → (can_transition r.status t ≡ true) × (apply_all (record r { status = t }) ts ≡ ok q)
unfolding apply_all apply_transition transition
apply_all-cons r t ts q h = elim (Bool-cases (can_transition r.status t)) [
  | inl legal ↦ (legal, rw legal at h)
  | inr refused ↦ cc (rw refused at h)
]

length-le-rank :
    (r : Run) (ts : List Status) (q : Run)
    → apply_all r ts ≡ ok q
    → length ts + rank q.status ≤ rank r.status
unfolding apply_all
length-le-rank r [] q h = ground arith
length-le-rank r (t ∷ ts) q h =
    let (legal, rest) = apply_all-cons r t ts q h in
    omega (arith, rank-step r.status t legal, length-le-rank (record r { status = t }) ts q rest)

-- No run makes more than four transitions.
pub transitions_bounded :
    (r : Run) (ts : List Status) (q : Run) → apply_all r ts ≡ ok q → length ts ≤ 4
transitions_bounded r ts q h = omega (arith, length-le-rank r ts q h, rank-le r.status)

-- A way to leave each status that is not terminal.
exit : Status → Status
exit open_run = closed
exit approved = failed
exit executing = closed
exit partially_settled = closed
exit s = s

exit_lem : (s : Status) → is_terminal s ≡ false → can_transition s (exit s) ≡ true
unfolding exit is_terminal can_transition
exit_lem s h = ground arith

stuck : (s t : Status) → is_terminal s ≡ true → can_transition s t ≡ false
unfolding is_terminal can_transition
stuck s t h = ground arith

-- A run's status is terminal exactly when the table has no transition out of it.
run_terminal_iff :
    (s : Status) → (is_terminal s ≡ true) ↔ ((t : Status) → can_transition s t ≡ false)
run_terminal_iff s = (
  λ h t. stuck s t h,
  λ h. elim (Bool-cases (is_terminal s)) [
    | inl at_end ↦ at_end
    | inr before_end ↦ cc (exit_lem s before_end, h (exit s))
  ],
)

-- The statuses of a run whose payments may have been handed to a bank.
unfoldable pub is_started : Status → Bool
is_started executing = true
is_started partially_settled = true
is_started failed = true
is_started _ = false

first_step : (t : Status) → can_transition open_run t ≡ true → (t ≡ approved) ⊎ (t ≡ closed)
unfolding can_transition
first_step t h = ground arith

from_closed :
    (r : Run) (ts : List Status) (q : Run)
    → apply_all r ts ≡ ok q
    → r.status ≡ closed
    → q.status ≡ closed
unfolding apply_all
from_closed r [] q h c = ground arith
from_closed r (t ∷ ts) q h c =
    let (legal, rest) = apply_all-cons r t ts q h in
    cc (stuck closed t (unfold is_terminal in refl), rw c at legal)

-- A run that begins OPEN and reaches EXECUTING, PARTIALLY_SETTLED or FAILED was approved first:
-- APPROVED is its first transition.
pub started_needs_approval :
    (r : Run) (ts : List Status) (q : Run)
    → r.status ≡ open_run
    → apply_all r ts ≡ ok q
    → is_started q.status ≡ true
    → (rest : List Status) × (ts ≡ approved ∷ rest)
unfolding apply_all is_started
started_needs_approval r [] q start h l = ground arith
started_needs_approval r (t ∷ ts) q start h l =
    let (legal, rest) = apply_all-cons r t ts q h in
    elim (first_step t (rw start at legal)) [
      | inl first ↦ (ts, cc first)
      | inr other ↦ ground (arith, from_closed (record r { status = t }) ts q rest other)
    ]
