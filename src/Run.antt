-- ===== src/Run.antt =====
-- internal/domain/run/run.go: a PaymentRun, the daily batch of payments.
pub mod Lifecycle
mod Tests
use payments_hub.Base.{
  ℕ, Bool, true, false, ◌||◌, Option, none, some, List, [], ◌∷◌, ◌==◌, if◌then◌else◌,
}
use payments_hub.Base.Int.{ℤ, pos}
use payments_hub.Base.Bytes.{Bytes}
use payments_hub.Base.Result.{Result, ok, err, illegal_transition, ◌>>=◌, ◌>>◌}

pub data Status : Type 0 where
  open_run approved executing partially_settled closed failed : Status

abbrev number : Status → ℕ
number open_run = 0
number approved = 1
number executing = 2
number partially_settled = 3
number closed = 4
number failed = 5

-- `==` on statuses.
abbrev pub is : Status → Status → Bool
is s t = number s == number t

unfoldable pub is_terminal : Status → Bool
is_terminal s = is s closed || is s failed

pub data Channel : Type 0 where
  pix_rest cnab_ted : Channel

allowed : Status → Option (List Status)
allowed open_run = some (approved ∷ closed ∷ [])
allowed approved = some (executing ∷ failed ∷ [])
allowed executing = some (partially_settled ∷ closed ∷ failed ∷ [])
allowed partially_settled = some (closed ∷ failed ∷ [])
allowed _ = none

abbrev contains : Status → List Status → Bool
contains t [] = false
contains t (s ∷ ss) = is s t || contains t ss

unfoldable pub can_transition : Status → Status → Bool
unfolding allowed
can_transition from to = elim (allowed from) [ none ↦ false | some dests ↦ contains to dests ]

unfoldable pub transition : Status → Status → Result (Unit {0})
unfolding can_transition
transition from to = if can_transition from to then ok tt else err illegal_transition

-- The summary, a free JSON object that no code under internal/ writes, is left out.
pub record Run : Type 0 where
  pub id : ℕ
  pub run_date : ℕ
  pub status : Status
  pub approved_at : Option ℕ
  pub approved_by : Bytes
  pub total_items : ℕ
  pub total_amount : ℤ
  pub pix_count : ℕ
  pub ted_count : ℕ
  pub created_at : ℕ
  pub closed_at : Option ℕ

unfoldable pub new : ℕ → ℕ → Run
new id run_date = record {
  id = id;
  run_date = run_date;
  status = open_run;
  approved_at = none;
  approved_by = [];
  total_items = 0;
  total_amount = pos 0;
  pix_count = 0;
  ted_count = 0;
  created_at = 0;
  closed_at = none;
}

unfoldable pub apply_transition : Run → Status → Result Run
unfolding transition
apply_transition r to = do transition r.status to; ok (record r { status = to })
