-- ===== src/CnabFile.antt =====
-- internal/domain/cnab/file.go: the life of a CNAB 240 file.
pub mod Lifecycle
mod Tests
use payments_hub.Base.{
  ℕ, Bool, true, false, ◌||◌, Option, none, some, List, [], ◌∷◌, ◌==◌, if◌then◌else◌,
}
use payments_hub.Base.Bytes.{Bytes}
use payments_hub.Base.Result.{Result, ok, err, illegal_transition, ◌>>=◌, ◌>>◌}

pub data Status : Type 0 where
  draft generated uploaded awaiting_return returned closed failed : Status

abbrev number : Status → ℕ
number draft = 0
number generated = 1
number uploaded = 2
number awaiting_return = 3
number returned = 4
number closed = 5
number failed = 6

-- `==` on statuses.
abbrev pub is : Status → Status → Bool
is s t = number s == number t

unfoldable pub is_terminal : Status → Bool
is_terminal s = is s closed || is s failed

pub data Direction : Type 0 where
  remessa retorno : Direction

allowed : Status → Option (List Status)
allowed draft = some (generated ∷ failed ∷ [])
allowed generated = some (uploaded ∷ failed ∷ [])
allowed uploaded = some (awaiting_return ∷ failed ∷ [])
allowed awaiting_return = some (returned ∷ failed ∷ [])
allowed returned = some (closed ∷ failed ∷ [])
allowed _ = none

abbrev contains : Status → List Status → Bool
contains t [] = false
contains t (s ∷ ss) = is s t || contains t ss

unfoldable pub can_transition : Status → Status → Bool
unfolding allowed
can_transition from to = elim (allowed from) [ none ↦ false | some dests ↦ contains to dests ]

unfoldable pub transition : Status → Status → Result (Unit {0})
unfolding can_transition
transition from to = if can_transition from to then ok tt else err illegal_transition

pub record File : Type 0 where
  pub id : ℕ
  pub run_id : ℕ
  pub bank_code : Bytes
  pub layout_version : Bytes
  pub sequence_number : ℕ
  pub direction : Direction
  pub file_path : Bytes
  pub file_hash : Bytes
  pub status : Status
  pub total_items : ℕ
  pub generated_at : Option ℕ
  pub uploaded_at : Option ℕ
  pub upload_ack : Bytes
  pub returned_at : Option ℕ
  pub processed_at : Option ℕ

unfoldable pub apply_transition : File → Status → Result File
unfolding transition
apply_transition f to = do transition f.status to; ok (record f { status = to })
