-- ===== src/Payment/Lifecycle.antt =====
-- internal/domain/payment/status.go: the life of a payment. A status is one of the declared
-- constants; the column's CHECK constraint admits no other text.
pub mod Laws
use payments_hub.Base.{
  ℕ, Bool, true, false, ◌||◌, Option, none, some, List, [], ◌∷◌, ◌==◌, if◌then◌else◌,
}
use payments_hub.Base.Result.{Result, ok, err, illegal_transition}

pub data Status : Type 0 where
  received validated_local under_review prevalidated approved on_hold submitting : Status
  sent settled failed rejected canceled expired : Status

-- The place of a status among the constants, by which two of them are compared.
abbrev number : Status → ℕ
number received = 0
number validated_local = 1
number under_review = 2
number prevalidated = 3
number approved = 4
number on_hold = 5
number submitting = 6
number sent = 7
number settled = 8
number failed = 9
number rejected = 10
number canceled = 11
number expired = 12

-- `==` on statuses.
abbrev pub is : Status → Status → Bool
is s t = number s == number t

pub all_statuses : List Status
all_statuses =
    received ∷ validated_local ∷ under_review ∷ prevalidated ∷ approved ∷ on_hold ∷ submitting
    ∷ sent ∷ settled ∷ failed ∷ rejected ∷ canceled ∷ expired ∷ []

unfoldable pub is_terminal : Status → Bool
is_terminal settled = true
is_terminal rejected = true
is_terminal canceled = true
is_terminal expired = true
is_terminal _ = false

-- The table of legal destinations; `none` where the map has no key.
allowed : Status → Option (List Status)
allowed received = some (validated_local ∷ rejected ∷ canceled ∷ [])
allowed validated_local = some (under_review ∷ prevalidated ∷ rejected ∷ canceled ∷ [])
allowed under_review = some (validated_local ∷ rejected ∷ canceled ∷ [])
allowed prevalidated = some (approved ∷ rejected ∷ canceled ∷ expired ∷ [])
allowed approved = some (submitting ∷ on_hold ∷ canceled ∷ expired ∷ [])
allowed on_hold = some (approved ∷ canceled ∷ [])
allowed submitting = some (submitting ∷ sent ∷ failed ∷ [])
allowed sent = some (settled ∷ failed ∷ [])
allowed failed = some (submitting ∷ [])
allowed _ = none

-- `_, ok := dests[to]`
abbrev pub contains : Status → List Status → Bool
contains t [] = false
contains t (s ∷ ss) = is s t || contains t ss

unfoldable pub can_transition : Status → Status → Bool
unfolding allowed
can_transition from to = elim (allowed from) [ none ↦ false | some dests ↦ contains to dests ]

unfoldable pub transition : Status → Status → Result (Unit {0})
unfolding can_transition
transition from to = if can_transition from to then ok tt else err illegal_transition
