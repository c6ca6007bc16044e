-- ===== src/Payment/Tests.antt =====
-- The theorems on payments at concrete histories.
use payments_hub.Base.{◌+◌, ◌≤◌, ◌≡◌, refl, true, List, [], ◌∷◌, length}
use payments_hub.Base.Int.{pos}
use payments_hub.Base.Bytes.{codes}
use payments_hub.Base.Result.{ok}
use payments_hub.Payment.{Payment, pix, pix_key, text, new}
use payments_hub.Payment.Lifecycle.{
  Status, validated_local, prevalidated, approved, submitting, sent, settled, failed, is_terminal,
  contains,
}
use payments_hub.Payment.Histories.{
  apply_all, count, is_released, released_needs_approval, sent-le-failed, terminal_reachable,
}
use payments_hub.Payment.{apply_transition}
use payments_hub.Payment.Lifecycle.{transition}

abbrev order : Payment
order =
    new 7 (codes "EXT-1") pix (pos 1500) 1 pix_key ((codes "key_value", text (codes "a@b.c")) ∷ [])
      (codes "idem-1")

-- A transfer that fails once, is retried by an operator, and settles.
abbrev retried : List Status
retried =
    validated_local ∷ prevalidated ∷ approved ∷ submitting ∷ sent ∷ failed ∷ submitting ∷ sent
    ∷ settled ∷ []

abbrev settled_order : Payment
settled_order = record order { status = settled }

retried_settles : apply_all order retried ≡ ok settled_order
unfolding apply_all apply_transition new transition
retried_settles = refl

released_needs_approval_example : contains approved retried ≡ true
unfolding new is_released
released_needs_approval_example =
    released_needs_approval order retried settled_order refl retried_settles refl

sent-le-failed_example : count sent retried ≤ 1 + count failed retried
sent-le-failed_example = sent-le-failed order retried settled_order retried_settles

terminal_reachable_example :
    (ts : List Status) × (q : Payment) × (apply_all order ts ≡ ok q)
    × (is_terminal q.status ≡ true)
    × (length ts ≤ 3)
terminal_reachable_example = terminal_reachable order
