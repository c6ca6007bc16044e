-- ===== src/Payment/Lifecycle/Laws.antt =====
-- Terminal statuses of a payment, and the way to one from everywhere.
use payments_hub.Base.{◌≡◌, ◌↔◌, inl, inr, true, false, arith, Bool-cases}
use payments_hub.Payment.Lifecycle.{
  Status, received, validated_local, under_review, prevalidated, approved, on_hold, submitting,
  sent, settled, failed, canceled, is, is_terminal, can_transition,
}

pub eq_of_is : (s t : Status) → is s t ≡ true → s ≡ t
eq_of_is s t h = ground arith

-- A way to leave each status that is not terminal.
exit : Status → Status
exit received = canceled
exit validated_local = canceled
exit under_review = canceled
exit prevalidated = canceled
exit approved = canceled
exit on_hold = canceled
exit submitting = sent
exit sent = settled
exit failed = submitting
exit s = s

exit_lem : (s : Status) → is_terminal s ≡ false → can_transition s (exit s) ≡ true
unfolding exit is_terminal can_transition
exit_lem s h = ground arith

stuck : (s t : Status) → is_terminal s ≡ true → can_transition s t ≡ false
unfolding is_terminal can_transition
stuck s t h = ground arith

-- A status is terminal exactly when the table has no transition out of it.
terminal_iff : (s : Status) → (is_terminal s ≡ true) ↔ ((t : Status) → can_transition s t ≡ false)
terminal_iff s = (
  λ h t. stuck s t h,
  λ h. elim (Bool-cases (is_terminal s)) [
    | inl yes_terminal ↦ yes_terminal
    | inr not_terminal ↦ cc (exit_lem s not_terminal, h (exit s))
  ],
)

-- Legal transitions, one after another.
pub data ◌⟶*◌ : Status → Status → Type 0 where
  here : {s : Status} → s ⟶* s
  next : {s t u : Status} → can_transition s t ≡ true → t ⟶* u → s ⟶* u

infix 40 ◌⟶*◌
