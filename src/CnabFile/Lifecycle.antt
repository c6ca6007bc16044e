-- ===== src/CnabFile/Lifecycle.antt =====
-- The life of a CNAB file: one way forward, and FAILED from everywhere on it (file.go).
use payments_hub.Base.{◌≡◌, refl, ◌⊎◌, inl, inr, true, false, List, [], ◌∷◌, arith, Bool-cases}
use payments_hub.Base.Result.{Result, ok, ◌>>=◌}
use payments_hub.CnabFile.{
  Status, draft, generated, uploaded, awaiting_return, returned, closed, failed, is_terminal,
  can_transition, transition, File, apply_transition,
}

-- `ApplyTransition` called for one target after another, up to the first refusal.
unfoldable pub apply_all : File → List Status → Result File
apply_all f [] = ok f
apply_all f (t ∷ ts) = apply_transition f t >>= λ g. apply_all g ts

apply_all-cons :
    (f : File) (t : Status) (ts : List Status) (g : File)
    → apply_all f (t ∷ ts) ≡ ok g
    → (can_transition f.status t ≡ true) × (apply_all (record f { status = t }) ts ≡ ok g)
unfolding apply_all apply_transition transition
apply_all-cons f t ts g h = elim (Bool-cases (can_transition f.status t)) [
  | inl legal ↦ (legal, rw legal at h)
  | inr refused ↦ cc (rw refused at h)
]

-- The transitions from a status to CLOSED.
unfoldable pub remaining : Status → List Status
remaining draft = generated ∷ uploaded ∷ awaiting_return ∷ returned ∷ closed ∷ []
remaining generated = uploaded ∷ awaiting_return ∷ returned ∷ closed ∷ []
remaining uploaded = awaiting_return ∷ returned ∷ closed ∷ []
remaining awaiting_return = returned ∷ closed ∷ []
remaining returned = closed ∷ []
remaining _ = []

step_remaining :
    (s t : Status) → can_transition s t ≡ true → (t ≡ failed) ⊎ (remaining s ≡ t ∷ remaining t)
unfolding can_transition remaining
step_remaining s t h = ground arith

stuck : (s t : Status) → is_terminal s ≡ true → can_transition s t ≡ false
unfolding is_terminal can_transition
stuck s t h = ground arith

from_failed :
    (f : File) (ts : List Status) (g : File)
    → apply_all f ts ≡ ok g
    → f.status ≡ failed
    → g.status ≡ failed
unfolding apply_all
from_failed f [] g h c = ground arith
from_failed f (t ∷ ts) g h c =
    let (legal, rest) = apply_all-cons f t ts g h in
    cc (stuck failed t (unfold is_terminal in refl), rw c at legal)

-- A file that reaches CLOSED has made exactly the transitions that were left of DRAFT, GENERATED,
-- UPLOADED, AWAITING_RETURN, RETURNED, CLOSED, in this order and none twice.
pub closed_history :
    (f : File) (ts : List Status) (g : File)
    → apply_all f ts ≡ ok g
    → g.status ≡ closed
    → ts ≡ remaining f.status
unfolding apply_all remaining
closed_history f [] g h c = ground arith
closed_history f (t ∷ ts) g h c =
    let (legal, rest) = apply_all-cons f t ts g h in
    elim (step_remaining f.status t legal) [
      | inl broken ↦ ground (arith, from_failed (record f { status = t }) ts g rest broken)
      | inr forward ↦ cc (forward, closed_history (record f { status = t }) ts g rest c)
    ]
