-- ===== src/Queue/Prevalidation.antt =====
-- PrevalidatePaymentWorker of internal/adapters/queue/jobs.go.
pub mod Barred
mod Tests
use payments_hub.Base.{ℕ, Bool, true, false, ◌&&◌, Option, none, some, [], ◌++◌, if◌then◌else◌}
use payments_hub.Base.Bytes.{Bytes, codes, same}
use payments_hub.Base.Result.{Result}
use payments_hub.Payment.{Payment, PaymentType, pix, PayeeMethod, pix_key, field}
use payments_hub.Payment.Lifecycle.{
  Status, received, validated_local, under_review, prevalidated, rejected, is,
}
use payments_hub.Store.{Db, pure, lift, try, clock, ◌>>=◌, ◌>>◌}
use payments_hub.Store.Payments.{get, update_status}
use payments_hub.Banks.Pix.{PrevalidatePixRequest, PrevalidatePixResult}
use payments_hub.App.PreAnalysis.{Rulebook, Verdict, evaluate}
use payments_hub.Queue.Submission.{note, system_event}

-- `PrevalidatePix` of the gateway, at a time.
abbrev pub Prevalidate : Type 0
Prevalidate = PrevalidatePixRequest → ℕ → Result PrevalidatePixResult

-- From RECEIVED to VALIDATED_LOCAL.
unfoldable pub accept_received : Payment → Db (Unit {0})
accept_received p =
    if is p.status received
    then (update_status p.id validated_local [] []
        >> note (system_event p.id received validated_local (codes "schema validated")))
    else pure tt

-- `_ = w.payments.UpdateStatus(…)`, with the note that follows it.
unfoldable pub set_aside : ℕ → Status → Bytes → Bytes → Db (Unit {0})
set_aside id to why reason =
    try (update_status id to [] why) λ _. note (system_event id validated_local to reason)

abbrev is_pix : PaymentType → Bool
is_pix pix = true
is_pix _ = false

abbrev is_pix_key : PayeeMethod → Bool
is_pix_key pix_key = true
is_pix_key _ = false

abbrev pub by_key : Payment → Bool
by_key p = is_pix p.type && is_pix_key p.payee_method

abbrev or_empty : Option Bytes → Bytes
or_empty none = []
or_empty (some s) = s

abbrev pub key_request : Payment → PrevalidatePixRequest
key_request p = record {
  key_type = or_empty (field (codes "key_type") p.payee);
  key_value = or_empty (field (codes "key_value") p.payee);
}

unfoldable pub finish : ℕ → Db (Unit {0})
finish id =
    update_status id prevalidated [] []
    >> note (system_event id validated_local prevalidated (codes "prevalidation + preanalysis ok"))

-- The switch on the action.
unfoldable pub act_on : ℕ → Verdict → Db (Unit {0})
act_on id v =
    if same v.action (codes "REJECT")
    then set_aside id rejected v.reason
        (codes "preanalysis rejected [" ++ v.rule ++ codes "]: " ++ v.reason)
    else if same v.action (codes "REVIEW")
    then set_aside id under_review v.reason
        (codes "preanalysis flagged [" ++ v.rule ++ codes "]: " ++ v.reason)
    else finish id

unfoldable pub analyse : Option Rulebook → Payment → Db (Unit {0})
analyse none p = finish p.id
analyse (some rules) p = evaluate rules p >>= act_on p.id

unfoldable pub follow_key : Option Rulebook → Payment → PrevalidatePixResult → Db (Unit {0})
follow_key rules p r =
    if same r.verdict (codes "REJECT")
    then set_aside p.id rejected r.reason (codes "prevalidation rejected: " ++ r.reason)
    else analyse rules p

unfoldable pub check_key : Prevalidate → Option Rulebook → Payment → Db (Unit {0})
check_key gateway rules p =
    if by_key p
    then (clock >>= λ now. lift (gateway (key_request p) now) >>= follow_key rules p)
    else analyse rules p

-- `Work`
unfoldable pub prevalidate : Prevalidate → Option Rulebook → ℕ → Db (Unit {0})
prevalidate gateway rules id = do p ← get id; accept_received p; check_key gateway rules p
