-- ===== src/Payment/Rules.antt =====
-- internal/domain/payment/rules.go: the rules on one payment and on a batch. The zone of the
-- service keeps its distance from UTC, so that a day has 86400 seconds.
pub mod Documents
pub mod Keys
pub mod Batch
mod Tests
use payments_hub.Base.{
  ℕ, ◌-◌, ◌/◌, ◌%◌, Bool, true, false, ◌&&◌, ◌||◌, not, Option, none, some, List, [], ◌∷◌, ◌==◌,
  ltb, leb, length, if◌then◌else◌,
}
use Prim.Native.String.{String}
use payments_hub.Base.Int.{ℤ, pos, ltb_ℤ, leb_ℤ, add64}
use payments_hub.Base.Bytes.{Bytes, codes, same}
use payments_hub.Base.Result.{Result, ok, err, validation, policy, fail_if, ◌>>◌, ◌>>=◌}
use payments_hub.Payment.{
  Payment, PaymentType, pix, ted, other_type, PayeeMethod, pix_key, bank_account, other_method,
  Fields, field,
}
use payments_hub.Payment.Rules.Documents.{digits_only, validate_document_number}
use payments_hub.Payment.Rules.Keys.{validate_pix_key}

-- `Limits`; what is not positive sets no limit.
pub record Limits : Type 0 where
  pub max_single_cents : ℤ
  pub min_single_cents : ℤ
  pub daily_limit_cents : ℤ
  pub batch_limit_cents : ℤ
  pub batch_max_items : ℤ
  pub pix_daily_cap : ℤ
  pub ted_hourly_cutoff : ℤ
  pub min_future_days : ℤ
  pub max_future_days : ℤ

abbrev or_empty : Option Bytes → Bytes
or_empty none = []
or_empty (some s) = s

-- `s, _ := m[key].(string)`
abbrev pub text_of : String → Fields → Bytes
text_of key m = or_empty (field (codes key) m)

-- An error of another package, wrapped as `ErrValidation`.
abbrev as_validation : Result (Unit {0}) → Result (Unit {0})
as_validation (ok _) = ok tt
as_validation (err _) = err validation

abbrev is_empty : Bytes → Bool
is_empty [] = true
is_empty (_ ∷ _) = false

-- `limit > 0 && exceeded`
abbrev pub breaks : ℤ → Bool → Bool
breaks limit exceeded = ltb_ℤ (pos 0) limit && exceeded

abbrev day : ℕ
day = 86400

abbrev pub hour_of : ℕ → ℕ
hour_of t = t % day / 3600

-- `validateSchedule`
unfoldable pub validate_schedule : Payment → Limits → ℕ → Result (Unit {0})
validate_schedule p limits now = elim p.scheduled_for [
  | none ↦ ok tt
  | some t ↦
      let diff_days : ℤ = pos (t / day - now / day) in
      (fail_if (ltb (t / day) (now / day)) validation
        >> fail_if (breaks limits.min_future_days (ltb_ℤ diff_days limits.min_future_days)) policy
        >> fail_if (breaks limits.max_future_days (ltb_ℤ limits.max_future_days diff_days)) policy)
]

-- `validateLimits`
unfoldable pub validate_limits : Payment → Limits → Result (Unit {0})
validate_limits p limits = do
  fail_if (breaks limits.min_single_cents (ltb_ℤ p.amount limits.min_single_cents)) policy
  fail_if (breaks limits.max_single_cents (ltb_ℤ limits.max_single_cents p.amount)) policy

abbrev is_unscheduled : Option ℕ → Bool
is_unscheduled none = true
is_unscheduled (some _) = false

abbrev is_zero : ℤ → Bool
is_zero (pos n) = n == 0
is_zero _ = false

abbrev pub cutoff : Limits → ℤ
cutoff limits = if is_zero limits.ted_hourly_cutoff then pos 17 else limits.ted_hourly_cutoff

abbrev pub in_night_window : ℕ → Bool
in_night_window hour = leb 20 hour || ltb hour 6

-- `validateCutoff`
unfoldable pub validate_cutoff : Payment → Limits → ℕ → Result (Unit {0})
validate_cutoff p limits now = elim p.type [
  | pix ↦
      fail_if
        (breaks limits.pix_daily_cap
          (in_night_window (hour_of now) && ltb_ℤ limits.pix_daily_cap p.amount))
        policy
  | ted ↦
      fail_if (is_unscheduled p.scheduled_for && leb_ℤ (cutoff limits) (pos (hour_of now))) policy
  | other_type _ ↦ ok tt
]

abbrev is_pix_or_ted : PaymentType → Bool
is_pix_or_ted (other_type _) = false
is_pix_or_ted _ = true

module _ (is_digit : ℕ → Bool) (to_upper : Bytes → Bytes) where
  abbrev pix_shape : Fields → Result (Unit {0})
  pix_shape payee = do
    fail_if (is_empty (text_of "key_type" payee) || is_empty (text_of "key_value" payee)) validation
    as_validation
        (validate_pix_key is_digit to_upper (text_of "key_type" payee) (text_of "key_value" payee))

  abbrev account_shape : Fields → Result (Unit {0})
  account_shape payee =
      let bank = text_of "bank_code" payee in
      let agency = text_of "agency" payee in
      let account = text_of "account" payee in
      let doc = text_of "document_number" payee in
      fail_if (not (digits_only is_digit bank) || not (length bank == 3)) validation
      >> fail_if
          (not (digits_only is_digit agency) || (ltb (length agency) 3 || ltb 5 (length agency)))
          validation
      >> fail_if (not (digits_only is_digit account) || ltb (length account) 4) validation
      >> (if is_empty doc then ok tt else as_validation (validate_document_number is_digit doc))

  abbrev method_shape : PayeeMethod → Fields → Result (Unit {0})
  method_shape pix_key payee = pix_shape payee
  method_shape bank_account payee = account_shape payee
  method_shape (other_method _) payee = err validation

  -- `validatePayeeShape`
  unfoldable pub validate_payee_shape : Payment → Result (Unit {0})
  validate_payee_shape p =
      fail_if (length p.payee == 0) validation >> method_shape p.payee_method p.payee

  -- `ValidatePayment`, of a payment that is there.
  unfoldable pub validate_payment : Payment → Limits → ℕ → Result (Unit {0})
  validate_payment p limits now = do
    fail_if (leb_ℤ p.amount (pos 0)) validation
    fail_if (not (is_empty p.currency) && not (same p.currency (codes "BRL"))) validation
    fail_if (not (is_pix_or_ted p.type)) validation
    validate_payee_shape p
    validate_schedule p limits now
    validate_limits p limits
    validate_cutoff p limits now

  -- The loop of `ValidateBatch`, with the total so far.
  unfoldable pub validate_items : List Payment → ℤ → Limits → ℕ → Result (Unit {0})
  validate_items [] total limits now = ok tt
  validate_items (p ∷ ps) total limits now =
      let sum = add64 total p.amount in
      let rest = validate_items ps sum limits now in
      validate_payment p limits now
      >> fail_if (breaks limits.daily_limit_cents (ltb_ℤ limits.daily_limit_cents sum)) policy
      >> fail_if (breaks limits.batch_limit_cents (ltb_ℤ limits.batch_limit_cents sum)) policy
      >> rest

  -- `ValidateBatch`
  unfoldable pub validate_batch : List Payment → Limits → ℕ → Result (Unit {0})
  validate_batch items limits now = do
    fail_if (length items == 0) validation
    fail_if (breaks limits.batch_max_items (ltb_ℤ limits.batch_max_items (pos (length items))))
        policy
    validate_items items (pos 0) limits now
