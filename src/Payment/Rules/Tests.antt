-- ===== src/Payment/Rules/Tests.antt =====
-- The theorems on the rules at concrete numbers and batches.
use payments_hub.Base.{ℕ, ◌<◌, ◌≡◌, refl, false, [], ◌∷◌, ◌++◌, arith}
use payments_hub.Base.Int.{pos, add64, int64_bound}
use payments_hub.Base.Bytes.{Bytes, codes, is_ascii_digit}
use payments_hub.Base.Utf8.{trim_space}
use payments_hub.Base.Result.{ok}
use payments_hub.Payment.{Payment, pix, pix_key, text, new, field}
use payments_hub.Payment.Rules.{
  Limits, validate_payment, validate_batch, validate_items, validate_payee_shape, validate_schedule,
  validate_limits, validate_cutoff,
}
use payments_hub.Payment.Rules.Keys.{validate_pix_key, validate_value, is_email}
use payments_hub.Payment.Rules.Documents.{
  validate_cpf, all_same_rune, cpf_check, falling_sum, digit,
}
use payments_hub.Payment.Rules.Documents.Checks.{IsDigit, cpf_unique, cpf_exists}
use payments_hub.Payment.Rules.Batch.{Kept, sum_of, batch_within_limits, overflow_passes}

nine_valid : validate_cpf (codes "529982247" ++ b'2' ∷ b'5' ∷ []) ≡ ok tt
unfolding validate_cpf all_same_rune cpf_check falling_sum digit
nine_valid = refl

cpf_unique_example : (◌≡◌ {A = ℕ} b'2' b'2') × (◌≡◌ {A = ℕ} b'5' b'5')
cpf_unique_example =
    cpf_unique (codes "529982247") b'2' b'5' b'2' b'5' refl
      (
        ((omega arith, omega arith), (omega arith, omega arith)),
        ((omega arith, omega arith), (omega arith, omega arith)),
      )
      nine_valid nine_valid

not_all_same : all_same_rune (codes "529982247") ≡ false
unfolding all_same_rune
not_all_same = refl

cpf_exists_example :
    (a : ℕ) × (b : ℕ) × IsDigit a
    × IsDigit b
    × (validate_cpf (codes "529982247" ++ a ∷ b ∷ []) ≡ ok tt)
cpf_exists_example = cpf_exists (codes "529982247") refl not_all_same

-- The keys here are in capitals.
abbrev upper : Bytes → Bytes
upper s = s

abbrev small : Payment
small =
    new 7 (codes "EXT-1") pix (pos 100) 1 pix_key
      ((codes "key_type", text (codes "EMAIL")) ∷ (codes "key_value", text (codes "a@b.c")) ∷ [])
      (codes "idem-1")

abbrev large : Payment
large = record small { id = 8; amount = pos 9223372036854775807; idempotency_key = codes "idem-2" }

abbrev limits : Limits
limits = record {
  max_single_cents = pos 0;
  min_single_cents = pos 0;
  daily_limit_cents = pos 500;
  batch_limit_cents = pos 400;
  batch_max_items = pos 0;
  pix_daily_cap = pos 0;
  ted_hourly_cutoff = pos 0;
  min_future_days = pos 0;
  max_future_days = pos 0;
}

small_valid : validate_payment is_ascii_digit upper small limits 50000 ≡ ok tt
unfolding validate_payment validate_payee_shape validate_schedule validate_limits validate_cutoff
    validate_pix_key validate_value is_email new trim_space field
small_valid = refl

large_valid : validate_payment is_ascii_digit upper large limits 50000 ≡ ok tt
unfolding validate_payment validate_payee_shape validate_schedule validate_limits validate_cutoff
    validate_pix_key validate_value is_email new trim_space field
large_valid = refl

pair_valid : validate_batch is_ascii_digit upper (small ∷ small ∷ []) limits 50000 ≡ ok tt
unfolding validate_batch validate_items validate_payment validate_payee_shape validate_schedule
    validate_limits validate_cutoff validate_pix_key validate_value is_email new trim_space field
    add64
pair_valid = refl

pair_small : sum_of (small ∷ small ∷ []) < int64_bound
unfolding sum_of new
pair_small = omega arith

batch_within_limits_example :
    Kept (pos 500) (sum_of (small ∷ small ∷ [])) × Kept (pos 400) (sum_of (small ∷ small ∷ []))
batch_within_limits_example =
    batch_within_limits is_ascii_digit upper (small ∷ small ∷ []) limits 50000 pair_valid pair_small

amounts : (small.amount ≡ pos 100) × (large.amount ≡ pos 9223372036854775807)
unfolding new
amounts = (refl, refl)

overflow_passes_example :
    validate_batch is_ascii_digit upper (small ∷ large ∷ []) limits 50000 ≡ ok tt
overflow_passes_example =
    overflow_passes is_ascii_digit upper small large limits 50000 100 9223372036854775807
      small_valid large_valid amounts (omega arith, omega arith, omega arith)
      (omega arith, omega arith) refl
