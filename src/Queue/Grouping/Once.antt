-- ===== src/Queue/Grouping/Once.antt =====
-- The periodic grouping keeps each payment in one run at most (autorun.go).
use payments_hub.Base.{
  ℕ, ◌+◌, ◌≤◌, ◌≡◌, refl, ◌∙◌, ◌⊎◌, inl, inr, false, List, [], ◌∷◌, ◌++◌, ◌==◌, arith,
  if◌then◌else◌, Bool-cases, ==_iff,
}
use payments_hub.Payment.{Payment}
use payments_hub.Run
use payments_hub.Store.{World, RunItem, Db}
use payments_hub.Store.Always.{
  IsPreorder, Always, Always-bind, Always-then, Always-pure, Always-query, Always-try,
  Always-new_uuid, Always-clock,
}
use payments_hub.Store.Payments.{list_by_status}
use payments_hub.Store.Runs.{
  insert_run, run_row, attach_payment, attach_row, attach_row_lem, is_attached, run_row_lem,
}
use payments_hub.App.Runs.{channel_of}
use payments_hub.Queue.Grouping.{attach_all, group_payments, auto_group}

-- In how many items a payment stands.
unfoldable pub count_items : ℕ → List RunItem → ℕ
count_items id [] = 0
count_items id (i ∷ is) = (if i.payment_id == id then 1 else 0) + count_items id is

-- The payments stay, and a payment that is in one run at most is so afterwards.
abbrev KeepsOne : ℕ → World → World → Type 0
KeepsOne id w w' =
    (w'.payments ≡ w.payments) × (count_items id w.items ≤ 1 → count_items id w'.items ≤ 1)

one_order : (id : ℕ) → IsPreorder (KeepsOne id)
one_order id = record {
  refl_R = λ w. (refl, λ h. h);
  trans_R = λ u v w (p, h) (q, k). (q ∙ p, λ e. k (h e));
  ids_R = λ w. (refl, λ h. h);
  faults_R = λ w fs. (refl, λ h. h);
}

Always-items :
    (id : ℕ) {A : Type 0} (m : Db A)
    → ((w : World) → ((m w).1.payments ≡ w.payments) × ((m w).1.items ≡ w.items))
    → Always (KeepsOne id) m
unfolding Always
Always-items id m h w = ((h w).0, λ k. rw ((h w).1) k)

count-unattached : (id : ℕ) (is : List RunItem) → is_attached id is ≡ false → count_items id is ≡ 0
unfolding count_items
count-unattached id [] h = refl
count-unattached id (i ∷ is) h = let ih = count-unattached id is in ground arith

count-append :
    (id : ℕ) (is : List RunItem) (i : RunItem)
    → count_items id (is ++ i ∷ []) ≡ count_items id is + count_items id (i ∷ [])
unfolding count_items
count-append id [] i = omega arith
count-append id (j ∷ is) i = let ih = count-append id is i in omega arith

-- A new item of a payment that was in no run.
count-attached :
    (id payment_id run_id : ℕ) (c : Run.Channel) (is : List RunItem)
    → count_items id is ≤ 1
    → is_attached payment_id is ≡ false
    → count_items id (is ++ (record { run_id = run_id; payment_id = payment_id; channel = c }) ∷ [])
      ≤ 1
unfolding count_items
count-attached id payment_id run_id c is h free =
    let i : RunItem = record { run_id = run_id; payment_id = payment_id; channel = c } in
    let all = count-append id is i in
    elim (Bool-cases (payment_id == id)) [
      | inl hit ↦
          let same_id : payment_id ≡ id = (==_iff payment_id id).0 hit in
          let none_before : count_items id is ≡ 0 = count-unattached id is (rw same_id at free) in
          rw all (rw hit (omega arith))
      | inr miss ↦ rw all (rw miss (omega arith))
    ]

attach_row_cases :
    (run_id payment_id : ℕ) (c : Run.Channel) (w : World)
    → ((attach_row run_id payment_id c w).1.items ≡ w.items)
      ⊎ (((attach_row run_id payment_id c w).1.items
            ≡ w.items ++ (record { run_id = run_id; payment_id = payment_id; channel = c }) ∷ [])
          × (is_attached payment_id w.items ≡ false))
unfolding attach_row
attach_row_cases run_id payment_id c w = ground arith

attach_row-items :
    (id run_id payment_id : ℕ) (c : Run.Channel) (w : World)
    → count_items id w.items ≤ 1
    → count_items id (attach_row run_id payment_id c w).1.items ≤ 1
attach_row-items id run_id payment_id c w h = elim (attach_row_cases run_id payment_id c w) [
  | inl e ↦ rw e h
  | inr (e, free) ↦ rw e (count-attached id payment_id run_id c w.items h free)
]

attach-Keeps :
    (id run_id payment_id : ℕ) (c : Run.Channel)
    → Always (KeepsOne id) (attach_payment run_id payment_id c)
unfolding attach_payment Always
attach-Keeps id run_id payment_id c =
    Always-query (one_order id) _
      (λ w. (attach_row_lem run_id payment_id c w, attach_row-items id run_id payment_id c w))

attach_all-Keeps : (id run_id : ℕ) (ps : List Payment) → Always (KeepsOne id) (attach_all run_id ps)
unfolding attach_all
attach_all-Keeps id run_id [] = Always-pure (one_order id) tt
attach_all-Keeps id run_id (p ∷ ps) =
    Always-try (one_order id) _ _ (attach-Keeps id run_id p.id (channel_of p.type))
      (λ _. attach_all-Keeps id run_id ps)

run_row-items : (r : Run.Run) (w : World) → (run_row r w).1.items ≡ w.items
unfolding run_row
run_row-items r w = ground arith

group_payments-Keeps : (id : ℕ) (ps : List Payment) → Always (KeepsOne id) (group_payments ps)
unfolding group_payments insert_run
group_payments-Keeps id [] = Always-pure (one_order id) tt
group_payments-Keeps id (p ∷ ps) =
    let o = one_order id in
    Always-bind o _ _ (Always-clock o) (λ today. Always-bind o _ _ (Always-new_uuid o) (λ run_id.
      Always-then o _ _
        (Always-query o _ (
          Always-items id _
            (λ w. (run_row_lem (Run.new run_id today) w, run_row-items (Run.new run_id today) w))))
        (attach_all-Keeps id run_id (p ∷ ps))))

auto_group-Always : (id : ℕ) → Always (KeepsOne id) auto_group
unfolding auto_group list_by_status
auto_group-Always id =
    let o = one_order id in
    Always-bind o _ _ (Always-query o _ (Always-items id _ (λ w. (refl, refl))))
      (group_payments-Keeps id)

-- However the statements of the periodic grouping fail: the payments are the same afterwards, and
-- a payment that was in one run at most still is in one run at most.
pub auto_group_once :
    (id : ℕ) (w : World)
    → count_items id w.items ≤ 1
    → ((auto_group w).1.payments ≡ w.payments) × (count_items id (auto_group w).1.items ≤ 1)
unfolding Always
auto_group_once id w h = let (same_payments, one) = auto_group-Always id w in (same_payments, one h)
