-- ===== src/StateMachine/Redelivery.antt =====
-- Safaricom delivers a callback again and again: a second delivery of the same confirmation.
use script_pay_backend.Shared.{
  ℕ, String, Bool, true, false, not, ◌&&◌, Option, none, some, ◌⊎◌, ◌≡◌, refl, arith, subst,
  Bool-cases, Option-cases, inl, inr, find, update, find-update_self, truthy, same_text,
  same_text_refl, same_text→eq, if◌then◌else◌,
}
use script_pay_backend.Store.Rows.{
  Store, Transaction, wrong_direction, row_not_found, has_id, settled, status_eq, is_outbound,
}
use script_pay_backend.Store.Tx.{Result, ok, err}
use script_pay_backend.Store.Outcomes.{Leaves, Leaves-weaken}
use script_pay_backend.Store.Tables.{find_transaction, stamped}
use script_pay_backend.StateMachine.{
  confirm, backfill, settle_again, settle_collection, settle_payout, transition_to_settled,
  transition_payout_to_settled, tenant_webhook_url,
}
use script_pay_backend.Store.Updates.{found_at_own_id}

-- `m >> pure tt`.
abbrev forget : Result (Bool × Store) → Result (Unit {0} × Store)
forget (ok (b, s)) = ok (tt, s)
forget (err e) = err e

-- A settled row that has nothing to learn from the receipt.
abbrev IsUpToDate : Transaction → Option String → Type 0
IsUpToDate t r = (truthy r ≡ false) ⊎ (t.mpesa_receipt_number ≡ r)

settle_again_UpToDate :
    (t : Transaction) (r : Option String) (s : Store)
    → IsUpToDate t r
    → settle_again t r s ≡ ok (false, s)
unfolding settle_again
settle_again_UpToDate t r s (inl e) = elim (Bool-cases (truthy t.mpesa_receipt_number)) [
  | inl y ↦ rw (e, y) refl
  | inr n ↦ rw (e, n) refl
]
settle_again_UpToDate t r s (inr e) = elim (Bool-cases (truthy r)) [
  | inl y ↦ rw (e, y, same_text_refl r) refl
  | inr n ↦ rw (e, n) refl
]

-- How a settled row was reached: it is the row `t`, with its receipt and time perhaps written.
abbrev pub IsDone : Option String → Transaction → Store → Type 0
IsDone r t s =
    (u : Transaction) × (find_transaction t.id s ≡ some u)
    × (u.id ≡ t.id)
    × (u.direction ≡ t.direction)
    × (u.status ≡ settled)
    × IsUpToDate u r

confirmed-UpToDate :
    (now : ℕ) (r : Option String) (t : Transaction) → IsUpToDate (stamped now (confirm r) t) r
confirmed-UpToDate now none t = inl refl
confirmed-UpToDate now (some r) t = inr refl

module _ (t : Transaction) (r : Option String) (s : Store)
    (found : find_transaction t.id s ≡ some t) where
  found_updated :
      (f : Transaction → Transaction)
      → (f t).id ≡ t.id
      → find (has_id t.id) (update (has_id t.id) (stamped s.now f) s.transactions)
        ≡ some (stamped s.now f t)
  found_updated f same =
      find-update_self (has_id t.id) (stamped s.now f) t s.transactions found (ground (arith, same))

  -- What the table shows at the row's id after each write.
  backfilled :
      (not (truthy t.mpesa_receipt_number) && truthy r) ≡ true
      → Leaves
          (λ b u. find_transaction t.id u ≡ some (stamped s.now (backfill r) t))
          (settle_again t r s)
  unfolding settle_again
  backfilled learns = ground (arith, found, found_updated (backfill r) refl)

  confirmed_collection :
      (url : Option String)
      → Leaves
          (λ b u. find_transaction t.id u ≡ some (stamped s.now (confirm r) t))
          (settle_collection url t r s)
  unfolding settle_collection
  confirmed_collection url = ground (arith, found, found_updated (confirm r) refl)

  confirmed_payout :
      (url : Option String)
      → Leaves
          (λ b u. find_transaction t.id u ≡ some (stamped s.now (confirm r) t))
          (settle_payout url t r s)
  unfolding settle_payout
  confirmed_payout url = ground (arith, found, found_updated (confirm r) refl)

  left_alone :
      t.status ≡ settled
      → (not (truthy t.mpesa_receipt_number) && truthy r) ≡ false
      → Leaves (λ b. IsDone r t) (settle_again t r s)
  unfolding settle_again
  left_alone p knows = elim (Bool-cases (truthy r)) [
    | inr n ↦ rw (knows, n) (t, found, refl, refl, p, inl n)
    | inl y ↦ elim (Bool-cases (same_text t.mpesa_receipt_number r)) [
      | inl same ↦ rw (knows, y, same) (t, found, refl, refl, p, inr (same_text→eq _ _ same))
      | inr other ↦ rw (knows, y, other) tt
    ]
  ]

  settle_again-IsDone : t.status ≡ settled → Leaves (λ b. IsDone r t) (settle_again t r s)
  settle_again-IsDone p = elim (Bool-cases (not (truthy t.mpesa_receipt_number) && truthy r)) [
    | inl learns ↦
        Leaves-weaken _ _ (settle_again t r s)
          (λ b u shown. (stamped s.now (backfill r) t, shown, refl, refl, p, inr refl))
          (backfilled learns)
    | inr knows ↦ left_alone p knows
  ]

-- What each method does with the row that it finds.
pub transition_to_settled_at :
    (id : ℕ) (r : Option String) (t : Transaction) (s : Store)
    → find_transaction id s ≡ some t
    → transition_to_settled id r s ≡ (
        if is_outbound t.direction
        then err wrong_direction
        else if status_eq t.status settled
        then settle_again t r s
        else settle_collection (tenant_webhook_url t.tenant_id s) t r s)
unfolding transition_to_settled
transition_to_settled_at id r t s found = ground arith

pub transition_payout_to_settled_at :
    (id : ℕ) (r : Option String) (t : Transaction) (s : Store)
    → find_transaction id s ≡ some t
    → transition_payout_to_settled id r s ≡ (
        if not (is_outbound t.direction)
        then err wrong_direction
        else if status_eq t.status settled
        then forget (settle_again t r s)
        else settle_payout (tenant_webhook_url t.tenant_id s) t r s)
unfolding transition_payout_to_settled
transition_payout_to_settled_at id r t s found = ground arith

-- The row is done, and goes the way that the method is for.
abbrev pub IsDoneAs : Bool → Option String → Transaction → Store → Type 0
IsDoneAs out r t s = IsDone r t s × (is_outbound t.direction ≡ out)

settled_status : (t : Transaction) → status_eq t.status settled ≡ true → t.status ≡ settled
settled_status t h = ground arith

module _ (id : ℕ) (t : Transaction) (r : Option String) (s : Store)
    (found : find_transaction id s ≡ some t) where
  found_here : find_transaction t.id s ≡ some t
  found_here = (found_at_own_id id t s found).1

  confirmed-IsDone :
      (u : Store) → find_transaction t.id u ≡ some (stamped s.now (confirm r) t) → IsDone r t u
  confirmed-IsDone u shown =
      (stamped s.now (confirm r) t, shown, refl, refl, refl, confirmed-UpToDate s.now r t)

  transition_to_settled-IsDone : Leaves (λ b. IsDoneAs false r t) (transition_to_settled id r s)
  transition_to_settled-IsDone =
      rw (transition_to_settled_at id r t s found) (elim (Bool-cases (is_outbound t.direction)) [
        | inl out ↦ rw out tt
        | inr inn ↦ rw inn (elim (Bool-cases (status_eq t.status settled)) [
          | inl done ↦ rw done (
              Leaves-weaken _ _ (settle_again t r s) (λ b u k. (k, inn))
                (settle_again-IsDone t r s found_here (settled_status t done)))
          | inr first ↦ rw first (
              Leaves-weaken _ _ (settle_collection (tenant_webhook_url t.tenant_id s) t r s)
                (λ b u k. (confirmed-IsDone u k, inn))
                (confirmed_collection t r s found_here (tenant_webhook_url t.tenant_id s)))
        ])
      ])

pub missing_transition :
    (id : ℕ) (r : Option String) (s : Store)
    → find_transaction id s ≡ none
    → transition_to_settled id r s ≡ err row_not_found
unfolding transition_to_settled
missing_transition id r s missing = ground arith

-- A confirmation that is delivered again changes nothing: once a call has succeeded, the same call
-- on the store that it left answers that nothing was settled and leaves that store as it is.
pub transition_to_settled_redelivered :
    (id : ℕ) (r : Option String) (s : Store) (b : Bool) (u : Store)
    → transition_to_settled id r s ≡ ok (b, u)
    → transition_to_settled id r u ≡ ok (false, u)
transition_to_settled_redelivered id r s b u h = elim (Option-cases (find_transaction id s)) [
  | inl missing ↦ cc (missing_transition id r s missing)
  | inr (t, found) ↦
      again t found
        (subst (Leaves (λ x. IsDoneAs false r t)) h (transition_to_settled-IsDone id t r s found))
]
  where
    again :
        (t : Transaction)
        → find_transaction id s ≡ some t
        → IsDoneAs false r t u
        → transition_to_settled id r u ≡ ok (false, u)
    again t found ((v, shown, same, way, done, known), inn) = ground (
      arith,
      found_at_own_id id t s found,
      transition_to_settled_at id r v u,
      settle_again_UpToDate v r u known,
    )

pub missing_payout :
    (id : ℕ) (r : Option String) (s : Store)
    → find_transaction id s ≡ none
    → transition_payout_to_settled id r s ≡ err row_not_found
unfolding transition_payout_to_settled
missing_payout id r s missing = ground arith

Leaves-forget :
    (P : Store → Type 0) (m : Result (Bool × Store))
    → Leaves (λ b. P) m
    → Leaves (λ x. P) (forget m)
Leaves-forget P (ok (b, s)) h = h
Leaves-forget P (err e) h = tt

module _ (id : ℕ) (t : Transaction) (r : Option String) (s : Store)
    (found : find_transaction id s ≡ some t) where
  pub transition_payout_to_settled-IsDone :
      Leaves (λ x. IsDoneAs true r t) (transition_payout_to_settled id r s)
  transition_payout_to_settled-IsDone =
      let here = found_here id t r s found in
      rw (transition_payout_to_settled_at id r t s found)
        (elim (Bool-cases (is_outbound t.direction)) [
          | inr inn ↦ rw inn tt
          | inl out ↦ rw out (elim (Bool-cases (status_eq t.status settled)) [
            | inl done ↦ rw done (
                Leaves-forget (IsDoneAs true r t) (settle_again t r s) (
                  Leaves-weaken _ _ (settle_again t r s) (λ b u k. (k, out))
                    (settle_again-IsDone t r s here (settled_status t done))))
            | inr first ↦ rw first (
                Leaves-weaken _ _ (settle_payout (tenant_webhook_url t.tenant_id s) t r s)
                  (λ b u k. (confirmed-IsDone id t r s found u k, out))
                  (confirmed_payout t r s here (tenant_webhook_url t.tenant_id s)))
          ])
        ])

-- A payout's confirmation that is delivered again changes nothing either: the reservation is
-- discharged once.
pub transition_payout_to_settled_redelivered :
    (id : ℕ) (r : Option String) (s u : Store)
    → transition_payout_to_settled id r s ≡ ok (tt, u)
    → transition_payout_to_settled id r u ≡ ok (tt, u)
transition_payout_to_settled_redelivered id r s u h = elim (Option-cases (find_transaction id s)) [
  | inl missing ↦ cc (missing_payout id r s missing)
  | inr (t, found) ↦ again t found (
      subst (Leaves (λ x. IsDoneAs true r t)) h
        (transition_payout_to_settled-IsDone id t r s found))
]
  where
    again :
        (t : Transaction)
        → find_transaction id s ≡ some t
        → IsDoneAs true r t u
        → transition_payout_to_settled id r u ≡ ok (tt, u)
    again t found ((v, shown, same, way, done, known), out) = ground (
      arith,
      found_at_own_id id t s found,
      transition_payout_to_settled_at id r v u,
      settle_again_UpToDate v r u known,
    )
