-- ===== src/Dashboard/Reporting.antt =====
-- src/modules/reporting/reporting.service.ts and its controller: counts and sums of a period.
use script_pay_backend.Shared.{
  ℕ, String, Bool, ◌&&◌, ◌||◌, Option, none, some, List, [], ◌∷◌, ◌+◌, ◌-◌, ◌*◌, ◌==◌, ltb, leb,
  length, filter, find, any, or_default, or_else, if◌then◌else◌, str_eq,
}
use script_pay_backend.Shared.Int.{ℤ, pos, sum_of}
use script_pay_backend.Store.Rows.{
  Store, Transaction, TransactionStatus, pending, processing, settled, failed, reversed,
  TransactionDirection, inbound, outbound, status_eq, has_id, ReconciliationRecord, bad_request,
}
use script_pay_backend.Store.Tx.{Result, ok, err}
use script_pay_backend.Store.Action.{Action, gets, await, ◌>>=◌}
use script_pay_backend.Tenants.Access.{AuthenticatedUser}
use script_pay_backend.Dashboard.{direction_eq, resolve_tenant_id}

-- A row of `groupBy({ by: ["status", "direction"] })`.
pub record Group : Type 0 where
  pub status : TransactionStatus
  pub direction : TransactionDirection
  pub count : ℕ
  pub sum : ℤ

pub record ByStatus : Type 0 where
  pub pending_count : ℕ
  pub processing_count : ℕ
  pub settled_count : ℕ
  pub failed_count : ℕ
  pub reversed_count : ℕ

-- `success_rate` is the quotient as its two numbers.
pub record Summary : Type 0 where
  pub total_count : ℕ
  pub success_rate : Option (ℕ × ℕ)
  pub by_status : ByStatus
  pub settled_amount : ℤ

abbrev pub in_group : TransactionDirection → TransactionStatus → Transaction → Bool
in_group direction status t = status_eq t.status status && direction_eq t.direction direction

abbrev pub group : List Transaction → TransactionDirection → TransactionStatus → Group
group rows direction status =
    let own = filter (in_group direction status) rows in
    record {
      status = status;
      direction = direction;
      count = length own;
      sum = sum_of (λ t. t.amount_minor_units) own;
    }

-- Only groups with a row are answered.
abbrev pub add_group : Group → List Group → List Group
add_group g groups = if g.count == 0 then groups else g ∷ groups

abbrev pub groups_of : List Transaction → TransactionDirection → List Group → List Group
groups_of rows direction rest =
    let g = group rows direction in
    add_group (g pending) (
      add_group (g processing)
        (add_group (g settled) (add_group (g failed) (add_group (g reversed) rest))))

abbrev pub group_by : List Transaction → List Group
group_by rows = groups_of rows inbound (groups_of rows outbound [])

-- `counts[status]`, where a later row of a status replaces an earlier one.
abbrev pub count_of : TransactionStatus → List Group → Option ℕ
count_of status [] = none
count_of status (g ∷ groups) =
    or_else (count_of status groups) (if status_eq g.status status then some g.count else none)

abbrev pub total : List Group → ℕ
total [] = 0
total (g ∷ groups) = g.count + total groups

abbrev pub is_settled : Group → Bool
is_settled g = status_eq g.status settled

abbrev pub amount_of : Option Group → ℤ
amount_of none = pos 0
amount_of (some g) = g.sum

abbrev pub rate : ℕ → ℕ → Option (ℕ × ℕ)
rate settled_count n = if ltb 0 n then some (settled_count, n) else none

unfoldable pub summarize : List Group → Summary
summarize groups =
    let count = λ (status : TransactionStatus). or_default (count_of status groups) 0 in
    record {
      total_count = total groups;
      success_rate = rate (count settled) (total groups);
      by_status = record {
        pending_count = count pending;
        processing_count = count processing;
        settled_count = count settled;
        failed_count = count failed;
        reversed_count = count reversed;
      };
      settled_amount = amount_of (find is_settled groups);
    }

pub record PaymentSummary : Type 0 where
  pub period_days : ℕ
  pub collections : Summary
  pub drift_count : ℕ
  pub payouts : Summary
  pub payout_drift_count : ℕ

-- The columns `createdAt`, which the database fills in, and how JavaScript reads a number: a whole
-- one that is not negative, or anything else.
module _ (created_at : Transaction → ℕ) (opened_at : ReconciliationRecord → ℕ)
    (whole_number : String → Option ℕ) where
  abbrev pub in_period : ℕ → ℕ → Transaction → Bool
  in_period tenant since t = t.tenant_id == tenant && leb since (created_at t)

  -- `transaction: { direction }`.
  abbrev pub concerns : TransactionDirection → List Transaction → ReconciliationRecord → Bool
  concerns direction rows r =
      any (λ t. has_id r.transaction_id t && direction_eq t.direction direction) rows

  abbrev pub is_drift : ℕ → ℕ → TransactionDirection → Store → ReconciliationRecord → Bool
  is_drift tenant since direction s r =
      r.tenant_id == tenant
      && r.drift_detected
      && leb since (opened_at r)
      && concerns direction s.transactions r

  abbrev pub summary_of : ℕ → ℕ → ℕ → Store → PaymentSummary
  summary_of tenant days since s =
      let grouped = group_by (filter (in_period tenant since) s.transactions) in
      record {
        period_days = days;
        collections = summarize (filter (λ g. direction_eq g.direction inbound) grouped);
        drift_count = length (filter (is_drift tenant since inbound s) s.reconciliation_records);
        payouts = summarize (filter (λ g. direction_eq g.direction outbound) grouped);
        payout_drift_count =
            length (filter (is_drift tenant since outbound s) s.reconciliation_records);
      }

  unfoldable pub payment_summary : ℕ → ℕ → Action PaymentSummary
  unfolding summarize
  payment_summary tenant days =
      gets λ s. summary_of tenant days (s.now - days * 24 * 60 * 60 * 1000) s

  abbrev pub allowed_days : Option ℕ → Result ℕ
  allowed_days none = err bad_request
  allowed_days (some n) = if ltb n 1 || ltb 366 n then err bad_request else ok n

  abbrev pub parse_days : Option String → Result ℕ
  parse_days none = ok 7
  parse_days (some days) = if str_eq days "" then ok 7 else allowed_days (whole_number days)

  -- `ReportingController.summary`.
  unfoldable pub summary : AuthenticatedUser → Option ℕ → Option String → Action PaymentSummary
  unfolding payment_summary
  summary user query days = await (resolve_tenant_id user query) >>= λ tenant.
      await (parse_days days) >>= payment_summary tenant
