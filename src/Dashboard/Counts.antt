-- ===== src/Dashboard/Counts.antt =====
-- The figures of a report against the rows that they count.
use script_pay_backend.Shared.{
  ℕ, true, false, Option, none, some, List, [], ◌∷◌, ◌≡◌, ◌+◌, ◌==◌, refl, arith, ap, sym, ◌∙◌,
  length, filter, find, or_default, or_else, Bool-cases, inl, inr, ==_iff, if◌then◌else◌,
}
use script_pay_backend.Shared.Int.{pos, sum_of}
use script_pay_backend.Store.Rows.{
  Transaction, TransactionStatus, pending, processing, settled, failed, reversed,
  TransactionDirection, inbound, outbound, status_eq,
}
use script_pay_backend.Dashboard.{direction_eq}
use script_pay_backend.Dashboard.Reporting.{
  Group, Summary, in_group, group, add_group, groups_of, group_by, count_of, total, is_settled,
  amount_of, rate, summarize,
}

abbrev of_direction : TransactionDirection → List Group → List Group
of_direction d = filter (λ g. direction_eq g.direction d)

filter-add_group :
    (d : TransactionDirection) (g : Group) (rest : List Group)
    → of_direction d (add_group g rest) ≡ (
        if direction_eq g.direction d
        then add_group g (of_direction d rest)
        else of_direction d rest)
filter-add_group d g rest = ground arith

-- The groups of a direction alone.
own_groups :
    (d : TransactionDirection) (rows : List Transaction)
    → of_direction d (group_by rows) ≡ groups_of rows d []
own_groups inbound rows = simp (filter-add_group)
own_groups outbound rows = simp (filter-add_group)

total-add_group : (g : Group) (rest : List Group) → total (add_group g rest) ≡ g.count + total rest
total-add_group g rest = ground arith

or_else-none : (o : Option ℕ) → or_else o none ≡ o
or_else-none none = refl
or_else-none (some n) = refl

count_of_other :
    (status : TransactionStatus) (g : Group) (rest : List Group)
    → status_eq g.status status ≡ false
    → count_of status (add_group g rest) ≡ count_of status rest
count_of_other status g rest h = elim (Bool-cases (g.count == 0)) [
  | inl absent ↦ rw absent refl
  | inr present ↦ rw present (rw h (or_else-none (count_of status rest)))
]

count_of_own :
    (status : TransactionStatus) (g : Group) (rest : List Group)
    → status_eq g.status status ≡ true
    → count_of status rest ≡ none
    → or_default (count_of status (add_group g rest)) 0 ≡ g.count
count_of_own status g rest h k = elim (Bool-cases (g.count == 0)) [
  | inl absent ↦ rw absent (rw k (sym ((==_iff g.count 0).0 absent)))
  | inr present ↦ rw present (rw k (rw h refl))
]

find_other :
    (g : Group) (rest : List Group)
    → is_settled g ≡ false
    → find is_settled (add_group g rest) ≡ find is_settled rest
find_other g rest h = ground arith

five_statuses :
    (d : TransactionDirection) (rows : List Transaction)
    → length (filter (in_group d pending) rows)
        + length (filter (in_group d processing) rows)
        + length (filter (in_group d settled) rows)
        + length (filter (in_group d failed) rows)
        + length (filter (in_group d reversed) rows)
      ≡ length (filter (λ t. direction_eq t.direction d) rows)
five_statuses d [] = refl
five_statuses d (t ∷ rows) = ground (arith, five_statuses d rows)

-- The figures of a direction, each counted among the rows themselves.
abbrev pub figures : TransactionDirection → List Transaction → Summary
figures d rows =
    let count = λ (status : TransactionStatus). length (filter (in_group d status) rows) in
    let all = length (filter (λ t. direction_eq t.direction d) rows) in
    record {
      total_count = all;
      success_rate = rate (count settled) all;
      by_status = record {
        pending_count = count pending;
        processing_count = count processing;
        settled_count = count settled;
        failed_count = count failed;
        reversed_count = count reversed;
      };
      settled_amount = sum_of (λ t. t.amount_minor_units) (filter (in_group d settled) rows);
    }

sum_of_empty :
    (xs : List Transaction) → length xs ≡ 0 → sum_of (λ t. t.amount_minor_units) xs ≡ pos 0
sum_of_empty [] h = refl
sum_of_empty (x ∷ xs) h = absurd (omega arith)

settled_sum :
    (d : TransactionDirection) (rows : List Transaction) (rest : List Group)
    → find is_settled rest ≡ none
    → amount_of (find is_settled (add_group (group rows d settled) rest))
      ≡ sum_of (λ t. t.amount_minor_units) (filter (in_group d settled) rows)
settled_sum d rows rest h =
    let own = filter (in_group d settled) rows in
    elim (Bool-cases (length own == 0)) [
      | inl absent ↦ rw absent (rw h (sym (sum_of_empty own ((==_iff (length own) 0).0 absent))))
      | inr present ↦ rw present refl
    ]

total_lem :
    (d : TransactionDirection) (rows : List Transaction)
    → total (groups_of rows d []) ≡ length (filter (λ t. direction_eq t.direction d) rows)
total_lem d rows = simp (total-add_group) (omega (arith, five_statuses d rows))

amount_lem :
    (d : TransactionDirection) (rows : List Transaction)
    → amount_of (find is_settled (groups_of rows d []))
      ≡ sum_of (λ t. t.amount_minor_units) (filter (in_group d settled) rows)
amount_lem d rows = simp (find_other, settled_sum)

summarize_groups :
    (d : TransactionDirection) (rows : List Transaction)
    → summarize (groups_of rows d []) ≡ figures d rows
unfolding summarize
summarize_groups d rows = simp (total_lem, amount_lem, count_of_other, count_of_own)

-- Of the rows of a period, the summary of either direction has the figures that the rows
-- themselves give: how many there are in all and of each status, the sum of the settled ones, and
-- the rate of the settled ones among all, which there is none of if there are no rows.
pub summarize-figures :
    (d : TransactionDirection) (rows : List Transaction)
    → summarize (filter (λ g. direction_eq g.direction d) (group_by rows)) ≡ figures d rows
summarize-figures d rows = ap summarize (own_groups d rows) ∙ summarize_groups d rows
