-- ===== src/Examples/Charges.antt =====
-- The job that posts the charges, run on the sample, and the month steps.
use accountant_backend.Prelude.{
  ◌+◌, ◌≡◌, refl, arith, ok, some, [], List, All, any_where, find_where,
}
use accountant_backend.Calendar.{Date, date, next_month_charge, next_month, month_length}
use accountant_backend.Calendar.Laws.{
  IsValid, IsNextCharge, month_index, next_month_charge-IsNextCharge, next_month_lem,
}
use accountant_backend.Domain.{Uuid, Transaction}
use accountant_backend.Schema.{Database}
use accountant_backend.Ledger.Subscriptions.{list_due}
use accountant_backend.Ledger.Charges.{process_due}
use accountant_backend.Ledger.Charges.Posted.{CanCharge, IsPosted}
use accountant_backend.Ledger.Charges.Settled.{IsReady, process_due-Settles}
use accountant_backend.Ledger.Charges.Complete.{process_due-IsPosted}
use accountant_backend.Examples.{sample, next_transaction_id, next_transaction_id_fresh}

abbrev uuid4 : Database → Uuid
uuid4 db = next_transaction_id db.transactions

abbrev through : Date
through = date 2024 3 15

through-IsValid : IsValid through
unfolding month_length
through-IsValid = record { year_in = ground arith; month_in = ground arith; day_in = ground arith }

sample-IsReady : All (IsReady through) (list_due sample 1 through)
unfolding list_due month_length
sample-IsReady = (
  record {
    dated = record { year_in = ground arith; month_in = ground arith; day_in = ground arith };
    billed = ground arith;
    due = refl;
  },
  tt,
)

sample-CanCharge : All (CanCharge sample) (list_due sample 1 through)
unfolding list_due any_where find_where
sample-CanCharge =
    (record { positive = refl; owner = refl; category = refl; subscription = refl }, tt)

process_due-IsPosted_example :
    All
      (λ s. IsPosted s through s.next_charge_date (process_due uuid4 9 1 through sample).1)
      (list_due sample 1 through)
process_due-IsPosted_example =
    process_due-IsPosted uuid4 9 1 (λ db. next_transaction_id_fresh db.transactions) through
      through-IsValid (ground arith) sample sample-IsReady sample-CanCharge

process_due-Settles_example :
    let (r, after) = process_due uuid4 9 1 through sample in
    ((made : List Transaction) × (r ≡ ok made))
    × (list_due after 1 through ≡ [])
    × (process_due uuid4 9 1 through after ≡ (ok [], after))
process_due-Settles_example =
    process_due-Settles uuid4 9 1 through sample through-IsValid (ground arith) sample-IsReady

next_month_charge-IsNextCharge_example : IsNextCharge through 31 (next_month_charge through 31)
next_month_charge-IsNextCharge_example =
    next_month_charge-IsNextCharge through 31 through-IsValid (ground arith) (ground arith)

next_month_lem_example :
    (n : Date) × (next_month through ≡ some n)
    × IsValid n
    × (month_index n ≡ month_index through + 1)
    × (n.day ≡ 1)
next_month_lem_example = next_month_lem through through-IsValid (ground arith)
