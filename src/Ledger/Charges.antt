-- ===== src/Ledger/Charges.antt =====
-- `ProcessDueSubscriptions.execute` of application/ledger/subscriptions.py. The inner loop runs on
-- fuel: the months from the charge date to the last day that is due, and one.
pub mod Rounds
pub mod Posted
pub mod Settled
pub mod Complete
use accountant_backend.Prelude.{
  ℕ, true, false, zero, suc, ◌+◌, ◌-◌, Option, none, some, List, [], ◌∷◌, ◌++◌, if◌then◌else◌, Exec,
  or_raise, raise, pure, ◌>>=◌, ◌>>◌, value_error, out_of_fuel,
}
use accountant_backend.Calendar.{Date, date_le, combine_utc, next_month_charge}
use accountant_backend.Calendar.Laws.{month_index}
use accountant_backend.Domain.{Uuid, Instant, Transaction, Subscription}
use accountant_backend.Schema.{Database}
use accountant_backend.Ledger.Transactions.{add_subscription_charge}
use accountant_backend.Ledger.Subscriptions.{list_due, update_next_charge}

-- `if transaction is not None: created.append(transaction)`
abbrev pub append_if : List Transaction → Option Transaction → List Transaction
append_if created none = created
append_if created (some t) = created ++ t ∷ []

abbrev pub rounds : Date → Date → ℕ
rounds through_date charge_date = month_index through_date + 2 - month_index charge_date

-- `uuid4` draws an identifier for each new row; it may depend on all that has happened so far.
module _ (uuid4 : Database → Uuid) (now : Instant) where
  -- one round of the inner loop: the charge of `charge_date`
  unfoldable pub post_charge : Subscription → Date → Exec Database (Option Transaction)
  unfolding add_subscription_charge
  post_charge s charge_date db =
      add_subscription_charge (uuid4 db) now s charge_date (combine_utc charge_date 12) db

  -- the inner loop: the charge date that it stops at, and the charges created so far
  unfoldable pub charge_through :
      ℕ → Date → Subscription → Date → List Transaction → Exec Database (Date × List Transaction)
  charge_through zero through_date s charge_date created = raise out_of_fuel
  charge_through (suc fuel) through_date s charge_date created =
      elim (date_le charge_date through_date) [
        | false ↦ pure (charge_date, created)
        | true ↦ do
          transaction ← post_charge s charge_date
          next ← or_raise (next_month_charge charge_date s.billing_day) value_error
          charge_through fuel through_date s next (append_if created transaction)
      ]

  -- the inner loop for one subscription of `list_due`
  abbrev pub turn : Date → Subscription → List Transaction → Exec Database (Date × List Transaction)
  turn through_date s =
      charge_through (rounds through_date s.next_charge_date) through_date s s.next_charge_date

  -- the outer loop, over what `list_due` found
  unfoldable pub charge_all :
      Uuid → Date → List Subscription → List Transaction → Exec Database (List Transaction)
  unfolding charge_through update_next_charge
  charge_all user_id through_date [] created = pure created
  charge_all user_id through_date (s ∷ rest) created = do
    (charge_date, created') ← turn through_date s created
    update_next_charge user_id s.id charge_date
    charge_all user_id through_date rest created'

  -- `ProcessDueSubscriptions.execute`
  unfoldable pub process_due : Uuid → Date → Exec Database (List Transaction)
  unfolding charge_all list_due
  process_due user_id through_date db =
      charge_all user_id through_date (list_due db user_id through_date) [] db
