-- ===== src/Ledger/Subscriptions.antt =====
-- `SqlAlchemySubscriptionRepository` and the use cases of application/ledger/subscriptions.py, but
-- for `ProcessDueSubscriptions` (Charges.antt). No commit here touches a cached ledger.
use accountant_backend.Prelude.{
  ℕ, ℤ, pos, leb_ℤ, Bool, true, false, not, ◌&&◌, ◌||◌, Option, none, some, List, [], ◌∷◌, map,
  Text, strip, any_where, find_where, select_where, update_where, order_by, leb, min, ◌==◌,
  if◌then◌else◌, Exec, ok, raised, or_raise, raise_if, gets, ◌>>=◌, integrity_error, value_error,
  ledger, category_not_found, subscription_not_found,
}
use accountant_backend.Calendar.{Date, date_le, date_lt, new_date, month_length}
use accountant_backend.Domain.{Uuid, Instant, Category, Subscription}
use accountant_backend.Schema.{SubscriptionModel, Database}
use accountant_backend.Events.{commit, other_row}
use accountant_backend.Ledger.Categories.{user_exists, get_category, get_available_by_id}

abbrev pub to_subscription_domain : SubscriptionModel → Subscription
to_subscription_domain m = record {
  id = m.id;
  user_id = m.user_id;
  category_id = m.category_id;
  category_name = m.category.name;
  category_color = m.category.color;
  kind = m.category.kind;
  name = m.name;
  amount_minor = m.amount_minor;
  billing_day = m.billing_day;
  next_charge_date = m.next_charge_date;
  is_active = m.is_active;
  created_at = m.created_at;
}

abbrev pub is_active_of : Uuid → SubscriptionModel → Bool
is_active_of user_id m = m.user_id == user_id && m.is_active

-- the `WHERE` of `list_due`
abbrev pub is_due : Uuid → Date → SubscriptionModel → Bool
is_due user_id through_date m =
    m.user_id == user_id && m.is_active && date_le m.next_charge_date through_date

-- `ORDER BY next_charge_date, name`, over the collation of the database
abbrev pub sooner_first : (Text → Text → Bool) → SubscriptionModel → SubscriptionModel → Bool
sooner_first name_le a b =
    date_lt a.next_charge_date b.next_charge_date
    || date_le a.next_charge_date b.next_charge_date && name_le a.name b.name

unfoldable pub list_active : (Text → Text → Bool) → Database → Uuid → List Subscription
unfolding select_where order_by date_le date_lt
list_active name_le db user_id =
    map to_subscription_domain
      (order_by (sooner_first name_le) (select_where (is_active_of user_id) db.subscriptions))

unfoldable pub list_due : Database → Uuid → Date → List Subscription
unfolding select_where date_le
list_due db user_id through_date =
    map to_subscription_domain (select_where (is_due user_id through_date) db.subscriptions)

-- `ck_subscriptions_amount_positive` and `ck_subscriptions_billing_day`
abbrev pub check_refused : ℤ → ℕ → Bool
check_refused amount_minor billing_day =
    leb_ℤ amount_minor (pos 0) || not (leb 1 billing_day && leb billing_day 31)

-- `add`
unfoldable pub add : Uuid → Instant → Uuid → Category → Text → ℤ → Date → Exec Database Subscription
unfolding any_where find_where commit
add id now user_id category name amount_minor first_charge_date db =
    elim (get_category db category.id) [
      | none ↦ (raised integrity_error, db)
      | some loaded ↦
          let model : SubscriptionModel = record {
            id = id;
            user_id = user_id;
            category_id = category.id;
            name = name;
            amount_minor = amount_minor;
            billing_day = first_charge_date.day;
            next_charge_date = first_charge_date;
            is_active = true;
            created_at = now;
            category = loaded;
          } in
          if check_refused amount_minor first_charge_date.day
            || any_where (λ (r : SubscriptionModel). r.id == id) db.subscriptions
            || not (user_exists db user_id)
          then (raised integrity_error, db)
          else (
            ok (to_subscription_domain model),
            commit (other_row ∷ []) (record db { subscriptions = model ∷ db.subscriptions }),
          )
    ]

-- the `WHERE` by identifier and owner
abbrev pub is_own : Uuid → Uuid → SubscriptionModel → Bool
is_own user_id subscription_id m = m.id == subscription_id && m.user_id == user_id

-- the rows with `f` applied to the one that has the identifier
abbrev pub write_row : Database → Uuid → (SubscriptionModel → SubscriptionModel) → Database
write_row db id f = record db {
  subscriptions = update_where (λ (r : SubscriptionModel). r.id == id) f db.subscriptions;
}

-- `update_next_charge`. In the job a charge that has just been created is still dirty at this commit,
-- which then publishes its ledger a second time: `published` has the first time only.
unfoldable pub update_next_charge : Uuid → Uuid → Date → Exec Database (Unit {0})
unfolding find_where update_where commit
update_next_charge user_id subscription_id next_charge_date db =
    elim (find_where (is_own user_id subscription_id) db.subscriptions) [
      | none ↦ (ok tt, db)
      | some model ↦ (
        ok tt,
        commit (other_row ∷ [])
            (write_row db model.id λ r. record r { next_charge_date = next_charge_date }),
      )
    ]

-- The pending charge after the billing day has changed: `none` is the `ValueError` of `replace`.
abbrev pub moved_charge : SubscriptionModel → ℕ → Option Date
moved_charge m billing_day =
    if m.billing_day == billing_day
    then some m.next_charge_date
    else let pending = m.next_charge_date in
      new_date pending.year pending.month
        (min billing_day (month_length pending.year pending.month))

-- `update`
unfoldable pub update : Uuid → Uuid → Category → Text → ℤ → ℕ → Exec Database (Option Subscription)
unfolding find_where update_where commit new_date
update user_id subscription_id category name amount_minor billing_day db =
    elim (find_where (λ m. is_own user_id subscription_id m && m.is_active) db.subscriptions) [
      | none ↦ (ok none, db)
      | some model ↦ elim (moved_charge model billing_day) [
        | none ↦ (raised value_error, db)
        | some pending ↦ elim (get_category db category.id) [
          | none ↦ (raised integrity_error, db)
          | some loaded ↦
              let write = λ (r : SubscriptionModel). record r {
                next_charge_date = pending;
                billing_day = billing_day;
                category_id = category.id;
                name = name;
                amount_minor = amount_minor;
                category = loaded;
              } in
              if check_refused amount_minor billing_day then (raised integrity_error, db) else (
                ok (some (to_subscription_domain (write model))),
                commit (other_row ∷ []) (write_row db model.id write),
              )
        ]
      ]
    ]

-- `deactivate`
unfoldable pub deactivate : Uuid → Uuid → Exec Database Bool
unfolding find_where update_where commit
deactivate user_id subscription_id db =
    elim (find_where (λ m. is_own user_id subscription_id m && m.is_active) db.subscriptions) [
      | none ↦ (ok false, db)
      | some model ↦ (
        ok true,
        commit (other_row ∷ []) (write_row db model.id λ r. record r { is_active = false }),
      )
    ]

abbrev pub available : Uuid → Uuid → Exec Database Category
available user_id category_id = do
  found ← gets (λ db. get_available_by_id db user_id category_id)
  or_raise found (ledger category_not_found)

-- `CreateSubscription.execute`
unfoldable pub create_subscription :
    Uuid → Instant → Uuid → Uuid → Text → ℤ → Date → Exec Database Subscription
unfolding add get_available_by_id
create_subscription id now user_id category_id name amount_minor first_charge_date = do
  category ← available user_id category_id
  add id now user_id category (strip name) amount_minor first_charge_date

-- `RemoveSubscription.execute`
unfoldable pub remove_subscription : Uuid → Uuid → Exec Database (Unit {0})
unfolding deactivate
remove_subscription user_id subscription_id = do
  done ← deactivate user_id subscription_id
  raise_if (not done) (ledger subscription_not_found)

-- `UpdateSubscription.execute`
unfoldable pub update_subscription : Uuid → Uuid → Uuid → Text → ℤ → ℕ → Exec Database Subscription
unfolding update get_available_by_id
update_subscription user_id subscription_id category_id name amount_minor billing_day = do
  category ← available user_id category_id
  written ← update user_id subscription_id category (strip name) amount_minor billing_day
  or_raise written (ledger subscription_not_found)

-- `ListSubscriptions.execute`
unfoldable pub list_subscriptions : (Text → Text → Bool) → Uuid → Exec Database (List Subscription)
unfolding list_active
list_subscriptions name_le user_id = gets (λ db. list_active name_le db user_id)
