-- ===== src/Ledger.antt =====
-- The ledger: the repositories of app/infrastructure/database/repositories/ledger.py and the use
-- cases of app/application/ledger that call them.
pub mod Categories
pub mod Transactions
pub mod Bookkeeping
pub mod Subscriptions
pub mod Budgets
pub mod Charges
