-- ===== src/Events.antt =====
-- app/infrastructure/database/events.py: which ledgers a flush touches, and what the commit then
-- asks of the cache. The set of user ids is a list without repetition.
use accountant_backend.Prelude.{
  Bool, true, false, Option, none, some, List, [], ◌∷◌, any_where, ◌==◌, if◌then◌else◌,
}
use accountant_backend.Domain.{Uuid}
use accountant_backend.Schema.{Database, Invalidation, one_ledger, every_ledger}

-- an instance of `session.new`, `session.dirty` or `session.deleted`, with its `user_id`
pub data Instance : Type 0 where
  transaction_row : Uuid → Instance
  category_row : Option Uuid → Instance
  other_row : Instance

-- `session.info`: `TOUCHED_LEDGERS` and `TOUCHED_EVERYTHING`
pub record Touched : Type 0 where
  pub ledgers : List Uuid
  pub everything : Bool

abbrev pub untouched : Touched
untouched = record { ledgers = []; everything = false }

abbrev pub touch : Uuid → Touched → Touched
touch u t = if any_where (λ v. v == u) t.ledgers then t else record t { ledgers = u ∷ t.ledgers }

unfoldable pub note_pending_changes : List Instance → Touched → Touched
unfolding any_where
note_pending_changes [] t = t
note_pending_changes (transaction_row u ∷ rest) t = note_pending_changes rest (touch u t)
note_pending_changes (category_row (some u) ∷ rest) t = note_pending_changes rest (touch u t)
note_pending_changes (category_row none ∷ rest) t =
    note_pending_changes rest (record t { everything = true })
note_pending_changes (other_row ∷ rest) t = note_pending_changes rest t

unfoldable pub publish_ledgers : List Uuid → List Invalidation → List Invalidation
publish_ledgers [] calls = calls
publish_ledgers (u ∷ us) calls = publish_ledgers us (one_ledger u ∷ calls)

unfoldable pub publish_changes : Touched → Database → Database
unfolding publish_ledgers
publish_changes t db =
    if t.everything
    then record db { published = every_ledger ∷ db.published }
    else record db { published = publish_ledgers t.ledgers db.published }

-- `session.commit()`, once the constraints have let the new rows in: the listeners run
unfoldable pub commit : List Instance → Database → Database
unfolding note_pending_changes publish_changes
commit instances db = publish_changes (note_pending_changes instances untouched) db
