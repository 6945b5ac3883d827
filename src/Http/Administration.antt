-- ===== src/Http/Administration.antt =====
-- The handlers of app/presentation/http/admin.py.
use accountant_backend.Prelude.{
  Bool, map, Error, admin, admin_user_not_found, cannot_deactivate_self,
}
use accountant_backend.Domain.{Uuid, User}
use accountant_backend.Admin
use accountant_backend.Admin.Figures.{list_user_summaries, get_finance_details}
use accountant_backend.Schemas.{
  text_le, summary_response, details_response, access_response, summaries_body, details_body,
  access_body,
}
use accountant_backend.Http.Messages.{no_user, not_yourself}
use accountant_backend.Http.{App, Chance, Reply, reply, Http, return, refuse, crash, call, ◌>>=◌}
use accountant_backend.Http.Ledger.{tomorrow}

-- the clauses of `except`
abbrev pub details_failed : {A : Type 0} → Error → Http A
details_failed (admin admin_user_not_found) = refuse 404 no_user
details_failed e = crash e

abbrev pub status_failed : {A : Type 0} → Error → Http A
status_failed (admin admin_user_not_found) = refuse 404 no_user
status_failed (admin cannot_deactivate_self) = refuse 409 not_yourself
status_failed e = crash e

module _ (app : App) (chance : Chance) where
  -- `list_users`
  unfoldable pub list_users : Http Reply
  unfolding list_user_summaries tomorrow
  list_users = do
    users ← call (list_user_summaries text_le (tomorrow app chance)) crash
    return (reply 200 (summaries_body (map summary_response users)))

  -- `get_user_finance_details`
  unfoldable pub get_user_finance_details : Uuid → Http Reply
  unfolding get_finance_details tomorrow
  get_user_finance_details user_id = do
    details ← call (get_finance_details app.name_le user_id (tomorrow app chance)) details_failed
    return (reply 200 (details_body (details_response details)))

  -- `change_user_status`
  unfoldable pub change_user_status : Uuid → Bool → User → Http Reply
  unfolding Admin.change_user_status access_response
  change_user_status user_id is_active actor = do
    user ← call (Admin.change_user_status actor.id user_id is_active) status_failed
    return (reply 200 (access_body (access_response user)))
