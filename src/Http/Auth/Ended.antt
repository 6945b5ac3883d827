-- ===== src/Http/Auth/Ended.antt =====
-- What a refresh token is worth after `logout`.
use accountant_backend.Prelude.{
  ◌≡◌, refl, arith, true, some, Text, List, ◌+◌, find_where, ok, raised, identity,
  invalid_refresh_token,
}
use accountant_backend.Domain.{Uuid, Instant}
use accountant_backend.Schema.{RefreshTokenModel, Database}
use accountant_backend.Identity.Tokens.{has_hash, revoke}
use accountant_backend.Identity.Sessions.{Services, revoke_session, refresh_session, days}
use accountant_backend.Identity.Spent.{
  Call, after_calls, is_spent, spent_of_write, after_calls-spent, spent_refuses,
}
use accountant_backend.Schemas.{detail_body}
use accountant_backend.Http.{App, Chance, World, reply, answered}
use accountant_backend.Http.Messages.{log_in_again}
use accountant_backend.Http.Auth.{refresh, logout, clear_session_cookies, services}

spent_of_revoke :
    (h : Text) (now : Instant) (db : Database) (m : RefreshTokenModel)
    → find_where (has_hash h) db.refresh_tokens ≡ some m
    → is_spent h (revoke h now db).1.refresh_tokens ≡ true
unfolding revoke is_spent
spent_of_revoke h now db m found = ground (
  arith,
  spent_of_write h (λ (r : RefreshTokenModel). record r { revoked_at = some now }) db.refresh_tokens
      m (λ r. refl) (λ r. refl) found,
)

revoked : (h : Text) (now : Instant) (db : Database) → (revoke h now db).0 ≡ ok tt
unfolding revoke
revoked h now db = ground arith

refused_session :
    (s : Services) (id : Uuid) (secret : Text) (now : Instant) (token : Text) (db : Database)
    → is_spent (s.hash_token token) db.refresh_tokens ≡ true
    → refresh_session s id secret now token db ≡ (raised (identity invalid_refresh_token), db)
unfolding refresh_session
refused_session s id secret now token db spent = ground (
  arith,
  spent_refuses (s.hash_token token) id (s.hash_token secret) (now + days s.refresh_token_days) now
      db,
)

module _ (app : App) where
  turned_away :
      (again : Chance) (token : Text) (w : World)
      → is_spent (app.services.hash_token token) w.db.refresh_tokens ≡ true
      → refresh app again (some token) w ≡ (
        answered (record (reply 401 (detail_body log_in_again)) {
          cookies = clear_session_cookies app again;
        }),
        w,
      )
  unfolding refresh
  turned_away again token w spent = ground (
    arith,
    refused_session (services app again) (again.uuid 0) (again.secret 0) (again.now 0) token w.db,
  )

  logout_spends :
      (chance : Chance) (token : Text) (w : World) (m : RefreshTokenModel)
      → let h = app.services.hash_token token in
        find_where (has_hash h) w.db.refresh_tokens ≡ some m
        → is_spent h (logout app chance (some token) w).1.db.refresh_tokens ≡ true
  unfolding logout revoke_session
  logout_spends chance token w m found =
      let h = app.services.hash_token token in
      ground (arith, revoked h (chance.now 0) w.db, spent_of_revoke h (chance.now 0) w.db m found)

  -- Once the owner of a stored refresh token has logged out with it, every later refresh with it is answered by the status 401 and the
  -- deletion of both cookies, and writes nothing, whatever calls of the token repository come between and whoever asks.
  pub logout_ends :
      (chance again : Chance) (token : Text) (w : World) (m : RefreshTokenModel) (calls : List Call)
      → find_where (has_hash (app.services.hash_token token)) w.db.refresh_tokens ≡ some m
      → let out = (logout app chance (some token) w).1 in
        let later = record out { db = after_calls calls out.db } in
        refresh app again (some token) later ≡ (
          answered (record (reply 401 (detail_body log_in_again)) {
            cookies = clear_session_cookies app again;
          }),
          later,
        )
  logout_ends chance again token w m calls found =
      let out = (logout app chance (some token) w).1 in
      turned_away again token (record out { db = after_calls calls out.db })
        (after_calls-spent (app.services.hash_token token) calls out.db
          (logout_spends chance token w m found))
