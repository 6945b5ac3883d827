-- ===== src/Identity/Tokens.antt =====
-- The repositories of the refresh tokens and of the two kinds of one-time tokens. The database
-- keeps the digests unique. `with_for_update` only orders the sessions, each of which is a step.
use accountant_backend.Prelude.{
  Bool, not, ◌&&◌, ◌||◌, Option, none, some, is_some, is_none, List, [], ◌∷◌, Text, text_eq,
  any_where, find_where, update_where, leb, ◌==◌, if◌then◌else◌, Exec, ok, raised, integrity_error,
}
use accountant_backend.Domain.{Uuid, Instant, PendingEmailChange}
use accountant_backend.Schema.{
  RefreshTokenModel, PasswordResetTokenModel, EmailChangeTokenModel, Database,
}
use accountant_backend.Events.{commit, other_row}
use accountant_backend.Ledger.Categories.{user_exists}

abbrev pub has_hash : Text → RefreshTokenModel → Bool
has_hash token_hash t = text_eq t.token_hash token_hash

-- a new row of `refresh_tokens`
abbrev pub new_refresh : Uuid → Uuid → Text → Instant → RefreshTokenModel
new_refresh id user_id token_hash expires_at = record {
  id = id;
  user_id = user_id;
  token_hash = token_hash;
  expires_at = expires_at;
  revoked_at = none;
  replaced_by = none;
}

-- the primary key, `token_hash` and the foreign key
unfoldable pub refresh_refused : Database → RefreshTokenModel → Bool
unfolding any_where text_eq
refresh_refused db t =
    any_where (λ (r : RefreshTokenModel). r.id == t.id || has_hash t.token_hash r) db.refresh_tokens
    || not (user_exists db t.user_id)

-- `SqlAlchemyRefreshTokenRepository.add`
unfoldable pub add_refresh : Uuid → Uuid → Text → Instant → Exec Database (Unit {0})
unfolding refresh_refused commit
add_refresh id user_id token_hash expires_at db =
    let t = new_refresh id user_id token_hash expires_at in
    if refresh_refused db t
    then (raised integrity_error, db)
    else (ok tt, commit (other_row ∷ []) (record db { refresh_tokens = t ∷ db.refresh_tokens }))

-- `current.revoked_at is not None or current.expires_at <= now`
abbrev pub is_dead : Instant → RefreshTokenModel → Bool
is_dead now t = is_some t.revoked_at || leb t.expires_at now

-- `rotate`
unfoldable pub rotate : Uuid → Text → Text → Instant → Instant → Exec Database (Option Uuid)
unfolding find_where update_where text_eq refresh_refused commit
rotate id token_hash replacement_hash replacement_expires_at now db =
    elim (find_where (has_hash token_hash) db.refresh_tokens) [
      | none ↦ (ok none, db)
      | some current ↦
          let replacement =
            new_refresh id current.user_id replacement_hash replacement_expires_at in
          if is_dead now current
          then (ok none, db)
          else if refresh_refused db replacement
          then (raised integrity_error, db)
          else (
            ok (some current.user_id),
            commit (other_row ∷ other_row ∷ []) (record db {
              refresh_tokens =
                  replacement
                  ∷ update_where (λ (r : RefreshTokenModel). r.id == current.id)
                      (λ r. record r { revoked_at = some now; replaced_by = some id })
                      db.refresh_tokens;
            }),
          )
    ]

-- `revoke_all_for_user`
unfoldable pub revoke_all_for_user : Uuid → Instant → Exec Database (Unit {0})
unfolding update_where commit
revoke_all_for_user user_id now db = (
  ok tt,
  commit (other_row ∷ []) (record db {
    refresh_tokens =
        update_where (λ (r : RefreshTokenModel). r.user_id == user_id && is_none r.revoked_at)
          (λ r. record r { revoked_at = some now }) db.refresh_tokens;
  }),
)

-- `revoke`
unfoldable pub revoke : Text → Instant → Exec Database (Unit {0})
unfolding find_where update_where text_eq commit
revoke token_hash now db = elim (find_where (has_hash token_hash) db.refresh_tokens) [
  | none ↦ (ok tt, db)
  | some current ↦ if is_some current.revoked_at then (ok tt, db) else (
    ok tt,
    commit (other_row ∷ []) (record db {
      refresh_tokens =
          update_where (λ (r : RefreshTokenModel). r.id == current.id)
            (λ r. record r { revoked_at = some now }) db.refresh_tokens;
    }),
  )
]

abbrev pub has_reset_hash : Text → PasswordResetTokenModel → Bool
has_reset_hash token_hash t = text_eq t.token_hash token_hash

-- `for token in outstanding: token.used_at = now`
abbrev pub retire_resets :
    Uuid → Instant → List PasswordResetTokenModel → List PasswordResetTokenModel
retire_resets user_id now =
    update_where (λ (t : PasswordResetTokenModel). t.user_id == user_id && is_none t.used_at)
      (λ t. record t { used_at = some now })

-- `SqlAlchemyPasswordResetTokenRepository.replace_for_user`
unfoldable pub replace_reset : Uuid → Uuid → Text → Instant → Instant → Exec Database (Unit {0})
unfolding any_where update_where text_eq commit
replace_reset id user_id token_hash expires_at now db =
    if any_where (λ (t : PasswordResetTokenModel). t.id == id || has_reset_hash token_hash t)
        db.password_reset_tokens
      || not (user_exists db user_id)
    then (raised integrity_error, db)
    else (
      ok tt,
      commit (other_row ∷ []) (record db {
        password_reset_tokens =
            record {
              id = id;
              user_id = user_id;
              token_hash = token_hash;
              expires_at = expires_at;
              used_at = none;
            }
            ∷ retire_resets user_id now db.password_reset_tokens;
      }),
    )

-- `SqlAlchemyPasswordResetTokenRepository.consume`
unfoldable pub consume_reset : Text → Instant → Exec Database (Option Uuid)
unfolding find_where update_where text_eq commit
consume_reset token_hash now db =
    elim (find_where (has_reset_hash token_hash) db.password_reset_tokens) [
      | none ↦ (ok none, db)
      | some token ↦ if is_some token.used_at || leb token.expires_at now then (ok none, db) else (
        ok (some token.user_id),
        commit (other_row ∷ []) (record db {
          password_reset_tokens =
              update_where (λ (t : PasswordResetTokenModel). t.id == token.id)
                (λ t. record t { used_at = some now }) db.password_reset_tokens;
        }),
      )
    ]

abbrev pub has_change_hash : Text → EmailChangeTokenModel → Bool
has_change_hash token_hash t = text_eq t.token_hash token_hash

-- `SqlAlchemyEmailChangeTokenRepository.replace_for_user`
unfoldable pub replace_change :
    Uuid → Uuid → Text → Text → Instant → Instant → Exec Database (Unit {0})
unfolding any_where update_where text_eq commit
replace_change id user_id new_email token_hash expires_at now db =
    if any_where (λ (t : EmailChangeTokenModel). t.id == id || has_change_hash token_hash t)
        db.email_change_tokens
      || not (user_exists db user_id)
    then (raised integrity_error, db)
    else (
      ok tt,
      commit (other_row ∷ []) (record db {
        email_change_tokens =
            record {
              id = id;
              user_id = user_id;
              new_email = new_email;
              token_hash = token_hash;
              expires_at = expires_at;
              used_at = none;
            }
            ∷ update_where
                (λ (t : EmailChangeTokenModel). t.user_id == user_id && is_none t.used_at)
                (λ t. record t { used_at = some now }) db.email_change_tokens;
      }),
    )

-- `SqlAlchemyEmailChangeTokenRepository.consume`
unfoldable pub consume_change : Text → Instant → Exec Database (Option PendingEmailChange)
unfolding find_where update_where text_eq commit
consume_change token_hash now db =
    elim (find_where (has_change_hash token_hash) db.email_change_tokens) [
      | none ↦ (ok none, db)
      | some token ↦ if is_some token.used_at || leb token.expires_at now then (ok none, db) else (
        ok (some (record { user_id = token.user_id; new_email = token.new_email })),
        commit (other_row ∷ []) (record db {
          email_change_tokens =
              update_where (λ (t : EmailChangeTokenModel). t.id == token.id)
                (λ t. record t { used_at = some now }) db.email_change_tokens;
        }),
      )
    ]
