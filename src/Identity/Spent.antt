-- ===== src/Identity/Spent.antt =====
-- A refresh token is good for one rotation, whatever the sessions do afterwards.
use accountant_backend.Prelude.{
  ◌≡◌, refl, Bool, true, false, ◌||◌, none, some, is_some, is_none, List, [], ◌∷◌, arith, Text,
  text_eq, text_eq_iff, ◌&&◌, any_where, find_where, update_where, ◌==◌, inl, inr, Bool-cases,
  Option-cases, ok,
}
use accountant_backend.Domain.{Uuid, Instant}
use accountant_backend.Schema.{RefreshTokenModel, Database}
use accountant_backend.Identity.Tokens.{
  has_hash, refresh_refused, new_refresh, add_refresh, rotate, revoke, revoke_all_for_user,
}

-- the digest is known, and its row is revoked
unfoldable pub is_spent : Text → List RefreshTokenModel → Bool
is_spent h rows = elim (find_where (has_hash h) rows) [
  | none ↦ false
  | some m ↦ is_some m.revoked_at
]

spent-update_where :
    (h : Text) (p : RefreshTokenModel → Bool) (f : RefreshTokenModel → RefreshTokenModel)
    (rows : List RefreshTokenModel)
    → ((r : RefreshTokenModel) → has_hash h (f r) ≡ has_hash h r)
    → ((r : RefreshTokenModel) → is_some (f r).revoked_at ≡ true)
    → is_spent h rows ≡ true
    → is_spent h (update_where p f rows) ≡ true
unfolding is_spent find_where update_where
spent-update_where h p f [] same dead s = s
spent-update_where h p f (r ∷ rows) same dead s =
    ground (arith, same r, dead r, spent-update_where h p f rows same dead)

-- writing the row that the digest finds revokes the digest
pub spent_of_write :
    (h : Text) (f : RefreshTokenModel → RefreshTokenModel) (rows : List RefreshTokenModel)
    (m : RefreshTokenModel)
    → ((r : RefreshTokenModel) → has_hash h (f r) ≡ has_hash h r)
    → ((r : RefreshTokenModel) → is_some (f r).revoked_at ≡ true)
    → find_where (has_hash h) rows ≡ some m
    → is_spent h (update_where (λ (r : RefreshTokenModel). r.id == m.id) f rows) ≡ true
unfolding is_spent find_where update_where
spent_of_write h f [] m same dead found = cc
spent_of_write h f (r ∷ rows) m same dead found =
    ground (arith, same r, dead r, spent_of_write h f rows m same dead)

-- a new row has a digest that no row has
other-digest :
    (h : Text) (t : RefreshTokenModel) (rows : List RefreshTokenModel)
    → any_where (λ (r : RefreshTokenModel). r.id == t.id || has_hash t.token_hash r) rows ≡ false
    → is_spent h rows ≡ true
    → text_eq t.token_hash h ≡ false
unfolding is_spent find_where any_where
other-digest h t [] fresh s = cc
other-digest h t (r ∷ rows) fresh s = elim (Bool-cases (text_eq t.token_hash h)) [
  | inl same ↦
      let e = (text_eq_iff t.token_hash h).0 same in ground (arith, e, other-digest h t rows)
  | inr other ↦ other
]

spent_behind :
    (h : Text) (t : RefreshTokenModel) (rows : List RefreshTokenModel)
    → text_eq t.token_hash h ≡ false
    → is_spent h rows ≡ true
    → is_spent h (t ∷ rows) ≡ true
unfolding is_spent find_where
spent_behind h t rows other s = ground arith

add_refresh-spent :
    (h : Text) (id u : Uuid) (g : Text) (e : Instant) (db : Database)
    → is_spent h db.refresh_tokens ≡ true
    → is_spent h (add_refresh id u g e db).1.refresh_tokens ≡ true
unfolding add_refresh refresh_refused
add_refresh-spent h id u g e db s =
    let t = new_refresh id u g e in
    ground (arith, other-digest h t db.refresh_tokens, spent_behind h t db.refresh_tokens)

rotate-spent :
    (h : Text) (id : Uuid) (g g' : Text) (e now : Instant) (db : Database)
    → is_spent h db.refresh_tokens ≡ true
    → is_spent h (rotate id g g' e now db).1.refresh_tokens ≡ true
unfolding rotate refresh_refused
rotate-spent h id g g' e now db s =
    elim (Option-cases (find_where (has_hash g) db.refresh_tokens)) [
      | inl absent ↦ rw (absent, rotate) s
      | inr (m, found) ↦
          let t = new_refresh id m.user_id g' e in
          let f =
            λ (r : RefreshTokenModel). record r { revoked_at = some now; replaced_by = some id } in
          let p = λ (r : RefreshTokenModel). r.id == m.id in
          let old = spent-update_where h p f db.refresh_tokens (λ r. refl) (λ r. refl) s in
          ground (
            arith,
            other-digest h t db.refresh_tokens,
            spent_behind h t (update_where p f db.refresh_tokens),
          )
    ]

revoke-spent :
    (h g : Text) (now : Instant) (db : Database)
    → is_spent h db.refresh_tokens ≡ true
    → is_spent h (revoke g now db).1.refresh_tokens ≡ true
unfolding revoke
revoke-spent h g now db s = elim (Option-cases (find_where (has_hash g) db.refresh_tokens)) [
  | inl absent ↦ rw (absent, revoke) s
  | inr (m, found) ↦
      let f = λ (r : RefreshTokenModel). record r { revoked_at = some now } in
      let p = λ (r : RefreshTokenModel). r.id == m.id in
      let old = spent-update_where h p f db.refresh_tokens (λ r. refl) (λ r. refl) s in ground arith
]

other_replacement :
    (h : Text) (t : RefreshTokenModel) (rows : List RefreshTokenModel) (m : RefreshTokenModel)
    → any_where (λ (r : RefreshTokenModel). r.id == t.id || has_hash t.token_hash r) rows ≡ false
    → find_where (has_hash h) rows ≡ some m
    → text_eq t.token_hash h ≡ false
unfolding find_where any_where
other_replacement h t [] m fresh s = cc
other_replacement h t (r ∷ rows) m fresh s = elim (Bool-cases (text_eq t.token_hash h)) [
  | inl same ↦
      let e = (text_eq_iff t.token_hash h).0 same in ground (arith, e, other_replacement h t rows m)
  | inr other ↦ other
]

-- every call that writes the table
pub data Call : Type 0 where
  adding : Uuid → Uuid → Text → Instant → Call
  rotating : Uuid → Text → Text → Instant → Instant → Call
  revoking : Text → Instant → Call
  ending : Uuid → Instant → Call

pub after_call : Call → Database → Database
after_call (adding id u g e) db = (add_refresh id u g e db).1
after_call (rotating id g g' e now) db = (rotate id g g' e now db).1
after_call (revoking g now) db = (revoke g now db).1
after_call (ending u now) db = (revoke_all_for_user u now db).1

pub after_calls : List Call → Database → Database
after_calls [] db = db
after_calls (c ∷ rest) db = after_calls rest (after_call c db)

after_call-spent :
    (h : Text) (c : Call) (db : Database)
    → is_spent h db.refresh_tokens ≡ true
    → is_spent h (after_call c db).refresh_tokens ≡ true
unfolding after_call revoke_all_for_user
after_call-spent h (adding id u g e) db s = add_refresh-spent h id u g e db s
after_call-spent h (rotating id g g' e now) db s = rotate-spent h id g g' e now db s
after_call-spent h (revoking g now) db s = revoke-spent h g now db s
after_call-spent h (ending u now) db s =
    spent-update_where h (λ (r : RefreshTokenModel). r.user_id == u && is_none r.revoked_at)
      (λ r. record r { revoked_at = some now }) db.refresh_tokens (λ r. refl) (λ r. refl) s

pub after_calls-spent :
    (h : Text) (calls : List Call) (db : Database)
    → is_spent h db.refresh_tokens ≡ true
    → is_spent h (after_calls calls db).refresh_tokens ≡ true
unfolding after_calls
after_calls-spent h [] db s = s
after_calls-spent h (c ∷ rest) db s =
    after_calls-spent h rest (after_call c db) (after_call-spent h c db s)

pub spent_refuses :
    (h : Text) (id : Uuid) (g : Text) (e now : Instant) (db : Database)
    → is_spent h db.refresh_tokens ≡ true
    → rotate id h g e now db ≡ (ok none, db)
unfolding rotate is_spent
spent_refuses h id g e now db s = ground arith

spent_of_rotate :
    (id : Uuid) (h g : Text) (e now : Instant) (db : Database) (u : Uuid)
    → (rotate id h g e now db).0 ≡ ok (some u)
    → is_spent h (rotate id h g e now db).1.refresh_tokens ≡ true
unfolding rotate refresh_refused
spent_of_rotate id h g e now db u done =
    elim (Option-cases (find_where (has_hash h) db.refresh_tokens)) [
      | inl absent ↦ absurd (ground arith)
      | inr (m, found) ↦
          let t = new_refresh id m.user_id g e in
          let f =
            λ (r : RefreshTokenModel). record r { revoked_at = some now; replaced_by = some id } in
          let old = spent_of_write h f db.refresh_tokens m (λ r. refl) (λ r. refl) found in
          ground (
            arith,
            other_replacement h t db.refresh_tokens m,
            spent_behind h t
                (update_where (λ (r : RefreshTokenModel). r.id == m.id) f db.refresh_tokens),
          )
    ]

-- Once a refresh token has been rotated with success, no later rotation of it succeeds, whatever
-- calls of the repository come between, at whatever times: it answers `None` and writes nothing.
pub rotate_once :
    (id : Uuid) (h g : Text) (e now : Instant) (db : Database) (u : Uuid) (calls : List Call)
    (id' : Uuid) (g' : Text) (e' now' : Instant)
    → (rotate id h g e now db).0 ≡ ok (some u)
    → let later = after_calls calls (rotate id h g e now db).1 in
      rotate id' h g' e' now' later ≡ (ok none, later)
rotate_once id h g e now db u calls id' g' e' now' done =
    spent_refuses h id' g' e' now' (after_calls calls (rotate id h g e now db).1) (
      after_calls-spent h calls (rotate id h g e now db).1 (spent_of_rotate id h g e now db u done))
