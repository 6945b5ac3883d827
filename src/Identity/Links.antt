-- ===== src/Identity/Links.antt =====
-- A link of a mailed password reset works once, and a new one retires the older ones.
use accountant_backend.Prelude.{
  ◌≡◌, Bool, true, false, ◌||◌, none, some, is_some, List, [], ◌∷◌, arith, Text, text_eq,
  text_eq_iff, any_where, find_where, update_where, ◌==◌, inl, inr, ◌⊎◌, Bool-cases, Option-cases,
  ok, raised, integrity_error, raised-ne-ok, sym, ap, ◌∙◌,
}
use accountant_backend.Domain.{Uuid, Instant}
use accountant_backend.Schema.{PasswordResetTokenModel, Database}
use accountant_backend.Ledger.Categories.{user_exists}
use accountant_backend.Identity.Tokens.{has_reset_hash, retire_resets, replace_reset, consume_reset}

-- the digest is known, and its row is used
pub is_used : Text → List PasswordResetTokenModel → Bool
is_used h rows = elim (find_where (has_reset_hash h) rows) [
  | none ↦ false
  | some m ↦ is_some m.used_at
]

abbrev mark : Instant → PasswordResetTokenModel → PasswordResetTokenModel
mark now t = record t { used_at = some now }

used-mark :
    (h : Text) (p : PasswordResetTokenModel → Bool) (now : Instant)
    (rows : List PasswordResetTokenModel)
    → is_used h rows ≡ true
    → is_used h (update_where p (mark now) rows) ≡ true
unfolding is_used find_where update_where
used-mark h p now [] s = s
used-mark h p now (r ∷ rows) s = ground (arith, used-mark h p now rows)

-- marking every row that has a property uses the digest whose row has it
used_of_mark :
    (h : Text) (p : PasswordResetTokenModel → Bool) (now : Instant)
    (rows : List PasswordResetTokenModel) (m : PasswordResetTokenModel)
    → find_where (has_reset_hash h) rows ≡ some m
    → p m ≡ true
    → is_used h (update_where p (mark now) rows) ≡ true
unfolding is_used find_where update_where
used_of_mark h p now [] m found holds = cc
used_of_mark h p now (r ∷ rows) m found holds = ground (arith, used_of_mark h p now rows m)

-- a row that is not the digest's is in nobody's way
used_behind :
    (h : Text) (t : PasswordResetTokenModel) (rows : List PasswordResetTokenModel)
    → text_eq t.token_hash h ≡ false
    → is_used h rows ≡ true
    → is_used h (t ∷ rows) ≡ true
unfolding is_used find_where
used_behind h t rows other s = ground arith

other_link :
    (h g : Text) (id : Uuid) (rows : List PasswordResetTokenModel) (m : PasswordResetTokenModel)
    → any_where (λ (t : PasswordResetTokenModel). t.id == id || has_reset_hash g t) rows ≡ false
    → find_where (has_reset_hash h) rows ≡ some m
    → text_eq g h ≡ false
unfolding find_where any_where
other_link h g id [] m fresh s = cc
other_link h g id (r ∷ rows) m fresh s = elim (Bool-cases (text_eq g h)) [
  | inl same ↦ let e = (text_eq_iff g h).0 same in ground (arith, e, other_link h g id rows m)
  | inr other ↦ other
]

found_of_used :
    (h : Text) (rows : List PasswordResetTokenModel)
    → is_used h rows ≡ true
    → (m : PasswordResetTokenModel) × (find_where (has_reset_hash h) rows ≡ some m)
unfolding is_used
found_of_used h rows s = elim (Option-cases (find_where (has_reset_hash h) rows)) [
  | inl absent ↦ absurd (ground arith)
  | inr (m, found) ↦ (m, found)
]

abbrev new_link : Uuid → Uuid → Text → Instant → PasswordResetTokenModel
new_link id u g e = record { id = id; user_id = u; token_hash = g; expires_at = e; used_at = none }

-- a digest that is found, and used once the user's links are retired, is used after the call
used_of_replace :
    (h : Text) (id u : Uuid) (g : Text) (e now : Instant) (db : Database)
    (m : PasswordResetTokenModel)
    → find_where (has_reset_hash h) db.password_reset_tokens ≡ some m
    → is_used h (retire_resets u now db.password_reset_tokens) ≡ true
    → (replace_reset id u g e now db ≡ (raised integrity_error, db))
      ⊎ (is_used h (replace_reset id u g e now db).1.password_reset_tokens ≡ true)
unfolding replace_reset
used_of_replace h id u g e now db m found retired =
    elim (Bool-cases (
      any_where (λ (t : PasswordResetTokenModel). t.id == id || has_reset_hash g t)
        db.password_reset_tokens)) [
          | inl clash ↦ inl (ground arith)
          | inr fresh ↦ elim (Bool-cases (user_exists db u)) [
            | inr nobody ↦ inl (ground arith)
            | inl known ↦
                let other = other_link h g id db.password_reset_tokens m fresh found in
                let kept =
                  used_behind h (new_link id u g e) (retire_resets u now db.password_reset_tokens)
                    other retired in
                inr (ground arith)
          ]
        ]

replace-used :
    (h : Text) (id u : Uuid) (g : Text) (e now : Instant) (db : Database)
    → is_used h db.password_reset_tokens ≡ true
    → is_used h (replace_reset id u g e now db).1.password_reset_tokens ≡ true
replace-used h id u g e now db s =
    let (m, found) = found_of_used h db.password_reset_tokens s in
    elim (used_of_replace h id u g e now db m found
      (used-mark h _ now db.password_reset_tokens s)) [ inl same ↦ rw same s | inr holds ↦ holds ]

consume-used :
    (h g : Text) (now : Instant) (db : Database)
    → is_used h db.password_reset_tokens ≡ true
    → is_used h (consume_reset g now db).1.password_reset_tokens ≡ true
unfolding consume_reset
consume-used h g now db s =
    elim (Option-cases (find_where (has_reset_hash g) db.password_reset_tokens)) [
      | inl absent ↦ rw (absent, consume_reset) s
      | inr (m, found) ↦
          let old =
            used-mark h (λ (t : PasswordResetTokenModel). t.id == m.id) now db.password_reset_tokens
              s in
          ground arith
    ]

-- every call that writes the table
pub data Call : Type 0 where
  replacing : Uuid → Uuid → Text → Instant → Instant → Call
  consuming : Text → Instant → Call

unfoldable pub after_calls : List Call → Database → Database
unfolding replace_reset consume_reset
after_calls [] db = db
after_calls (replacing id u g e now ∷ rest) db = after_calls rest (replace_reset id u g e now db).1
after_calls (consuming g now ∷ rest) db = after_calls rest (consume_reset g now db).1

after_calls-used :
    (h : Text) (calls : List Call) (db : Database)
    → is_used h db.password_reset_tokens ≡ true
    → is_used h (after_calls calls db).password_reset_tokens ≡ true
unfolding after_calls
after_calls-used h [] db s = s
after_calls-used h (replacing id u g e now ∷ rest) db s =
    after_calls-used h rest (replace_reset id u g e now db).1 (replace-used h id u g e now db s)
after_calls-used h (consuming g now ∷ rest) db s =
    after_calls-used h rest (consume_reset g now db).1 (consume-used h g now db s)

used_refuses :
    (h : Text) (now : Instant) (db : Database)
    → is_used h db.password_reset_tokens ≡ true
    → consume_reset h now db ≡ (ok none, db)
unfolding consume_reset is_used
used_refuses h now db s = ground arith

used_of_consume :
    (h : Text) (now : Instant) (db : Database) (u : Uuid)
    → (consume_reset h now db).0 ≡ ok (some u)
    → is_used h (consume_reset h now db).1.password_reset_tokens ≡ true
unfolding consume_reset
used_of_consume h now db u done =
    elim (Option-cases (find_where (has_reset_hash h) db.password_reset_tokens)) [
      | inl absent ↦ absurd (ground arith)
      | inr (m, found) ↦
          let old =
            used_of_mark h (λ (t : PasswordResetTokenModel). t.id == m.id) now
              db.password_reset_tokens m found (ground arith) in
          ground arith
    ]

used_of_retire :
    (h : Text) (u : Uuid) (now : Instant) (rows : List PasswordResetTokenModel)
    (m : PasswordResetTokenModel)
    → find_where (has_reset_hash h) rows ≡ some m
    → m.user_id ≡ u
    → is_used h (retire_resets u now rows) ≡ true
unfolding is_used find_where update_where
used_of_retire h u now [] m found own = cc
used_of_retire h u now (r ∷ rows) m found own = ground (arith, used_of_retire h u now rows m)

-- Once the token of a mailed reset has been spent with success, no later attempt to spend it
-- succeeds, whatever calls of the repository come between, at whatever times.
pub consume_once :
    (h : Text) (now : Instant) (db : Database) (u : Uuid) (calls : List Call) (now' : Instant)
    → (consume_reset h now db).0 ≡ ok (some u)
    → let later = after_calls calls (consume_reset h now db).1 in
      consume_reset h now' later ≡ (ok none, later)
consume_once h now db u calls now' done =
    used_refuses h now' (after_calls calls (consume_reset h now db).1)
      (after_calls-used h calls (consume_reset h now db).1 (used_of_consume h now db u done))

-- Once a new token has been issued to a user, no token that the user already had can be spent,
-- whatever calls of the repository come between, at whatever times.
pub replace_retires :
    (id u : Uuid) (g : Text) (e now : Instant) (db : Database) (h : Text)
    (m : PasswordResetTokenModel) (calls : List Call) (now' : Instant)
    → find_where (has_reset_hash h) db.password_reset_tokens ≡ some m
    → m.user_id ≡ u
    → (replace_reset id u g e now db).0 ≡ ok tt
    → let later = after_calls calls (replace_reset id u g e now db).1 in
      consume_reset h now' later ≡ (ok none, later)
replace_retires id u g e now db h m calls now' found own done =
    used_refuses h now' (after_calls calls (replace_reset id u g e now db).1)
      (after_calls-used h calls (replace_reset id u g e now db).1 used)
  where
    retired : is_used h (retire_resets u now db.password_reset_tokens) ≡ true
    retired = used_of_retire h u now db.password_reset_tokens m found own

    used : is_used h (replace_reset id u g e now db).1.password_reset_tokens ≡ true
    used = elim (used_of_replace h id u g e now db m found retired) [
      | inl refused ↦ absurd (raised-ne-ok (sym (ap (λ p. p.0) refused) ∙ done))
      | inr holds ↦ holds
    ]
