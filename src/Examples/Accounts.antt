-- ===== src/Examples/Accounts.antt =====
-- The theorems on accounts and sessions at the sample.
use accountant_backend.Prelude.{
  any_where, ◌≡◌, ◌≢◌, ◌⊎◌, ◌<◌, refl, true, ok, raised, Error, none, some, [], ◌∷◌, List, codes,
  text_eq, find_where,
}
use accountant_backend.Domain.{User}
use accountant_backend.Schema.{PasswordResetTokenModel}
use accountant_backend.Identity.Users.{user_to_domain, new_user, get_by_id}
use accountant_backend.Identity.Tokens.{rotate, has_reset_hash, consume_reset, replace_reset}
use accountant_backend.Identity.Links
use accountant_backend.Identity.Links.{consume_once, replace_retires}
use accountant_backend.Identity.Sessions.{
  register_user, login_user, change_password, reset_password,
}
use accountant_backend.Identity.Spent.{Call, adding, ending, after_calls, rotate_once}
use accountant_backend.Identity.Access.{
  IsLockedOut, IsBarred, rotate-IsBarred, change_password_outcome, reset_password_outcome,
  register_then_login,
}
use accountant_backend.Examples.{sample, plain, user_role, reset_link}

abbrev calls : List Call
calls = adding 42 1 (codes "s3") 9000 ∷ ending 1 150 ∷ []

rotated : (rotate 41 (codes "s1") (codes "s2") 9000 100 sample).0 ≡ ok (some 1)
unfolding rotate
rotated = refl

rotate_once_example :
    let later = after_calls calls (rotate 41 (codes "s1") (codes "s2") 9000 100 sample).1 in
    rotate 43 (codes "s1") (codes "s4") 9000 200 later ≡ (ok none, later)
rotate_once_example =
    rotate_once 41 (codes "s1") (codes "s2") 9000 100 sample 1 calls 43 (codes "s4") 9000 200
      rotated

-- the session of the sample has expired by then
barred : IsBarred 1 99999 sample
unfolding any_where
barred = refl

rotate-IsBarred_example : (rotate 41 (codes "s1") (codes "s2") 100000 99999 sample).0 ≢ ok (some 1)
rotate-IsBarred_example = rotate-IsBarred 1 41 (codes "s1") (codes "s2") 100000 99999 sample barred

change_password_outcome_example :
    let (r, after) = change_password plain 1 (codes "engine") (codes "loom") 200 201 sample in
    ((e : Error) × (r ≡ raised e) × (after ≡ sample))
    ⊎ ((old user : User) × (r ≡ ok user)
        × (get_by_id sample 1 ≡ some old)
        × (plain.verify (codes "engine") old.password_hash ≡ true)
        × (get_by_id after 1 ≡ some user)
        × (user.password_hash ≡ plain.hash_password (codes "loom"))
        × IsLockedOut 1 after)
change_password_outcome_example =
    change_password_outcome plain 1 (codes "engine") (codes "loom") 200 201 sample

reset_password_outcome_example :
    let (r, after) = reset_password plain (codes "r1") (codes "loom") 200 201 sample in
    ((e : Error) × (r ≡ raised e)
      × (after.users ≡ sample.users)
      × (after.refresh_tokens ≡ sample.refresh_tokens))
    ⊎ ((spent : PasswordResetTokenModel) × (user : User) × (r ≡ ok user)
        × (find_where (has_reset_hash (plain.hash_token (codes "r1"))) sample.password_reset_tokens
            ≡ some spent)
        × (spent.used_at ≡ none)
        × (200 < spent.expires_at)
        × (user.is_active ≡ true)
        × (get_by_id after spent.user_id ≡ some user)
        × (user.password_hash ≡ plain.hash_password (codes "loom"))
        × IsLockedOut spent.user_id after)
reset_password_outcome_example =
    reset_password_outcome plain (codes "r1") (codes "loom") 200 201 sample

abbrev grace : User
grace =
    user_to_domain (new_user 2 300 (codes "grace@bank.org") (codes "Grace") (codes "bug") user_role)

registered :
    (register_user plain 2 300 (codes " grace@bank.org") (codes "Grace ") (codes "bug") sample).0
    ≡ ok grace
unfolding register_user
registered = refl

verified : plain.verify (codes "bug") (plain.hash_password (codes "bug")) ≡ true
unfolding text_eq
verified = refl

register_then_login_example :
    let after =
      (register_user plain 2 300
        (codes " grace@bank.org")
        (codes "Grace ")
        (codes "bug")
        sample).1 in
    login_user plain (codes " grace@bank.org") (codes "bug") after ≡ (ok grace, after)
register_then_login_example =
    register_then_login plain 2 300 (codes " grace@bank.org") (codes "Grace ") (codes "bug") sample
      grace verified registered

abbrev requests : List Links.Call
requests = Links.replacing 52 1 (codes "r3") 9000 160 ∷ Links.consuming (codes "r3") 170 ∷ []

spent : (consume_reset (codes "r1") 100 sample).0 ≡ ok (some 1)
unfolding consume_reset
spent = refl

consume_once_example :
    let later = Links.after_calls requests (consume_reset (codes "r1") 100 sample).1 in
    consume_reset (codes "r1") 180 later ≡ (ok none, later)
consume_once_example = consume_once (codes "r1") 100 sample 1 requests 180 spent

link_found : find_where (has_reset_hash (codes "r1")) sample.password_reset_tokens ≡ some reset_link
unfolding find_where text_eq
link_found = refl

replaced : (replace_reset 51 1 (codes "r2") 9000 150 sample).0 ≡ ok tt
unfolding replace_reset
replaced = refl

replace_retires_example :
    let later = Links.after_calls requests (replace_reset 51 1 (codes "r2") 9000 150 sample).1 in
    consume_reset (codes "r1") 180 later ≡ (ok none, later)
replace_retires_example =
    replace_retires 51 1 (codes "r2") 9000 150 sample (codes "r1") reset_link requests 180
      link_found refl replaced
