-- ===== src/Examples/Limits.antt =====
-- The limiter at two attempts on one key.
use accountant_backend.Prelude.{
  ℕ, ◌+◌, ◌*◌, ◌≡◌, refl, arith, Text, codes, List, [], ◌∷◌, length, select_where, text_eq,
}
use accountant_backend.RateLimit.{second, peek, within_quota, locked_for}
use accountant_backend.RateLimit.Window.{live}
use accountant_backend.RateLimit.Answers.{
  Step, recording, resetting, peeking, run, attempts, IsTimed, answer, peek_answers, waiting_helps,
}

abbrev pub minute : Text → ℕ
minute key = 60

abbrev pub ada_key : Text
ada_key = codes "login:ada"

abbrev past : List Step
past =
    recording ada_key (20 * second)
    ∷ recording (codes "login:eve") (15 * second)
    ∷ recording ada_key (10 * second)
    ∷ resetting ada_key
    ∷ []

past-IsTimed : IsTimed minute past (30 * second)
past-IsTimed = (omega arith, (omega arith, (omega arith, tt)))

two_live : length (live 60 (30 * second) (attempts minute past ada_key)) ≡ 2
unfolding attempts select_where text_eq
two_live = refl

locked : (peek ada_key 2 60 (30 * second) (run minute past)).0 ≡ locked_for 40
unfolding peek run text_eq
locked = refl

peek_answers_example :
    (peek ada_key 2 60 (30 * second) (run minute past)).0
    ≡ answer 2 60 (30 * second) (live 60 (30 * second) (attempts minute past ada_key))
peek_answers_example = peek_answers minute past ada_key 2 (30 * second) past-IsTimed

waiting_helps_example :
    (peek ada_key 2 60
      (30 * second + 40 * second)
      (run minute (peeking ada_key 2 (30 * second) ∷ past))).0
    ≡ within_quota
waiting_helps_example =
    waiting_helps minute past ada_key 2 (30 * second) 40 past-IsTimed two_live locked
