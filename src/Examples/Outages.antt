-- ===== src/Examples/Outages.antt =====
-- The shared limiter with a server that replies to the first command only.
use accountant_backend.Prelude.{
  ◌*◌, ◌≡◌, refl, arith, some, none, List, [], ◌∷◌, pos, Text, codes, text_eq,
}
use accountant_backend.RateLimit.{second}
use accountant_backend.RateLimit.Window.{live}
use accountant_backend.RateLimit.Answers.{Step, recording, answer, attempts, IsTimed}
use accountant_backend.RateLimit.Shared.{Server, record_shared, peek_script, full_key, peek_shared}
use accountant_backend.RateLimit.Outage.{
  run_shared, on_reply, unanswered, reply_after, outage_answers,
}
use accountant_backend.RateLimit.Noted.{IsNoted, run_shared-IsNoted}
use accountant_backend.Examples.Limits.{minute, ada_key}

abbrev first_only : Server
first_only [] command = some (pos 1)
first_only (_ ∷ _) command = none

abbrev member : List Step → Text
member past = codes "f0"

abbrev calls : List Step
calls = recording ada_key (20 * second) ∷ recording ada_key (10 * second) ∷ []

calls-IsTimed : IsTimed minute calls (30 * second)
calls-IsTimed = (omega arith, (omega arith, tt))

one_unanswered :
    attempts minute (unanswered first_only member minute calls) ada_key ≡ 20 * second ∷ []
unfolding attempts unanswered on_reply run_shared full_key record_shared text_eq
one_unanswered = refl

lost_call :
    reply_after first_only member minute calls (peek_script (full_key ada_key) 1 (60 * 1000)) ≡ none
unfolding run_shared record_shared full_key
lost_call = refl

outage_answers_example :
    (peek_shared first_only ada_key 1 60
      (30 * second)
      (run_shared first_only member minute calls)).0
    ≡ answer 1 60 (30 * second) (
        live 60 (30 * second) (attempts minute (unanswered first_only member minute calls) ada_key))
outage_answers_example =
    outage_answers first_only member minute calls ada_key 1 (30 * second) calls-IsTimed lost_call

run_shared-IsNoted_example : IsNoted first_only (run_shared first_only member minute calls)
run_shared-IsNoted_example = run_shared-IsNoted first_only member minute calls
