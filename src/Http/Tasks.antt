-- ===== src/Http/Tasks.antt =====
-- What runs once a reply has gone out. FastAPI runs the tasks of a request in their order, and an
-- `HTTPException` or a crash leaves none.
use accountant_backend.Prelude.{ℕ, suc, List, [], ◌∷◌}
use accountant_backend.Mail.{Postal}
use accountant_backend.Identity.Mails.{
  deliver_password_reset, deliver_email_change_warning, deliver_email_change_notice,
}
use accountant_backend.Notifications.Runtime.{notify_budget_limit}
use accountant_backend.Http.{
  App, Chance, World, Task, password_reset_task, change_warning_task, change_notice_task,
  budget_limit_task, Reply, Http, respond,
}

-- a task on the rows and the outbox
abbrev on_mails : (Postal → Postal) → World → World
on_mails f w =
    let s = f (record { db = w.db; outbox = w.outbox }) in record w { db = s.db; outbox = s.outbox }

module _ (app : App) (chance : Chance) where
  -- the task that is the `n`th of its request
  unfoldable pub run_task : ℕ → Task → World → World
  unfolding deliver_password_reset deliver_email_change_warning deliver_email_change_notice
      notify_budget_limit
  run_task n (password_reset_task email) w =
      on_mails
        (deliver_password_reset app.services app.settings app.accepts (chance.uuid n)
          (chance.secret n) (chance.now n) email)
        w
  run_task n (change_warning_task user new_email) w =
      on_mails (deliver_email_change_warning app.services app.settings app.accepts user new_email) w
  run_task n (change_notice_task user previous_email) w =
      on_mails
        (deliver_email_change_notice app.services app.settings app.accepts user previous_email) w
  run_task n (budget_limit_task user_id category_id) w =
      on_mails
        (notify_budget_limit app.settings app.accepts app.services.lower app.zone app.name_le
          (chance.uuid n) (chance.now n) user_id category_id)
        w

  unfoldable pub run_tasks : ℕ → List Task → World → World
  unfolding run_task
  run_tasks n [] w = w
  run_tasks n (task ∷ tasks) w = run_tasks (suc n) tasks (run_task n task w)

  -- the reply to a request, and the state that it leaves behind
  unfoldable pub complete : Http Reply → World → Reply × World
  unfolding respond run_tasks
  complete handler w =
      let (a, after) = handler w in let r = respond a in (r, run_tasks 100 r.tasks after)
