-- ===== src/Api/Schedules.antt =====
-- The registry and the cron library, whatever requests are handled.
use breckr.Base.{
  Text, ℕ, Bool, Option, none, some, List, Result, ok, err, on_if, on_option, on_result, refl,
  lookup, Text_eq,
}
use breckr.Types.Task.{Task}
use breckr.Spec.{Parsers}
use breckr.Store.Database.{Driver, Error}
use breckr.Store.Tasks.{get_task, update_task, delete_task, UpdateTaskInput, is_empty_patch}
use breckr.Scheduler.Cron.{CronLib}
use breckr.Scheduler.{Registry, register, unregister, set_enabled, enable_entry}
use breckr.Scheduler.Invariant.{Inv}
use breckr.Scheduler.Keeps.{remove_locked-Cleared, register_spec-Inv, enable_entry-Inv}
use breckr.Api.Requests.{
  CreateTaskRequest, UpdateTaskRequest, Response, validate_create, build_patch,
  validate_channel_ids,
}
use breckr.Api.Tasks.{
  ServerState, CreateAnswers, UpdateAnswers, arm_created, create_checked, handle_create_task,
  reschedule, write_row, switch_row, update_with, update_channels, update_existing,
  handle_update_task, delete_existing, handle_delete_task,
}

module _ {C : Type 0} (lib : CronLib C) (timeout : ℕ) (p : Parsers) where
  abbrev pub InvIn : ServerState C → Type 0
  InvIn w = Inv lib w.registry

  abbrev InvAfter : ServerState C × Response → Type 0
  InvAfter x = Inv lib x.0.registry

  register-Inv : (t : Task) (r : Registry C) → Inv lib r → Inv lib (register lib timeout t r).0
  unfolding register
  register-Inv t r v = register_spec-Inv lib timeout t t.spec r v

  arm_created-Inv :
      (ids : List Text) (w : ServerState C) (x : Result Error (Option Task))
      → InvIn w
      → InvAfter (arm_created lib timeout p ids w x)
  unfolding arm_created
  arm_created-Inv ids w (err e) v = v
  arm_created-Inv ids w (ok none) v = v
  arm_created-Inv ids w (ok (some t)) v = register-Inv t w.registry v

  pub handle_create_task-Inv :
      (d : CreateAnswers) (body : Option CreateTaskRequest) (w : ServerState C)
      → InvIn w
      → InvAfter (handle_create_task lib timeout p d body w)
  unfolding handle_create_task create_checked
  handle_create_task-Inv d none w v = v
  handle_create_task-Inv d (some body) w v =
      on_result InvAfter (validate_create p body) _ _ (λ field _. v)
        (λ input _.
          on_result InvAfter (get_task d.get input.id w.db) _ _ (λ e _. v)
            (λ existing _.
              on_option InvAfter existing _ _
                (λ _.
                  on_result InvAfter (validate_channel_ids d.channels body.channel_ids w.db) _ _
                    (λ f _. v) (λ ids _. arm_created-Inv ids _ _ v))
                (λ t _. v)))

  reschedule-Inv :
      (x : Result Error (Option Task)) (w : ServerState C)
      → InvIn w
      → InvIn (reschedule lib timeout p x w)
  unfolding reschedule
  reschedule-Inv (err e) w v = v
  reschedule-Inv (ok none) w v = v
  reschedule-Inv (ok (some t)) w v = register-Inv t w.registry v

  write_row-Inv :
      (d : UpdateAnswers) (id : Text) (was : Bool) (enabled : Option Bool) (patch : UpdateTaskInput)
      (w : ServerState C)
      → InvIn w
      → InvAfter (write_row lib timeout p d id was enabled patch w)
  unfolding write_row
  write_row-Inv d id was enabled patch w v =
      on_result InvAfter (update_task d.write d.reread id patch w.db).1 _ _ (λ e _. v)
        (λ t _. reschedule-Inv _ _ v)

  switch_row-Inv :
      (d : UpdateAnswers) (id : Text) (was : Bool) (enabled : Option Bool) (w : ServerState C)
      → InvIn w
      → InvAfter (switch_row lib timeout p d id was enabled w)
  unfolding switch_row set_enabled
  switch_row-Inv d id was none w v = v
  switch_row-Inv d id was (some on) w v =
      let kept =
        enable_entry-Inv lib timeout id on (lookup id w.registry.entries) w.registry refl v in
      on_if InvAfter (enable_entry lib timeout id on (lookup id w.registry.entries) w.registry).1 _
        _ kept kept

  update_with-Inv :
      (d : UpdateAnswers) (id : Text) (was : Bool) (enabled : Option Bool) (patch : UpdateTaskInput)
      (w : ServerState C)
      → InvIn w
      → InvAfter (update_with lib timeout p d id was enabled patch w)
  unfolding update_with
  update_with-Inv d id was enabled patch w v =
      on_if InvAfter (is_empty_patch patch) _ _ (switch_row-Inv d id was enabled w v)
        (write_row-Inv d id was enabled patch w v)

  update_channels-Inv :
      (d : UpdateAnswers) (id : Text) (was : Bool) (body : UpdateTaskRequest)
      (patch : UpdateTaskInput) (w : ServerState C)
      → InvIn w
      → InvAfter (update_channels lib timeout p d id was body patch w)
  unfolding update_channels
  update_channels-Inv d id was body patch w v =
      on_option InvAfter body.channel_ids _ _ (λ _. update_with-Inv d id was body.enabled patch w v)
        (λ ids _.
          on_result InvAfter (validate_channel_ids d.channels ids w.db) _ _ (λ f _. v)
            (λ cs _.
              update_with-Inv d id was body.enabled (record patch { channel_ids = some cs }) w v))

  update_existing-Inv :
      (d : UpdateAnswers) (id : Text) (t : Task) (body : Option UpdateTaskRequest)
      (w : ServerState C)
      → InvIn w
      → InvAfter (update_existing lib timeout p d id t body w)
  unfolding update_existing
  update_existing-Inv d id t none w v = v
  update_existing-Inv d id t (some body) w v =
      on_result InvAfter (build_patch p body) _ _ (λ f _. v)
        (λ patch _. update_channels-Inv d id t.enabled body patch w v)

  pub handle_update_task-Inv :
      (d : UpdateAnswers) (id : Text) (body : Option UpdateTaskRequest) (w : ServerState C)
      → InvIn w
      → InvAfter (handle_update_task lib timeout p d id body w)
  unfolding handle_update_task
  handle_update_task-Inv d id body w v =
      on_result InvAfter (get_task d.get id w.db) _ _ (λ e _. v)
        (λ row _. on_option InvAfter row _ _ (λ _. v) (λ t _. update_existing-Inv d id t body w v))

  pub handle_delete_task-Inv :
      (d1 d2 : Driver) (id : Text) (w : ServerState C)
      → InvIn w
      → InvAfter (handle_delete_task lib timeout p d1 d2 id w)
  unfolding handle_delete_task delete_existing unregister
  handle_delete_task-Inv d1 d2 id w v =
      let gone = (remove_locked-Cleared lib timeout id w.registry v).0 in
      on_result InvAfter (get_task d1 id w.db) _ _ (λ e _. v)
        (λ row _.
          on_option InvAfter row _ _ (λ _. v)
            (λ t _. on_result InvAfter (delete_task d2 id w.db).1 _ _ (λ e _. gone) (λ b _. gone)))
