-- ===== src/Api/Events/EventBuffer/Tests.antt =====
-- Runs of the event buffer (api/src/events/event-buffer.service.ts), and its theorems at them.
use staminads.Common.{ℕ, String, ◌≡◌, refl, true, false, some, List, [], ◌∷◌}
use staminads.Common.Dict.{get, put, remove, has}
use staminads.Api.Events.EventBuffer.{
  items, begin_flush, start_flush_timer, stop_flush_timer, add, flush_succeeded, flush_failed,
  group_by_workspace, flatten_groups, batch_order,
}
use staminads.Api.Events.EventBuffer.AddBatch.{Await, await_add, add_each, add_batch}
use staminads.Api.Events.EventBuffer.World.{
  World, add_step, flush_step, success_step, failure_step, idle, Reach, start, next, adding, timer,
  failure,
}
use staminads.Api.Events.EventBuffer.Conservation.{IsConserved}
use staminads.Api.Events.EventBuffer.Delivery.{Reach-IsConserved}

event_buffer : Unit {0}
unfolding begin_flush start_flush_timer stop_flush_timer add flush_succeeded flush_failed
    group_by_workspace flatten_groups batch_order get put remove add_step flush_step success_step
    failure_step
event_buffer = tt

-- An event is its workspace and a number.
abbrev Event : Type 0
Event = String × ℕ

abbrev workspace_of : Event → String
workspace_of e = e.0

abbrev one : World Event
one = add_step workspace_of ("a", 1) idle

abbrev flying : World Event
flying = flush_step "a" one

abbrev two : World Event
two = add_step workspace_of ("a", 2) flying

abbrev back : World Event
back = failure_step "a" (("a", 1) ∷ []) two

retried_in_order : items back.buffer.buffers "a" ≡ ("a", 1) ∷ ("a", 2) ∷ []
unfolding event_buffer
retried_in_order = refl

timer_set : has one.buffer.flush_timers "a" ≡ true
unfolding event_buffer
timer_set = refl

in_flight : get two.in_flight "a" ≡ some (("a", 1) ∷ [])
unfolding event_buffer
in_flight = refl

run : Reach workspace_of back
run =
    next (next (next (next start (adding ("a", 1))) (timer "a" timer_set)) (adding ("a", 2)))
      (failure "a" (("a", 1) ∷ []) in_flight)

Reach-IsConserved_example : IsConserved back
Reach-IsConserved_example = Reach-IsConserved workspace_of back run

abbrev mixed : List Event
mixed = ("a", 1) ∷ ("b", 2) ∷ ("a", 3) ∷ []

grouped : batch_order workspace_of mixed ≡ ("a", 1) ∷ ("a", 3) ∷ ("b", 2) ∷ []
unfolding event_buffer
grouped = refl

-- No flush is begun, and an event of another workspace comes in while addBatch waits.
abbrev other_adds : ℕ → Await Event
other_adds i = record { meanwhile = add_step workspace_of ("c", 9); insert_fails = true }

batch_ends : (add_batch workspace_of other_adds mixed one).has_failed ≡ false
unfolding event_buffer add_batch add_each await_add
batch_ends = refl
