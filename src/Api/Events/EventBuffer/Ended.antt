-- ===== src/Api/Events/EventBuffer/Ended.antt =====
-- How addBatch ends (api/src/events/event-buffer.service.ts): with nothing left, or with the exception
-- of a flush.
use staminads.Common.{
  ℕ, suc, String, Bool, true, false, Option, none, some, List, [], ◌∷◌, ◌≡◌, refl, inl, inr,
  Bool-cases,
}
use staminads.Api.Events.EventBuffer.{add, batch_order}
use staminads.Api.Events.EventBuffer.World.{World, add_step, failure_step}
use staminads.Api.Events.EventBuffer.AddBatch.{
  Await, BatchRun, finish_add, await_add, stop_or_go_on, add_each, add_batch,
}

module _ {Event : Type 0} (awaits : ℕ → Await Event) where
  -- The insert of a flush has failed, and that is the last thing that happened.
  abbrev pub IsFailure : ℕ → World Event → Type 0
  IsFailure i v =
      (j : String) × (batch : List Event) × (u : World Event) × ((awaits i).insert_fails ≡ true)
      × (v ≡ failure_step j batch u)

  abbrev Failing : ℕ → World Event × Bool → Type 0
  Failing i (v, false) = Unit
  Failing i (v, true) = IsFailure i v

  finish_add-Failing :
      (i : ℕ) (j : String) (o : Option (List Event)) (w : World Event)
      → Failing i (finish_add (awaits i) j o w)
  finish_add-Failing i j none w = tt
  finish_add-Failing i j (some batch) w = elim (Bool-cases (awaits i).insert_fails) [
    | inl fails ↦ rw fails (j, batch, (awaits i).meanwhile w, fails, refl)
    | inr succeeds ↦ rw succeeds tt
  ]

  -- Whether addBatch throws, against what it has left.
  abbrev pub IsEnded : Bool → BatchRun Event → Type 0
  IsEnded false run = run.left ≡ []
  IsEnded true run = (i : ℕ) × IsFailure i run.world

module _ {Event : Type 0} (workspace_id : Event → String) (awaits : ℕ → Await Event) where
  stop_or_go_on-IsEnded :
      (i : ℕ) (rest : List Event) (added : World Event × Bool) (run : BatchRun Event)
      → Failing awaits i added
      → IsEnded awaits run.has_failed run
      → IsEnded awaits (stop_or_go_on added rest run).has_failed (stop_or_go_on added rest run)
  stop_or_go_on-IsEnded i rest (u, true) run fails ended = (i, fails)
  stop_or_go_on-IsEnded i rest (u, false) run fails ended = ended

  add_each-IsEnded :
      (i : ℕ) (events : List Event) (w : World Event)
      → let run = add_each workspace_id awaits i events w in IsEnded awaits run.has_failed run
  unfolding add_each
  add_each-IsEnded i [] w = refl
  add_each-IsEnded i (e ∷ rest) w =
      let added = await_add workspace_id (awaits i) e w in
      stop_or_go_on-IsEnded i rest added (add_each workspace_id awaits (suc i) rest added.0)
        (unfold await_add in
          finish_add-Failing awaits i (workspace_id e) (add workspace_id e w.buffer).1
            (add_step workspace_id e w))
        (add_each-IsEnded (suc i) rest added.0)

  pub add_batch-IsEnded :
      (events : List Event) (w : World Event)
      → let run = add_batch workspace_id awaits events w in IsEnded awaits run.has_failed run
  unfolding add_batch
  add_batch-IsEnded events w = add_each-IsEnded 0 (batch_order workspace_id events) w
