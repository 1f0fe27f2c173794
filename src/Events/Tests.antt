-- ===== src/Events/Tests.antt =====
-- A subscriber that goes through one publication, and calls of the bus.
use breckr.Base.{none, List, [], ◌∷◌, ◌≡◌, refl, inl, All, text_le, order_by, arith}
use breckr.Events.{
  Resource, tasks, runs, sending, Subscriber, new_subscriber, add_resource, add_resources, merge,
  signal, wake, drain, drained, deliver, resource_text,
}
use breckr.Events.Steps.{merges, signals, wakes, drains, delivers, Reach, here, next, IsQuiet}
use breckr.Events.Lossless.{SeenFrom, published-SeenFrom}
use breckr.Events.Order.{GoodEvent, received-GoodEvent}
use breckr.Events.Live.{Reach-trans, Reach-IsQuiet}
use breckr.Events.Bus.{
  new, Call, subscribes, unsubscribes, publishes, step, run, get, looked_up, IsValid, subscribe,
  get-step-run, run-fresh,
}

abbrev event : List Resource
event = runs ∷ tasks ∷ []

abbrev published : Subscriber
published = merge (tasks ∷ runs ∷ []) new_subscriber

abbrev taken : Subscriber
taken = drain (wake (signal published))

abbrev received : Subscriber
received = deliver event taken

taken-sending : taken.phase ≡ sending event
unfolding merge signal wake drain drained new_subscriber add_resources add_resource text_le
    resource_text order_by
taken-sending = refl

after_publish : Reach published received
unfolding merge signal wake new_subscriber
after_publish =
    next
      (next (next (next here (signals (omega arith) refl)) (wakes refl refl refl))
        (drains refl refl))
      (delivers event taken-sending refl)

received-IsQuiet : IsQuiet received
unfolding merge signal wake drain deliver new_subscriber
received-IsQuiet = record { no_token = refl; no_signal = refl; at_rest = refl }

published-SeenFrom_example : SeenFrom tasks 0 received.received
unfolding new_subscriber
published-SeenFrom_example =
    published-SeenFrom (tasks ∷ runs ∷ []) tasks here (inl refl) after_publish received-IsQuiet

from_start : Reach new_subscriber received
from_start = Reach-trans (next here (merges (tasks ∷ runs ∷ []) refl)) after_publish

received-GoodEvent_example : All GoodEvent received.received
received-GoodEvent_example = received-GoodEvent from_start

Reach-IsQuiet_example : (t : Subscriber) × Reach taken t × IsQuiet t
Reach-IsQuiet_example = Reach-IsQuiet taken (λ e. cc (taken-sending))

abbrev calls : List Call
calls = subscribes ∷ subscribes ∷ publishes (tasks ∷ []) ∷ unsubscribes 1 ∷ []

get-step-run_example :
    get 2 (step (run new calls) (publishes (runs ∷ [])))
    ≡ looked_up (run new calls) (publishes (runs ∷ [])) 2
get-step-run_example = get-step-run calls (publishes (runs ∷ [])) 2

run-fresh_example :
    IsValid (run new calls) × (get (subscribe (run new calls)).1 (run new calls) ≡ none)
run-fresh_example = run-fresh calls
