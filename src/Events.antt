-- ===== src/Events.antt =====
-- server/internal/events/bus.go: a subscriber's pending set, wake-up token and delivery loop, and the
-- bus that publishes to every subscriber. A channel of capacity one is a token that is there or not;
-- what a goroutine does between two blocking points or locks is one operation.
pub mod Steps
pub mod Lossless
pub mod Order
pub mod Live
pub mod Bus
mod Tests
use breckr.Base.{
  Text, codes, ℕ, suc, ◌-◌, ◌+◌, Bool, true, false, not, ◌&&◌, ◌||◌, Option, none, some, List, [],
  ◌∷◌, ◌++◌, any, order_by, text_le, ◌==◌, if◌then◌else◌, Eq, ◌≡◌, ◌↔◌, refl, arith, keep, ℕ_eq,
  map,
}

-- One slice of dashboard state.
pub data Resource : Type 0 where
  tasks runs channels health : Resource

unfoldable pub resource_text : Resource → Text
resource_text tasks = codes "tasks"
resource_text runs = codes "runs"
resource_text channels = codes "channels"
resource_text health = codes "health"

abbrev pub same_resource : Resource → Resource → Bool
same_resource tasks tasks = true
same_resource runs runs = true
same_resource channels channels = true
same_resource health health = true
same_resource _ _ = false

-- Where the goroutine `run` stands: at its outer select, after it took the token, at the inner select
-- with an event, or gone.
pub data Phase : Type 0 where
  waiting woken : Phase
  sending : List Resource → Phase
  stopped : Phase

pub record Subscriber : Type 0 where
  -- The set, as a list with no repetition.
  pub pending : List Resource
  -- A wake-up is queued.
  pub notify : Bool
  -- Publishers that have merged and not yet queued their wake-up.
  pub signalling : ℕ
  -- `done` is closed.
  pub done : Bool
  pub phase : Phase
  -- The events that the reader has received, oldest first.
  pub received : List (List Resource)

unfoldable pub new_subscriber : Subscriber
new_subscriber = record {
  pending = [];
  notify = false;
  signalling = 0;
  done = false;
  phase = waiting;
  received = [];
}

-- `s.pending[resource] = struct{}{}`.
unfoldable pub add_resource : List Resource → Resource → List Resource
add_resource ps x = if any (same_resource x) ps then ps else ps ++ x ∷ []

unfoldable pub add_resources : List Resource → List Resource → List Resource
unfolding add_resource
add_resources ps [] = ps
add_resources ps (x ∷ xs) = add_resources (add_resource ps x) xs

-- `publish`, under its lock.
unfoldable pub merge : List Resource → Subscriber → Subscriber
unfolding add_resources
merge xs s = record s { pending = add_resources s.pending xs; signalling = suc s.signalling }

-- `publish`, its select: queue a wake-up unless one is queued.
unfoldable pub signal : Subscriber → Subscriber
signal s = record s { notify = true; signalling = s.signalling - 1 }

unfoldable pub publish : List Resource → Subscriber → Subscriber
unfolding merge signal
publish xs s = signal (merge xs s)

-- `run`, its outer select takes the token.
unfoldable pub wake : Subscriber → Subscriber
wake s = record s { notify = false; phase = woken }

abbrev pub resource_le : Resource → Resource → Bool
resource_le a b = text_le (resource_text a) (resource_text b)

-- `drain`: one sorted slice, and the set is empty.
unfoldable pub drained : List Resource → List Resource
unfolding resource_text
drained = order_by resource_le

abbrev next_phase : List Resource → Phase
next_phase [] = waiting
next_phase (x ∷ xs) = sending (x ∷ xs)

-- `run`, from the token to its next select: an empty event is not sent.
unfoldable pub drain : Subscriber → Subscriber
unfolding drained
drain s = record s { pending = []; phase = next_phase (drained s.pending) }

-- `run`, its inner select hands the event to the reader.
unfoldable pub deliver : List Resource → Subscriber → Subscriber
deliver event s = record s { phase = waiting; received = s.received ++ event ∷ [] }

-- `stop` closes `done`, once.
unfoldable pub stop : Subscriber → Subscriber
stop s = record s { done = true }

-- `run` returns at either select.
unfoldable pub quit : Subscriber → Subscriber
quit s = record s { phase = stopped }
