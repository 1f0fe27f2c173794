-- ===== src/Events/Bus.antt =====
-- The bus: its map of subscribers, by their ids.
use mathlib.Core.Option
use breckr.Base.{
  ℕ, suc, ◌≤◌, ◌<◌, Bool, not, Option, none, some, List, [], ◌∷◌, ◌++◌, map, ◌≡◌, ◌≢◌, refl, arith,
  Bool-cases, if◌then◌else◌, All, All-append, All-keep, keep, find, nat_eq, inl, inr, find-append,
  find-append_ne,
}
use breckr.Events.{Resource, Subscriber, new_subscriber, publish, stop}

pub record Entry : Type 0 where
  pub id : ℕ
  pub sub : Subscriber

pub record Bus : Type 0 where
  pub subs : List Entry
  pub next_id : ℕ

pub new : Bus
new = record { subs = []; next_id = 0 }

-- `Subscribe`: the new subscriber's id, by which the returned function ends it.
pub subscribe : Bus → Bus × ℕ
subscribe b = (
  record {
    subs = b.subs ++ record { id = suc b.next_id; sub = new_subscriber } ∷ [];
    next_id = suc b.next_id;
  },
  suc b.next_id,
)

abbrev pub has_key : ℕ → Entry → Bool
has_key id e = nat_eq e.id id

abbrev pub get : ℕ → Bus → Option Subscriber
get id b = Option.map (λ (e : Entry). e.sub) (find (has_key id) b.subs)

-- The function that `Subscribe` returns: the entry goes, and its subscriber is stopped.
pub unsubscribe : ℕ → Bus → Bus × Option Subscriber
unfolding stop
unsubscribe id b =
    (record b { subs = keep (λ e. not (has_key id e)) b.subs }, Option.map stop (get id b))

abbrev pub tell : List Resource → Entry → Entry
tell xs e = record e { sub = publish xs e.sub }

-- `Publish`: to every subscriber of the map, unless nothing is named.
pub publish_all : List Resource → Bus → Bus
unfolding publish
publish_all [] b = b
publish_all (x ∷ xs) b = record b { subs = map (tell (x ∷ xs)) b.subs }

-- Ids are given out in turn, and each is in the map at most once.
abbrev pub Fresh : ℕ → List Entry → Type 0
Fresh n [] = Unit
Fresh n (e ∷ es) = (e.id ≤ n) × All (λ f. f.id ≢ e.id) es × Fresh n es

abbrev pub IsValid : Bus → Type 0
IsValid b = Fresh b.next_id b.subs

pub data Call : Type 0 where
  subscribes : Call
  unsubscribes : ℕ → Call
  publishes : List Resource → Call

pub step : Bus → Call → Bus
unfolding subscribe unsubscribe publish_all
step b subscribes = (subscribe b).0
step b (unsubscribes id) = (unsubscribe id b).0
step b (publishes xs) = publish_all xs b

pub run : Bus → List Call → Bus
unfolding step
run b [] = b
run b (c ∷ cs) = run (step b c) cs

Fresh-subscribe :
    (n : ℕ) (es : List Entry)
    → Fresh n es
    → Fresh (suc n) (es ++ record { id = suc n; sub = new_subscriber } ∷ [])
Fresh-subscribe n [] h = (omega arith, tt, tt)
Fresh-subscribe n (e ∷ es) (le, apart, h) = (
  omega arith,
  All-append (λ (f : Entry). f.id ≢ e.id) es _ apart ((λ q. omega arith), tt),
  Fresh-subscribe n es h,
)

Fresh-keep : (p : Entry → Bool) (n : ℕ) (es : List Entry) → Fresh n es → Fresh n (keep p es)
Fresh-keep p n [] h = tt
Fresh-keep p n (e ∷ es) (le, apart, h) = elim (Bool-cases (p e)) [
  | inl q ↦ rw q (le, All-keep (λ (f : Entry). f.id ≢ e.id) p es apart, Fresh-keep p n es h)
  | inr q ↦ rw q (Fresh-keep p n es h)
]

All-tell :
    (i : ℕ) (xs : List Resource) (es : List Entry)
    → All (λ f. f.id ≢ i) es
    → All (λ f. f.id ≢ i) (map (tell xs) es)
All-tell i xs [] h = tt
All-tell i xs (e ∷ es) (q, h) = (q, All-tell i xs es h)

Fresh-tell :
    (xs : List Resource) (n : ℕ) (es : List Entry) → Fresh n es → Fresh n (map (tell xs) es)
Fresh-tell xs n [] h = tt
Fresh-tell xs n (e ∷ es) (le, apart, h) = (le, All-tell e.id xs es apart, Fresh-tell xs n es h)

step-IsValid : (b : Bus) (c : Call) → IsValid b → IsValid (step b c)
unfolding step
step-IsValid b subscribes h = Fresh-subscribe b.next_id b.subs h
step-IsValid b (unsubscribes id) h = Fresh-keep _ b.next_id b.subs h
step-IsValid b (publishes []) h = h
step-IsValid b (publishes (x ∷ xs)) h = Fresh-tell (x ∷ xs) b.next_id b.subs h

run-IsValid : (b : Bus) (cs : List Call) → IsValid b → IsValid (run b cs)
unfolding run
run-IsValid b [] h = h
run-IsValid b (c ∷ cs) h = run-IsValid (step b c) cs (step-IsValid b c h)

find-above : (n j : ℕ) (es : List Entry) → Fresh n es → n < j → find (has_key j) es ≡ none
unfolding find
find-above n j [] h lt = refl
find-above n j (e ∷ es) (le, apart, h) lt = ground (arith, find-above n j es h lt)

find-keep :
    (i j : ℕ) (es : List Entry)
    → find (has_key j) (keep (λ e. not (has_key i e)) es)
      ≡ (if nat_eq i j then none else find (has_key j) es)
unfolding find
find-keep i j [] = ground arith
find-keep i j (e ∷ es) = ground (arith, find-keep i j es)

find-tell :
    (xs : List Resource) (j : ℕ) (es : List Entry)
    → find (has_key j) (map (tell xs) es) ≡ Option.map (tell xs) (find (has_key j) es)
unfolding find
find-tell xs j [] = refl
find-tell xs j (e ∷ es) = ground (arith, find-tell xs j es)

-- What one call does to the subscriber of each id.
pub looked_up : Bus → Call → ℕ → Option Subscriber
looked_up b subscribes j = if nat_eq j (suc b.next_id) then some new_subscriber else get j b
looked_up b (unsubscribes id) j = if nat_eq id j then none else get j b
looked_up b (publishes []) j = get j b
looked_up b (publishes (x ∷ xs)) j = Option.map (publish (x ∷ xs)) (get j b)

get-step : (b : Bus) (c : Call) (j : ℕ) → IsValid b → get j (step b c) ≡ looked_up b c j
unfolding step looked_up
get-step b (publishes []) j h = refl
get-step b (unsubscribes id) j h = ground (arith, find-keep id j b.subs)
get-step b (publishes (x ∷ xs)) j h = ground (arith, find-tell (x ∷ xs) j b.subs)
get-step b subscribes j h =
    let e : Entry = record { id = suc b.next_id; sub = new_subscriber } in
    elim (Bool-cases (nat_eq (suc b.next_id) j)) [
      | inl hit ↦ ground (
        arith,
        hit,
        find-append (has_key j) b.subs e (find-above b.next_id j b.subs h (ground (arith, hit))),
      )
      | inr miss ↦ ground (arith, miss, find-append_ne (has_key j) b.subs e miss)
    ]

-- After any calls of the bus, one more call changes the subscriber of each id as specified: a
-- subscription takes a free id, ending one removes it and no other, a publication reaches every
-- subscriber unless it names nothing.
pub get-step-run :
    (cs : List Call) (c : Call) (j : ℕ) → get j (step (run new cs) c) ≡ looked_up (run new cs) c j
get-step-run cs c j = get-step (run new cs) c j (run-IsValid new cs (unfold new in tt))

-- After any calls of the bus, an id is in the map at most once, none in it is above the last that
-- was given out, and the id of the next subscription is not in it.
pub run-fresh :
    (cs : List Call) → IsValid (run new cs) × (get (subscribe (run new cs)).1 (run new cs) ≡ none)
unfolding subscribe
run-fresh cs =
    let b = run new cs in
    let valid = run-IsValid new cs (unfold new in tt) in
    (valid, ground (arith, find-above b.next_id (suc b.next_id) b.subs valid (omega arith)))
