-- ===== src/Notifier/Dispatch.antt =====
-- The parallel sends of `DispatchTask`: each goroutine writes its own slot.
use mathlib.Core.Option
use breckr.Base.{
  Text, ℕ, zero, suc, ◌<◌, Bool, true, none, some, List, [], ◌∷◌, map, Result, ok, err, ◌≡◌, ◌↔◌,
  ◌⊎◌, refl, ◌∙◌, inl, inr, In, any, In-any, In-keep, keep-In, In-map, map-In, order_by,
  order_by-In, keep, text_le, Text_eq, arith, length, get_elem?, get_elem?-ext, get_elem?-map,
  length-map, nat_eq, if◌then◌else◌, ◌==◌, ◌&&◌,
}
use breckr.Types.Notify.{Message, disabled}
use breckr.Store.Database.{Database, StoredChannel, Driver, Error}
use breckr.Store.Channels.{list_channels_for_task}
use breckr.Notifier.{
  Transports, deliver, no_delivery, finish, gather, fan_out, dispatch_channel, dispatch_listed,
  dispatch_task,
}
use breckr.Notifier.Aggregate.{
  SomeDelivered, aggregate_of_delivered_iff, aggregate_of_reason, Consistent,
}

-- Every one of the first n indices finishes.
abbrev pub Covers : List ℕ → ℕ → Type 0
Covers order n = (i : ℕ) → i < n → In i order

module _ {A B : Type 0} (f : A → B) where
  length-finish :
      (cs : List A) (i : ℕ) (slots : List B) → length (finish f cs i slots) ≡ length slots
  unfolding finish
  length-finish [] i slots = refl
  length-finish (c ∷ cs) i [] = refl
  length-finish (c ∷ cs) zero (d ∷ slots) = refl
  length-finish (c ∷ cs) (suc i) (d ∷ slots) = omega (arith, length-finish cs i slots)

  get_elem?-finish :
      (cs : List A) (i : ℕ) (slots : List B) (j : ℕ)
      → length slots ≡ length cs
      → get_elem? (finish f cs i slots) j
        ≡ (if nat_eq i j then Option.map f (get_elem? cs j) else get_elem? slots j)
  unfolding finish
  get_elem?-finish [] i [] j h = ground arith
  get_elem?-finish [] i (d ∷ slots) j h = absurd (omega arith)
  get_elem?-finish (c ∷ cs) i [] j h = absurd (omega arith)
  get_elem?-finish (c ∷ cs) zero (d ∷ slots) zero h = refl
  get_elem?-finish (c ∷ cs) zero (d ∷ slots) (suc j) h = ground arith
  get_elem?-finish (c ∷ cs) (suc i) (d ∷ slots) zero h = ground arith
  get_elem?-finish (c ∷ cs) (suc i) (d ∷ slots) (suc j) h =
      ground (arith, get_elem?-finish cs i slots j (omega arith))

  get_elem?-gather :
      (cs : List A) (order : List ℕ) (slots : List B) (j : ℕ)
      → length slots ≡ length cs
      → get_elem? (gather f cs order slots) j
        ≡ (if any (λ i. nat_eq i j) order then Option.map f (get_elem? cs j) else get_elem? slots j)
  unfolding gather
  get_elem?-gather cs [] slots j h = refl
  get_elem?-gather cs (i ∷ order) slots j h = ground (
    arith,
    get_elem?-gather cs order (finish f cs i slots) j (length-finish cs i slots ∙ h),
    get_elem?-finish cs i slots j h,
  )

  get_elem?_beyond : (cs : List A) (j : ℕ) → (j < length cs) ⊎ (get_elem? cs j ≡ none)
  get_elem?_beyond [] j = inr refl
  get_elem?_beyond (c ∷ cs) zero = inl (omega arith)
  get_elem?_beyond (c ∷ cs) (suc j) = elim (get_elem?_beyond cs j) [
    | inl h ↦ inl (omega arith)
    | inr e ↦ inr e
  ]

  gather-map :
      (cs : List A) (order : List ℕ) (d : B)
      → Covers order (length cs)
      → gather f cs order (map (λ _. d) cs) ≡ map f cs
  gather-map cs order d covers = get_elem?-ext _ _ λ j.
      let read = get_elem?-gather cs order (map (λ _. d) cs) j (length-map (λ (_ : A). d) cs) in
      elim (get_elem?_beyond cs j) [
        | inl h ↦
            let hit = In-any (λ i. nat_eq i j) j order (covers j h) (ground arith) in
            ground (arith, read, hit, get_elem?-map f cs j)
        | inr e ↦ ground (arith, read, e, get_elem?-map f cs j, get_elem?-map (λ (_ : A). d) cs j)
      ]

-- When every goroutine finishes, in any order, the slots hold the deliveries of the channels in
-- the order of the channels.
pub fan_out-map :
    (t : Transports) (order : List ℕ) (m : Message) (cs : List StoredChannel)
    → Covers order (length cs)
    → fan_out t order m cs ≡ map (deliver t m) cs
unfolding fan_out
fan_out-map t order m cs covers = gather-map (deliver t m) cs order no_delivery covers

-- The channel is enabled and linked to the task.
abbrev pub Attached : Database → Text → StoredChannel → Type 0
Attached db task_id c =
    In c db.channels
    × (c.enabled ≡ true)
    × (any (λ l. l.task_id == task_id && l.channel_id == c.id) db.links ≡ true)

-- `ListChannelsForTask` returns the enabled channels that are linked to the task, and no other.
pub list_channels_for_task_iff :
    (task_id : Text) (db : Database) (c : StoredChannel)
    → (cs : List StoredChannel) → list_channels_for_task none task_id db ≡ ok cs
    → In c cs ↔ Attached db task_id c
unfolding list_channels_for_task
list_channels_for_task_iff task_id db c cs h = (there, back)
  where
    passes : StoredChannel → Bool
    passes c = c.enabled && any (λ l. l.task_id == task_id && l.channel_id == c.id) db.links

    listed : cs ≡ order_by (λ a b. text_le a.name b.name) (keep passes db.channels)
    listed = cc

    there : In c cs → Attached db task_id c
    there i =
        let (j, q) = keep-In passes c db.channels (
          (order_by-In (λ a b. text_le a.name b.name) c (keep passes db.channels)).0
            (rw listed at i)) in
        (j, ground arith, ground arith)

    back : Attached db task_id c → In c cs
    back (i, e, l) = rw listed (
        (order_by-In (λ a b. text_le a.name b.name) c (keep passes db.channels)).1
          (In-keep passes c db.channels i (ground arith)))

module _ (t : Transports) (order : List ℕ) (m : Message) where
  -- Some listed channel takes the message.
  abbrev Taken : List StoredChannel → Type 0
  Taken cs = (c : StoredChannel) × In c cs × ((dispatch_channel t c m).delivered ≡ true)

  Taken-SomeDelivered : (cs : List StoredChannel) → SomeDelivered (map (deliver t m) cs) ↔ Taken cs
  Taken-SomeDelivered cs = (there, back)
    where
      there : SomeDelivered (map (deliver t m) cs) → Taken cs
      there (d, i, h) = let (c, j, e) = map-In (deliver t m) d cs i in (c, j, rw e at h)

      back : Taken cs → SomeDelivered (map (deliver t m) cs)
      back (c, i, h) = (deliver t m c, In-map (deliver t m) c cs i, h)

  dispatch_listed_delivered :
      (task_id : Text) (cs : List StoredChannel)
      → Covers order (length cs)
      → ((dispatch_listed t order task_id m (ok cs)).aggregate.delivered ≡ true) ↔ Taken cs
  unfolding dispatch_listed
  dispatch_listed_delivered task_id [] covers = (λ h. cc, λ h. absurd h.1)
  dispatch_listed_delivered task_id (c ∷ cs) covers =
      let whole = c ∷ cs in
      let step = aggregate_of_delivered_iff (fan_out t order m whole) in
      let same = fan_out-map t order m whole covers in
      (
        λ h. (Taken-SomeDelivered whole).0 (rw same at (step.0 h)),
        λ h. step.1 (rw same ((Taken-SomeDelivered whole).1 h)),
      )

  -- When the channels can be read and every send finishes, in any order, an alert counts as
  -- delivered exactly when some enabled channel that is linked to the task takes it.
  pub dispatch_task_delivered_iff :
      (db : Database) (task_id : Text) (cs : List StoredChannel)
      → list_channels_for_task none task_id db ≡ ok cs
      → Covers order (length cs)
      → ((dispatch_task t order none db task_id m).aggregate.delivered ≡ true) ↔ (
          (c : StoredChannel) × Attached db task_id c × ((dispatch_channel t c m).delivered ≡ true))
  unfolding dispatch_task
  dispatch_task_delivered_iff db task_id cs listed covers =
      let step = dispatch_listed_delivered task_id cs covers in
      let which = λ (c : StoredChannel). list_channels_for_task_iff task_id db c cs listed in
      rw listed (
        λ h. let (c, i, q) = step.0 h in (c, (which c).0 i, q),
        λ (c, a, q). step.1 (c, (which c).1 a, q),
      )

  dispatch_listed_reason :
      (task_id : Text) (r : Result Error (List StoredChannel))
      → Consistent (dispatch_listed t order task_id m r).aggregate
        × (((dispatch_listed t order task_id m r).aggregate.reason ≡ some disabled) ↔ (r ≡ ok []))
  unfolding dispatch_listed
  dispatch_listed_reason task_id (err e) = (inr (refl, inl refl), (λ h. cc, λ h. cc))
  dispatch_listed_reason task_id (ok []) = (inr (refl, inr refl), (λ h. refl, λ h. refl))
  dispatch_listed_reason task_id (ok (c ∷ cs)) =
      let r = aggregate_of_reason (fan_out t order m (c ∷ cs)) in
      elim r [
        | inl (d, s) ↦ (inl (d, s), (λ h. cc, λ h. cc))
        | inr (d, s) ↦ (inr (d, inl s), (λ h. cc, λ h. cc))
      ]

  -- The outcome of a dispatch is delivered and sent, or not delivered and error or disabled, and
  -- it is disabled exactly when the channels were read and there are none.
  pub dispatch_task_reason :
      (d : Driver) (db : Database) (task_id : Text)
      → Consistent (dispatch_task t order d db task_id m).aggregate
        × (((dispatch_task t order d db task_id m).aggregate.reason ≡ some disabled)
            ↔ (list_channels_for_task d task_id db ≡ ok []))
  unfolding dispatch_task
  dispatch_task_reason d db task_id =
      dispatch_listed_reason task_id (list_channels_for_task d task_id db)
