-- ===== src/Events/Lossless.antt =====
-- What becomes of a published resource, under coalescing.
use breckr.Base.{
  ℕ, zero, suc, ◌≤◌, ◌<◌, true, List, [], ◌∷◌, ◌++◌, ◌≡◌, refl, sym, subst, ◌⊎◌, inl, inr, In, any,
  any-In, order_by-In, arith, length, length-append, Bool-cases,
}
use breckr.Events.{
  Resource, same_resource, woken, sending, stopped, Subscriber, new_subscriber, add_resource,
  add_resources, merge, signal, wake, drain, drained, resource_le, next_phase, deliver, stop, quit,
}
use breckr.Events.Steps.{
  Step, merges, signals, wakes, drains, delivers, stops, quits_waiting, quits_sending, Reach, here,
  next, IsQuiet,
}

same_resource-eq : (x y : Resource) → same_resource x y ≡ true → x ≡ y
same_resource-eq x y h = ground arith

-- What is pending has its wake-up: queued, about to be queued, or taken and not yet acted on.
abbrev pub HasWakeUp : Subscriber → Type 0
HasWakeUp s =
    (s.pending ≡ [])
    ⊎ (s.notify ≡ true)
    ⊎ (0 < s.signalling)
    ⊎ (s.phase ≡ woken)
    ⊎ (s.phase ≡ stopped)

Step-HasWakeUp : {s t : Subscriber} → Step s t → HasWakeUp s → HasWakeUp t
unfolding merge signal wake drain deliver stop quit
Step-HasWakeUp (merges xs e) h = rw e (inr (inr (inl (omega arith))))
Step-HasWakeUp (signals pos e) h = rw e (inr (inl refl))
Step-HasWakeUp (wakes at token e) h = rw e (inr (inr (inr (inl refl))))
Step-HasWakeUp (drains at e) h = rw e (inl refl)
Step-HasWakeUp (delivers event at e) h = rw e (ground arith)
Step-HasWakeUp (stops e) h = rw e h
Step-HasWakeUp (quits_waiting at d e) h = rw e (inr (inr (inr (inr refl))))
Step-HasWakeUp (quits_sending event at d e) h = rw e (inr (inr (inr (inr refl))))

pub Reach-HasWakeUp : {s t : Subscriber} → HasWakeUp s → Reach s t → HasWakeUp t
Reach-HasWakeUp h here = h
Reach-HasWakeUp h (next r st) = Step-HasWakeUp st (Reach-HasWakeUp h r)

module _ (x : Resource) where
  -- Some event from index n on names the resource.
  abbrev pub SeenFrom : ℕ → List (List Resource) → Type 0
  SeenFrom n [] = ⊥
  SeenFrom zero (e ∷ es) = In x e ⊎ SeenFrom zero es
  SeenFrom (suc n) (e ∷ es) = SeenFrom n es

  SeenFrom-append : (n : ℕ) (es fs : List (List Resource)) → SeenFrom n es → SeenFrom n (es ++ fs)
  SeenFrom-append n [] fs h = absurd h
  SeenFrom-append zero (e ∷ es) fs (inl i) = inl i
  SeenFrom-append zero (e ∷ es) fs (inr h) = inr (SeenFrom-append zero es fs h)
  SeenFrom-append (suc n) (e ∷ es) fs h = SeenFrom-append n es fs h

  SeenFrom-last :
      (n : ℕ) (es : List (List Resource)) (e : List Resource)
      → n ≤ length es
      → In x e
      → SeenFrom n (es ++ e ∷ [])
  SeenFrom-last zero [] e h i = inl i
  SeenFrom-last (suc n) [] e h i = absurd (omega arith)
  SeenFrom-last zero (f ∷ es) e h i = inr (SeenFrom-last zero es e (omega arith) i)
  SeenFrom-last (suc n) (f ∷ es) e h i = SeenFrom-last n es e (omega arith) i

  In-append : (ps qs : List Resource) → In x ps → In x (ps ++ qs)
  In-append [] qs i = absurd i
  In-append (p ∷ ps) qs (inl e) = inl e
  In-append (p ∷ ps) qs (inr i) = inr (In-append ps qs i)

  In-append_right : (ps qs : List Resource) → In x qs → In x (ps ++ qs)
  In-append_right [] qs i = i
  In-append_right (p ∷ ps) qs i = inr (In-append_right ps qs i)

  add_resource-keeps : (ps : List Resource) (y : Resource) → In x ps → In x (add_resource ps y)
  unfolding add_resource
  add_resource-keeps ps y i = elim (Bool-cases (any (same_resource y) ps)) [
    | inl e ↦ rw e i
    | inr e ↦ rw e (In-append ps (y ∷ []) i)
  ]

  add_resource-adds : (ps : List Resource) → In x (add_resource ps x)
  unfolding add_resource
  add_resource-adds ps = elim (Bool-cases (any (same_resource x) ps)) [
    | inl e ↦
        let (y, i, same) = any-In (same_resource x) ps e in
        rw e (subst (λ z. In z ps) (sym (same_resource-eq x y same)) i)
    | inr e ↦ rw e (In-append_right ps (x ∷ []) (inl refl))
  ]

  add_resources-keeps : (ps xs : List Resource) → In x ps → In x (add_resources ps xs)
  unfolding add_resources
  add_resources-keeps ps [] i = i
  add_resources-keeps ps (y ∷ xs) i =
      add_resources-keeps (add_resource ps y) xs (add_resource-keeps ps y i)

  pub add_resources-adds : (ps xs : List Resource) → In x xs → In x (add_resources ps xs)
  unfolding add_resources
  add_resources-adds ps [] i = absurd i
  add_resources-adds ps (y ∷ xs) (inl e) =
      add_resources-keeps (add_resource ps y) xs
        (subst (λ z. In x (add_resource ps z)) e (add_resource-adds ps))
  add_resources-adds ps (y ∷ xs) (inr i) = add_resources-adds (add_resource ps y) xs i

  -- Where a resource published when n events had been received is now.
  abbrev Tracked : ℕ → Subscriber → Type 0
  Tracked n s =
      (n ≤ length s.received)
      × (In x s.pending
          ⊎ ((e : List Resource) × (s.phase ≡ sending e) × In x e)
          ⊎ SeenFrom n s.received
          ⊎ (s.phase ≡ stopped))

  In-drained : (ps : List Resource) → In x ps → In x (drained ps)
  unfolding drained
  In-drained ps = (order_by-In resource_le x ps).1

  next_phase-In : (e : List Resource) → In x e → next_phase e ≡ sending e
  next_phase-In [] i = absurd i
  next_phase-In (y ∷ ys) i = refl

  longer :
      (n : ℕ) (s : Subscriber) (e : List Resource)
      → n ≤ length s.received
      → n ≤ length (s.received ++ e ∷ [])
  longer n s e l = omega (arith, length-append s.received (e ∷ []))

  Step-Tracked : (n : ℕ) {s t : Subscriber} → Step s t → Tracked n s → Tracked n t
  unfolding merge signal wake drain deliver stop quit
  Step-Tracked n {s} (merges xs e) (l, inl i) = rw e (l, inl (add_resources-keeps s.pending xs i))
  Step-Tracked n (merges xs e) (l, inr h) = rw e (l, inr h)
  Step-Tracked n (signals pos e) h = rw e h
  Step-Tracked n (wakes at token e) (l, inl i) = rw e (l, inl i)
  Step-Tracked n (wakes at token e) (l, inr (inl (f, q, i))) = cc
  Step-Tracked n (wakes at token e) (l, inr (inr (inl h))) = rw e (l, inr (inr (inl h)))
  Step-Tracked n (wakes at token e) (l, inr (inr (inr h))) = cc
  Step-Tracked n {s} (drains at e) (l, inl i) =
      let j = In-drained s.pending i in
      rw e (l, inr (inl (drained s.pending, next_phase-In (drained s.pending) j, j)))
  Step-Tracked n (drains at e) (l, inr (inl (f, q, i))) = cc
  Step-Tracked n (drains at e) (l, inr (inr (inl h))) = rw e (l, inr (inr (inl h)))
  Step-Tracked n (drains at e) (l, inr (inr (inr h))) = cc
  Step-Tracked n {s} (delivers event at e) (l, inl i) = rw e (longer n s event l, inl i)
  Step-Tracked n {s} (delivers event at e) (l, inr (inl (f, q, i))) = rw e (
    longer n s event l,
    inr (inr (inl (SeenFrom-last n s.received event l (subst (In x) (cc) i)))),
  )
  Step-Tracked n {s} (delivers event at e) (l, inr (inr (inl h))) =
      rw e (longer n s event l, inr (inr (inl (SeenFrom-append n s.received (event ∷ []) h))))
  Step-Tracked n (delivers event at e) (l, inr (inr (inr h))) = cc
  Step-Tracked n (stops e) h = rw e h
  Step-Tracked n (quits_waiting at d e) (l, h) = rw e (l, inr (inr (inr refl)))
  Step-Tracked n (quits_sending event at d e) (l, h) = rw e (l, inr (inr (inr refl)))

  Reach-Tracked : (n : ℕ) {s t : Subscriber} → Tracked n s → Reach s t → Tracked n t
  Reach-Tracked n h here = h
  Reach-Tracked n h (next r st) = Step-Tracked n st (Reach-Tracked n h r)

  merge-Tracked :
      (xs : List Resource) (s : Subscriber) → In x xs → Tracked (length s.received) (merge xs s)
  unfolding merge
  merge-Tracked xs s i = (omega arith, inl (add_resources-adds s.pending xs i))

  quiet-SeenFrom :
      (n : ℕ) (t : Subscriber) → HasWakeUp t → Tracked n t → IsQuiet t → SeenFrom n t.received
  quiet-SeenFrom n t awake (l, inl i) q = absurd (subst (In x) (nothing_pending awake q) i)
    where
      nothing_pending : HasWakeUp t → IsQuiet t → t.pending ≡ []
      nothing_pending h q = ground arith
  quiet-SeenFrom n t awake (l, inr (inl (e, at, i))) q = absurd (ground (arith, q.at_rest))
  quiet-SeenFrom n t awake (l, inr (inr (inl h))) q = h
  quiet-SeenFrom n t awake (l, inr (inr (inr e))) q = absurd (ground (arith, q.at_rest))

-- After a publication to a subscriber in any reachable state, however the publishers, the
-- goroutine and the reader interleave, once nothing is left to do and the subscriber has not
-- quit, each published resource is named by an event received after the publication.
pub published-SeenFrom :
    {s t : Subscriber} (xs : List Resource) (x : Resource)
    → Reach new_subscriber s
    → In x xs
    → Reach (merge xs s) t
    → IsQuiet t
    → SeenFrom x (length s.received) t.received
published-SeenFrom {s} {t} xs x before i after q =
    quiet-SeenFrom x (length s.received) t
      (Reach-HasWakeUp (Step-HasWakeUp (merges xs refl) (Reach-HasWakeUp fresh before)) after)
      (Reach-Tracked x (length s.received) (merge-Tracked x xs s i) after) q
  where
    fresh : HasWakeUp new_subscriber
    fresh = inl (unfold new_subscriber in refl)
