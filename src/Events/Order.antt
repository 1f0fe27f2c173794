-- ===== src/Events/Order.antt =====
-- The events that a reader gets, and what is in them.
use breckr.Base.{
  ℕ, suc, ◌≤◌, true, List, [], ◌∷◌, ◌++◌, ◌≡◌, ◌≢◌, refl, sym, subst, ◌⊎◌, inl, inr, In, any,
  In-any, order_by, insert_by, order_by-In, arith, Bool-cases, All, All-append, leb, text_le,
}
use breckr.Events.{
  Resource, tasks, runs, channels, health, same_resource, resource_text, sending, Subscriber,
  new_subscriber, add_resource, add_resources, merge, signal, wake, drain, drained, resource_le,
  next_phase, deliver, stop, quit,
}
use breckr.Events.Steps.{
  Step, merges, signals, wakes, drains, delivers, stops, quits_waiting, quits_sending, Reach, here,
  next,
}

-- The place of a resource in the order of the texts.
abbrev pub rank : Resource → ℕ
rank channels = 0
rank health = 1
rank runs = 2
rank tasks = 3

-- Each rank is above the one before: sorted, with no repetition.
abbrev pub Ascending : ℕ → List Resource → Type 0
Ascending n [] = Unit
Ascending n (x ∷ xs) = (n ≤ rank x) × Ascending (suc (rank x)) xs

abbrev pub Distinct : List Resource → Type 0
Distinct [] = Unit
Distinct (x ∷ xs) = ¬ (In x xs) × Distinct xs

le-rank : (x y : Resource) → resource_le x y ≡ leb (rank x) (rank y)
unfolding resource_text text_le
le-rank tasks tasks = refl
le-rank tasks runs = refl
le-rank tasks channels = refl
le-rank tasks health = refl
le-rank runs tasks = refl
le-rank runs runs = refl
le-rank runs channels = refl
le-rank runs health = refl
le-rank channels tasks = refl
le-rank channels runs = refl
le-rank channels channels = refl
le-rank channels health = refl
le-rank health tasks = refl
le-rank health runs = refl
le-rank health channels = refl
le-rank health health = refl

rank-injective : (x y : Resource) → rank x ≡ rank y → x ≡ y
rank-injective x y h = ground arith

Ascending-insert_by :
    (n : ℕ) (x : Resource) (xs : List Resource)
    → n ≤ rank x
    → ¬ (In x xs)
    → Ascending n xs
    → Ascending n (insert_by resource_le x xs)
unfolding insert_by
Ascending-insert_by n x [] le out up = (le, tt)
Ascending-insert_by n x (y ∷ ys) le out (low, up) = elim (Bool-cases (resource_le x y)) [
  | inl e ↦
      let apart : rank x ≢ rank y = λ q. out (inl (rank-injective x y q)) in
      rw e (le, (ground (arith, le-rank x y, apart), up))
  | inr e ↦ rw e (
    low,
    Ascending-insert_by (suc (rank y)) x ys (ground (arith, le-rank x y)) (λ i. out (inr i)) up,
  )
]

Ascending-drained : (xs : List Resource) → Distinct xs → Ascending 0 (drained xs)
unfolding drained order_by
Ascending-drained [] d = tt
Ascending-drained (x ∷ xs) (out, d) =
    Ascending-insert_by 0 x (order_by resource_le xs) (omega arith)
      (λ i. out ((order_by-In resource_le x xs).0 i)) (Ascending-drained xs d)

Distinct-append :
    (ps : List Resource) (x : Resource) → ¬ (In x ps) → Distinct ps → Distinct (ps ++ x ∷ [])
Distinct-append [] x out d = (λ i. i, tt)
Distinct-append (p ∷ ps) x out (fresh, d) =
    (λ i. later ps i, Distinct-append ps x (λ i. out (inr i)) d)
  where
    last : (qs : List Resource) → In p (qs ++ x ∷ []) → In p qs ⊎ (p ≡ x)
    last [] (inl e) = inr e
    last [] (inr i) = absurd i
    last (q ∷ qs) (inl e) = inl (inl e)
    last (q ∷ qs) (inr i) = elim (last qs i) [ inl j ↦ inl (inr j) | inr e ↦ inr e ]

    later : (qs : List Resource) → In p (ps ++ x ∷ []) → ⊥
    later qs i = elim (last ps i) [ inl j ↦ fresh j | inr e ↦ out (inl (sym e)) ]

same_resource_refl : (x : Resource) → same_resource x x ≡ true
same_resource_refl x = ground arith

Distinct-add_resources : (ps xs : List Resource) → Distinct ps → Distinct (add_resources ps xs)
unfolding add_resources add_resource
Distinct-add_resources ps [] d = d
Distinct-add_resources ps (x ∷ xs) d = elim (Bool-cases (any (same_resource x) ps)) [
  | inl e ↦ rw e (Distinct-add_resources ps xs d)
  | inr e ↦ rw e (
      Distinct-add_resources (ps ++ x ∷ []) xs
        (Distinct-append ps x (λ i. cc (In-any (same_resource x) x ps i (same_resource_refl x))) d))
]

abbrev pub GoodEvent : List Resource → Type 0
GoodEvent e = (e ≢ []) × Ascending 0 e

pub record Inv (s : Subscriber) : Type 0 where
  pub pending_distinct : Distinct s.pending
  pub sending_good : (e : List Resource) → s.phase ≡ sending e → GoodEvent e
  pub received_good : All GoodEvent s.received

next_phase-good :
    (d : List Resource)
    → Ascending 0 d
    → (e : List Resource) → next_phase d ≡ sending e
    → GoodEvent e
next_phase-good [] up e h = cc
next_phase-good (x ∷ xs) up e h = let same : x ∷ xs ≡ e = cc in subst GoodEvent same ((λ q. cc), up)

Step-Inv : {s t : Subscriber} → Step s t → Inv s → Inv t
unfolding merge signal wake drain deliver stop quit
Step-Inv {s} (merges xs e) v = rw e (record {
  pending_distinct = Distinct-add_resources s.pending xs v.pending_distinct;
  sending_good = v.sending_good;
  received_good = v.received_good;
})
Step-Inv (signals pos e) v = rw e (record {
  pending_distinct = v.pending_distinct;
  sending_good = v.sending_good;
  received_good = v.received_good;
})
Step-Inv (wakes at token e) v = rw e (record {
  pending_distinct = v.pending_distinct;
  sending_good = λ f h. cc;
  received_good = v.received_good;
})
Step-Inv {s} (drains at e) v = rw e (record {
  pending_distinct = tt;
  sending_good =
      next_phase-good (drained s.pending) (Ascending-drained s.pending v.pending_distinct);
  received_good = v.received_good;
})
Step-Inv {s} (delivers event at e) v = rw e (record {
  pending_distinct = v.pending_distinct;
  sending_good = λ f h. cc;
  received_good =
      All-append GoodEvent s.received (event ∷ []) v.received_good (v.sending_good event at, tt);
})
Step-Inv (stops e) v = rw e (record {
  pending_distinct = v.pending_distinct;
  sending_good = v.sending_good;
  received_good = v.received_good;
})
Step-Inv (quits_waiting at d e) v = rw e (record {
  pending_distinct = v.pending_distinct;
  sending_good = λ f h. cc;
  received_good = v.received_good;
})
Step-Inv (quits_sending event at d e) v = rw e (record {
  pending_distinct = v.pending_distinct;
  sending_good = λ f h. cc;
  received_good = v.received_good;
})

Reach-Inv : {s t : Subscriber} → Inv s → Reach s t → Inv t
Reach-Inv v here = v
Reach-Inv v (next r st) = Step-Inv st (Reach-Inv v r)

-- In every reachable state of a subscriber, each event received names at least one resource, each
-- at most once, in the order of their texts.
pub received-GoodEvent : {s : Subscriber} → Reach new_subscriber s → All GoodEvent s.received
received-GoodEvent r = (Reach-Inv start r).received_good
  where
    start : Inv new_subscriber
    start =
        unfold new_subscriber in
        record { pending_distinct = tt; sending_good = λ e h. cc; received_good = tt }
