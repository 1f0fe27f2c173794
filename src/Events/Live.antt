-- ===== src/Events/Live.antt =====
-- How the goroutine and the publishers bring a subscriber to rest.
use breckr.Base.{ℕ, zero, suc, Bool, true, false, List, [], ◌∷◌, ◌≡◌, ◌≢◌, refl, ◌∙◌, sym, arith}
use breckr.Events.{
  Resource, Phase, waiting, woken, sending, stopped, Subscriber, signal, wake, drain, drained,
  next_phase, deliver,
}
use breckr.Events.Steps.{signals, wakes, drains, delivers, Reach, here, next, IsQuiet}

pub Reach-trans : {s t u : Subscriber} → Reach s t → Reach t u → Reach s u
Reach-trans r here = r
Reach-trans r (next q st) = next (Reach-trans r q) st

-- The publishers queue their wake-ups.
signal_all :
    (k : ℕ) (s : Subscriber)
    → s.signalling ≡ k
    → (t : Subscriber) × Reach s t × (t.signalling ≡ 0) × (t.phase ≡ s.phase)
signal_all zero s e = (s, here, e, refl)
signal_all (suc k) s e =
    let (t, r, z, p) = signal_all k (signal s) (unfold signal in omega arith) in
    (t, Reach-trans (next here (signals (omega arith) refl)) r, z, p ∙ unfold signal in refl)

-- A goroutine that is sending hands its event over, and waits.
flush :
    (p : Phase) (s : Subscriber)
    → s.phase ≡ p
    → p ≢ stopped
    → s.signalling ≡ 0
    → (t : Subscriber) × Reach s t
      × (t.signalling ≡ 0)
      × (t.phase ≡ waiting)
      × (t.notify ≡ s.notify)
flush waiting s e live z = (s, here, z, e, refl)
flush stopped s e live z = absurd (live refl)
flush (sending event) s e live z = (
  deliver event s,
  next here (delivers event e refl),
  unfold deliver in z,
  unfold deliver in refl,
  unfold deliver in refl,
)
flush woken s e live z = go (next_phase (drained s.pending)) refl
  where
    go :
        (q : Phase)
        → next_phase (drained s.pending) ≡ q
        → (t : Subscriber) × Reach s t
          × (t.signalling ≡ 0)
          × (t.phase ≡ waiting)
          × (t.notify ≡ s.notify)
    go (sending event) h = (
      deliver event (drain s),
      next (next here (drains e refl)) (delivers event (unfold drain in h) refl),
      unfold deliver drain in z,
      unfold deliver in refl,
      unfold deliver drain in refl,
    )
    go waiting h = (
      drain s,
      next here (drains e refl),
      unfold drain in z,
      unfold drain in h,
      unfold drain in refl,
    )
    go woken h = absurd (idle (drained s.pending) h)
      where
        idle : (d : List Resource) → next_phase d ≡ woken → ⊥
        idle [] q = cc
        idle (x ∷ xs) q = cc
    go stopped h = absurd (gone (drained s.pending) h)
      where
        gone : (d : List Resource) → next_phase d ≡ stopped → ⊥
        gone [] q = cc
        gone (x ∷ xs) q = cc

rest :
    (s : Subscriber) (b : Bool)
    → s.notify ≡ b
    → s.signalling ≡ 0
    → s.phase ≡ waiting
    → (t : Subscriber) × Reach s t × IsQuiet t
rest s false n z p = (s, here, record { no_token = n; no_signal = z; at_rest = p })
rest s true n z p =
    let (t, r, z', p', n') =
      flush woken (wake s) (unfold wake in refl) (λ e. cc) (unfold wake in z) in
    (
      t,
      Reach-trans (next here (wakes p n refl)) r,
      record { no_token = n' ∙ unfold wake in refl; no_signal = z'; at_rest = p' },
    )

-- From any state in which the goroutine has not returned, some finite sequence of steps brings
-- the subscriber to rest.
pub Reach-IsQuiet : (s : Subscriber) → s.phase ≢ stopped → (t : Subscriber) × Reach s t × IsQuiet t
Reach-IsQuiet s live =
    let (t, r, z, p) = signal_all s.signalling s refl in
    let (u, r', z', p', n') = flush t.phase t refl (λ e. live (sym p ∙ e)) z in
    let (v, r'', q) = rest u u.notify refl z' p' in (v, Reach-trans r (Reach-trans r' r''), q)
