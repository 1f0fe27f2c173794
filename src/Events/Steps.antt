-- ===== src/Events/Steps.antt =====
-- The interleavings of one subscriber: publishers, the goroutine, the reader and `stop`.
use breckr.Base.{◌<◌, ◌≡◌, true, false, List}
use breckr.Events.{
  Resource, waiting, woken, sending, Subscriber, merge, signal, wake, drain, deliver, stop, quit,
}

pub data Step (s : Subscriber) (t : Subscriber) : Type 0 where
  merges : (xs : List Resource) → t ≡ merge xs s → Step s t
  signals : 0 < s.signalling → t ≡ signal s → Step s t
  wakes : s.phase ≡ waiting → s.notify ≡ true → t ≡ wake s → Step s t
  drains : s.phase ≡ woken → t ≡ drain s → Step s t
  delivers : (event : List Resource) → s.phase ≡ sending event → t ≡ deliver event s → Step s t
  stops : t ≡ stop s → Step s t
  quits_waiting : s.phase ≡ waiting → s.done ≡ true → t ≡ quit s → Step s t
  quits_sending :
      (event : List Resource) → s.phase ≡ sending event → s.done ≡ true → t ≡ quit s → Step s t

pub data Reach (s : Subscriber) : Subscriber → Type 0 where
  here : Reach s s
  next : {t u : Subscriber} → Reach s t → Step t u → Reach s u

-- No step of the goroutine or of a publisher is left to make.
pub record IsQuiet (s : Subscriber) : Type 0 where
  pub no_token : s.notify ≡ false
  pub no_signal : s.signalling ≡ 0
  pub at_rest : s.phase ≡ waiting
