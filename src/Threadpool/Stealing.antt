-- ===== src/Threadpool/Stealing.antt =====
-- worker.rs: `find_task`, over the queues of crossbeam-deque.
pub mod Documented
pub mod Found
mod Tests
use light_speed_io.Prelude.{ℕ, zero, suc, ◌≡◌, List, [], ◌∷◌, ◌++◌, Option, none, some, map}

-- `Steal`
pub data Steal (T : Type 0) : Type 0 where
  empty : Steal T
  success : T → Steal T
  retry : Steal T

-- `Steal::success`: the stolen task, if there is one.
abbrev pub stolen : {T : Type 0} → Steal T → Option T
stolen empty = none
stolen (success t) = some t
stolen retry = none

-- The calls of crossbeam-deque. `D` is the state of all the queues; what other threads do to it at the
-- time is part of a call. `collect` is the collection of an iterator of steals into one.
pub record Deques (T S D : Type 0) : Type 0 where
  pub pop : D → Option T × D
  pub steal_batch_and_pop : D → Steal T × D
  pub steal : S → D → Steal T × D
  pub or_else : Steal T × D → (D → Steal T × D) → Steal T × D
  pub collect : List (D → Steal T × D) → D → Steal T × D

-- The first steal that is not to be retried, of this one and of what comes after.
abbrev pub unless_retry : {T D : Type 0} → Steal T × D → Option (Steal T × D) → Option (Steal T × D)
unless_retry (empty, d) rest = some (empty, d)
unless_retry (success t, d) rest = some (success t, d)
unless_retry (retry, d) rest = rest

abbrev pub stolen_task : {T D : Type 0} → Option (Steal T × D) → Option (Option T × D)
stolen_task none = none
stolen_task (some (s, d)) = some (stolen s, d)

-- A task from the thread's own queue, or else from elsewhere.
abbrev pub unless_some :
    {T D : Type 0} → Option T × D → (D → Option (Option T × D)) → Option (Option T × D)
unless_some (some t, d) elsewhere = some (some t, d)
unless_some (none, d) elsewhere = elsewhere d

module _ {T S D : Type 0} (q : Deques T S D) (stealers : List S) where
  -- One turn of the iterator: the global queue, or else the queue of another thread.
  unfoldable pub attempt : D → Steal T × D
  attempt d = q.or_else (q.steal_batch_and_pop d) (q.collect (map q.steal stealers))

  -- Turns until one is not to be retried. No result: the fuel is used up.
  unfoldable pub first_settled : ℕ → D → Option (Steal T × D)
  first_settled zero d = none
  first_settled (suc fuel) d =
      let r = attempt d in let rest = first_settled fuel r.1 in unless_retry r rest

  unfoldable pub find_task : ℕ → D → Option (Option T × D)
  find_task fuel d = unless_some (q.pop d) (λ d'. stolen_task (first_settled fuel d'))
