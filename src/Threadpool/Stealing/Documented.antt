-- ===== src/Threadpool/Stealing/Documented.antt =====
-- What the documentation of crossbeam-deque says of its calls.
use light_speed_io.Prelude.{◌≡◌, List, [], ◌∷◌, ◌++◌, Option, none, some}
use light_speed_io.Threadpool.Stealing.{Steal, empty, success, retry, Deques, stolen}

-- A steal after one that is to be retried, where neither succeeds.
abbrev pub after_retry : {T D : Type 0} → Steal T × D → Steal T × D
after_retry (empty, d) = (retry, d)
after_retry (success t, d) = (success t, d)
after_retry (retry, d) = (retry, d)

abbrev pub to_list : {T : Type 0} → Option T → List T
to_list none = []
to_list (some t) = t ∷ []

-- What the documentation of crossbeam-deque says of the calls. `taken` are the tasks that were handed
-- to this thread.
pub record Documented {T S D : Type 0} (q : Deques T S D) : Type 0 where
  pub taken : D → List T
  pub pop_taken : (d : D) → taken (q.pop d).1 ≡ taken d ++ to_list (q.pop d).0
  pub batch_taken :
      (d : D)
      → taken (q.steal_batch_and_pop d).1 ≡ taken d ++ to_list (stolen (q.steal_batch_and_pop d).0)
  pub steal_taken :
      (s : S) (d : D) → taken (q.steal s d).1 ≡ taken d ++ to_list (stolen (q.steal s d).0)
  pub or_else_success :
      (t : T) (d : D) (f : D → Steal T × D) → q.or_else (success t, d) f ≡ (success t, d)
  pub or_else_empty : (d : D) (f : D → Steal T × D) → q.or_else (empty, d) f ≡ f d
  pub or_else_retry : (d : D) (f : D → Steal T × D) → q.or_else (retry, d) f ≡ after_retry (f d)
  pub collect_nil : (d : D) → q.collect [] d ≡ (empty, d)
  pub collect_success :
      (f : D → Steal T × D) (fs : List (D → Steal T × D)) (d d' : D) (t : T)
      → f d ≡ (success t, d')
      → q.collect (f ∷ fs) d ≡ (success t, d')
  pub collect_empty :
      (f : D → Steal T × D) (fs : List (D → Steal T × D)) (d d' : D)
      → f d ≡ (empty, d')
      → q.collect (f ∷ fs) d ≡ q.collect fs d'
  pub collect_retry :
      (f : D → Steal T × D) (fs : List (D → Steal T × D)) (d d' : D)
      → f d ≡ (retry, d')
      → q.collect (f ∷ fs) d ≡ after_retry (q.collect fs d')
