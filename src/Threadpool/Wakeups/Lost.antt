-- ===== src/Threadpool/Wakeups/Lost.antt =====
-- The pool: a theorem about a push while a thread is about to park.
use light_speed_io.Prelude.{
  ℕ, ◌≡◌, refl, arith, true, false, [], ◌∷◌, ◌++◌, some, get_elem?, set, get_elem?-set_self,
  lt_of_get_elem?,
}
use light_speed_io.Threadpool.State.{Command, ParkManager}
use light_speed_io.Threadpool.ParkManager.{thread_is_parked}
use light_speed_io.Threadpool.Sharing.{push_task, register, unpark_at_most_n_threads}
use light_speed_io.Threadpool.Wakeups.{
  Pool, here, step, Reach, pushes, registers, sleeps, notes, idle, leaving, asleep, received,
}

-- A thread that has found nothing, in a pool where no thread is known to be parked, the manager listens and
-- nothing is under way.
pub record IsAboutToPark {T : Type 0} (p : Pool T) (i : ℕ) : Type 0 where
  pub idle_thread : get_elem? p.phases i ≡ some idle
  pub no_token : get_elem? p.tokens i ≡ some false
  pub no_task : (p.shared).injector ≡ []
  pub no_command : (p.shared).chan_to_park_manager ≡ []
  pub flag : (p.shared).at_least_one_thread_is_parked ≡ false
  pub listens : (p.shared).manager_is_listening ≡ true
  pub none_parked : (p.manager).parked_threads ≡ []

-- From such a pool, when a task is pushed before the thread registers, a state can be reached, with no
-- early return from `thread::park`, where the task waits, the thread is asleep without a token, and no
-- command is on its way to wake it.
pub lost_wakeup :
    {T : Type 0} (p : Pool T) (i : ℕ) (task : T)
    → IsAboutToPark p i
    → (q : Pool T) × Reach false p q
      × ((q.shared).injector ≡ task ∷ [])
      × ((q.shared).chan_to_park_manager ≡ [])
      × (get_elem? q.phases i ≡ some asleep)
      × (get_elem? q.tokens i ≡ some false)
unfolding push_task unpark_at_most_n_threads register thread_is_parked
lost_wakeup {T} p i task v =
    let p1 : Pool T = record p {
      shared = record (p.shared) { injector = (p.shared).injector ++ (task ∷ []) };
    } in
    let p2 : Pool T = record p1 {
      shared = record (p1.shared) { chan_to_park_manager = Command.thread_is_parked i ∷ [] };
      phases = set p.phases i leaving;
    } in
    let m : ParkManager = record {
      at_least_one_thread_is_parked = true;
      parked_threads = i ∷ [];
    } in
    let p3 : Pool T = record p2 { shared = received [] m p2.shared; manager = m } in
    let p4 : Pool T = record p3 { phases = set (set p.phases i leaving) i asleep } in
    let lt = lt_of_get_elem? p.phases i v.idle_thread in
    let left : get_elem? (set p.phases i leaving) i ≡ some leaving =
      get_elem?-set_self p.phases i leaving lt in
    (
      p4,
      step (pushes task p1.shared (simp v.flag)) (
          step (registers i p2.shared v.idle_thread (simp (v.listens, v.no_command))) (
            step (notes i [] m (ground arith) (ground arith))
              (step (sleeps i left v.no_token) here))),
      ground arith,
      refl,
      get_elem?-set_self (set p.phases i leaving) i asleep
          (lt_of_get_elem? (set p.phases i leaving) i left),
      v.no_token,
    )
