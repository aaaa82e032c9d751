-- ===== src/Threadpool/Order.antt =====
-- park_manager.rs: theorems about the order in which threads are woken.
use light_speed_io.Prelude.{
  ℕ, zero, suc, ◌+◌, ◌-◌, ◌≡◌, refl, arith, true, false, not, List, [], ◌∷◌, ◌++◌, Exec, returns,
  length, Bool-cases, inl, inr, length-append, ap, sym, ◌∙◌,
}
use Prim.Native.Nat.{min}
use mathlib.Core.List.{append-nil, append_assoc}
use light_speed_io.Threadpool.State.{Command, ParkManager}
use light_speed_io.Threadpool.ParkManager.{
  elem, is_empty, pop_threads, thread_is_parked, wake_at_most_n_threads, main_loop,
}

-- The flag says whether a thread is parked.
abbrev pub IsCoherent : ParkManager → Type 0
IsCoherent m = m.at_least_one_thread_is_parked ≡ not (is_empty m.parked_threads)

-- No thread registers while it is parked: where `ts` are parked at the start.
abbrev pub NoneTwice : List Command → List ℕ → Type 0
NoneTwice [] ts = Unit {0}
NoneTwice (Command.stop ∷ commands) ts = Unit {0}
NoneTwice (Command.thread_is_parked t ∷ commands) ts =
    (elem t ts ≡ false) × NoneTwice commands (ts ++ (t ∷ []))
NoneTwice (Command.wake_at_most_n_threads n ∷ commands) ts = NoneTwice commands (pop_threads n ts).1

-- The threads that ask to be parked before the manager stops.
abbrev pub registered : List Command → List ℕ
registered [] = []
registered (Command.stop ∷ commands) = []
registered (Command.thread_is_parked t ∷ commands) = t ∷ registered commands
registered (Command.wake_at_most_n_threads n ∷ commands) = registered commands

-- How many threads are to be woken before it stops, where `parked` are parked at the start: at each
-- request as many as it asks for, or all that are parked then.
abbrev pub to_wake : List Command → ℕ → ℕ
to_wake [] parked = 0
to_wake (Command.stop ∷ commands) parked = 0
to_wake (Command.thread_is_parked t ∷ commands) parked = to_wake commands (parked + 1)
to_wake (Command.wake_at_most_n_threads n ∷ commands) parked =
    min n parked + to_wake commands (parked - min n parked)

pop_threads-append : (n : ℕ) (ts : List ℕ) → (pop_threads n ts).0 ++ (pop_threads n ts).1 ≡ ts
pop_threads-append zero ts = refl
pop_threads-append (suc n) [] = refl
pop_threads-append (suc n) (t ∷ ts) = ap (λ x. t ∷ x) (pop_threads-append n ts)

length-pop_threads : (n : ℕ) (ts : List ℕ) → length (pop_threads n ts).0 ≡ min n (length ts)
length-pop_threads zero ts = omega arith
length-pop_threads (suc n) [] = omega arith
length-pop_threads (suc n) (t ∷ ts) = omega (arith, length-pop_threads n ts)

pop_threads-is_empty :
    (n : ℕ) (ts : List ℕ) → is_empty ts ≡ true → is_empty (pop_threads n ts).1 ≡ true
pop_threads-is_empty zero ts e = e
pop_threads-is_empty (suc n) [] e = refl
pop_threads-is_empty (suc n) (t ∷ ts) e = cc

-- Where the flag is right, waking at most `n` threads wakes the `n` that have waited longest, or all
-- if there are fewer, keeps the others in order, and leaves the flag right.
pub wake_at_most_n_threads_lem :
    (n : ℕ) (m : ParkManager)
    → IsCoherent m
    → let (woken, m') = wake_at_most_n_threads n m in
      (woken ++ m'.parked_threads ≡ m.parked_threads)
      × (length woken ≡ min n (length m.parked_threads))
      × IsCoherent m'
unfolding wake_at_most_n_threads
wake_at_most_n_threads_lem n m v = (
  pop_threads-append n m.parked_threads,
  length-pop_threads n m.parked_threads,
  elim (Bool-cases (is_empty m.parked_threads)) [
    | inl e ↦ ground (arith, pop_threads-is_empty n m.parked_threads e)
    | inr e ↦ ground arith
  ],
)

pub thread_is_parked_lem :
    (t : ℕ) (m : ParkManager)
    → elem t m.parked_threads ≡ false
    → thread_is_parked t m
      ≡ returns (record {
        at_least_one_thread_is_parked = true;
        parked_threads = m.parked_threads ++ (t ∷ []);
      })
unfolding thread_is_parked
thread_is_parked_lem t m e = ground arith

pub is_empty-append : (xs : List ℕ) (t : ℕ) → is_empty (xs ++ (t ∷ [])) ≡ false
is_empty-append [] t = refl
is_empty-append (x ∷ xs) t = refl

-- What the loop does with the commands that arrive until it stops.
record Served (commands : List Command) (m : ParkManager) (r : Exec (List ℕ × ParkManager))
    : Type 0 where
  woken : List ℕ
  manager : ParkManager
  result : r ≡ returns (woken, manager)
  order : woken ++ manager.parked_threads ≡ m.parked_threads ++ registered commands
  exact : length woken ≡ to_wake commands (length m.parked_threads)
  coherent : IsCoherent manager

main_loop-Served :
    (commands : List Command) (m : ParkManager)
    → IsCoherent m
    → NoneTwice commands m.parked_threads
    → Served commands m (main_loop commands m)
unfolding main_loop wake_at_most_n_threads
main_loop-Served [] m v d = record {
  woken = [];
  manager = m;
  result = refl;
  order = sym (append-nil _);
  exact = refl;
  coherent = v;
}
main_loop-Served (Command.stop ∷ commands) m v d = record {
  woken = [];
  manager = m;
  result = refl;
  order = sym (append-nil _);
  exact = refl;
  coherent = v;
}
main_loop-Served (Command.thread_is_parked t ∷ commands) m v d =
    let m1 : ParkManager = record {
      at_least_one_thread_is_parked = true;
      parked_threads = m.parked_threads ++ (t ∷ []);
    } in
    let e : m1.parked_threads ++ registered commands
        ≡ m.parked_threads ++ (t ∷ registered commands) =
      append_assoc m.parked_threads (t ∷ []) (registered commands) in
    let r = main_loop-Served commands m1 (ground (arith, is_empty-append m.parked_threads t)) d.1 in
    record {
      woken = r.woken;
      manager = r.manager;
      result = simp (thread_is_parked_lem t m d.0, r.result);
      order = r.order ∙ e;
      exact = r.exact ∙ ap (to_wake commands) (length-append m.parked_threads (t ∷ []));
      coherent = r.coherent;
    }
main_loop-Served (Command.wake_at_most_n_threads n ∷ commands) m v d =
    let (all, now, v1) = wake_at_most_n_threads_lem n m v in
    let w = wake_at_most_n_threads n m in
    let e : w.0 ++ (w.1.parked_threads ++ registered commands)
        ≡ m.parked_threads ++ registered commands =
      sym (append_assoc w.0 w.1.parked_threads (registered commands))
      ∙ ap (λ x. x ++ registered commands) all in
    let left : length w.1.parked_threads
        ≡ length m.parked_threads - min n (length m.parked_threads) =
      omega (arith, length-append w.0 w.1.parked_threads, ap length all, now) in
    let r = main_loop-Served commands w.1 v1 d in
    record {
      woken = w.0 ++ r.woken;
      manager = r.manager;
      result = simp r.result;
      order = append_assoc w.0 r.woken (r.manager).parked_threads ∙ ap (λ x. w.0 ++ x) r.order ∙ e;
      exact =
          length-append w.0 r.woken
          ∙ ap (λ x. length w.0 + x) (r.exact ∙ ap (to_wake commands) left)
          ∙ ap
              (λ x.
                x + to_wake commands (length m.parked_threads - min n (length m.parked_threads)))
              now;
      coherent = r.coherent;
    }

-- Where the flag is right and no thread registers while it is parked, the loop does not panic: it wakes
-- threads in the order in which they parked and registered, at each request as many as it asks for or
-- all that are parked then, keeps all the others, and leaves the flag right.
pub main_loop_lem :
    (commands : List Command) (m : ParkManager)
    → IsCoherent m
    → NoneTwice commands m.parked_threads
    → (woken : List ℕ) × (m' : ParkManager) × (main_loop commands m ≡ returns (woken, m'))
      × (woken ++ m'.parked_threads ≡ m.parked_threads ++ registered commands)
      × (length woken ≡ to_wake commands (length m.parked_threads))
      × IsCoherent m'
main_loop_lem commands m v d =
    let r = main_loop-Served commands m v d in
    (r.woken, r.manager, r.result, r.order, r.exact, r.coherent)
