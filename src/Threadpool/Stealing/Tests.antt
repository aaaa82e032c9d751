-- ===== src/Threadpool/Stealing/Tests.antt =====
-- `find_task` on queues made of lists.
use light_speed_io.Prelude.{
  ℕ, zero, suc, ◌≡◌, ◌⊎◌, refl, sym, ap, List, [], ◌∷◌, ◌++◌, Option, none, some,
}
use mathlib.Core.List.{append-nil}
use light_speed_io.Threadpool.Stealing.{
  Steal, empty, success, retry, Deques, attempt, stolen, find_task,
}
use light_speed_io.Threadpool.Stealing.Documented.{after_retry, to_list, Documented}
use light_speed_io.Threadpool.Stealing.Found.{Settles, at_once, again, NothingSeen, find_task_lem}

-- The own queue, the global one, and that of one other thread. `contended` steals are to be retried.
record Queues : Type 0 where
  local : List ℕ
  global : List ℕ
  other : List ℕ
  contended : ℕ
  taken : List ℕ

abbrev pop_from : List ℕ → Queues → Option ℕ × Queues
pop_from [] d = (none, d)
pop_from (t ∷ ts) d = (some t, record d { local = ts; taken = d.taken ++ (t ∷ []) })

-- The whole of the global queue is one batch.
abbrev batch_from : ℕ → List ℕ → Queues → Steal ℕ × Queues
batch_from (suc n) ts d = (retry, record d { contended = n })
batch_from zero [] d = (empty, d)
batch_from zero (t ∷ ts) d =
    (success t, record d { local = d.local ++ ts; global = []; taken = d.taken ++ (t ∷ []) })

-- The stealer 0 is that of the own queue.
abbrev steal_from : ℕ → List ℕ → List ℕ → Queues → Steal ℕ × Queues
steal_from zero [] other d = (empty, d)
steal_from zero (t ∷ ts) other d = (success t, record d { local = ts; taken = d.taken ++ (t ∷ []) })
steal_from (suc s) own [] d = (empty, d)
steal_from (suc s) own (t ∷ ts) d =
    (success t, record d { other = ts; taken = d.taken ++ (t ∷ []) })

abbrev either : Steal ℕ × Queues → (Queues → Steal ℕ × Queues) → Steal ℕ × Queues
either (empty, d) f = f d
either (success t, d) f = (success t, d)
either (retry, d) f = after_retry (f d)

abbrev each : List (Queues → Steal ℕ × Queues) → Queues → Steal ℕ × Queues
each [] d = (empty, d)
each (f ∷ fs) d = either (f d) (each fs)

abbrev lists : Deques ℕ ℕ Queues
lists = record {
  pop = λ d. pop_from d.local d;
  steal_batch_and_pop = λ d. batch_from d.contended d.global d;
  steal = λ s d. steal_from s d.local d.other d;
  or_else = either;
  collect = each;
}

popped : (l : List ℕ) (d : Queues) → (pop_from l d).1.taken ≡ d.taken ++ to_list (pop_from l d).0
popped [] d = sym (append-nil d.taken)
popped (t ∷ ts) d = refl

batched :
    (n : ℕ) (l : List ℕ) (d : Queues)
    → (batch_from n l d).1.taken ≡ d.taken ++ to_list (stolen (batch_from n l d).0)
batched (suc n) l d = sym (append-nil d.taken)
batched zero [] d = sym (append-nil d.taken)
batched zero (t ∷ ts) d = refl

taken_away :
    (s : ℕ) (l m : List ℕ) (d : Queues)
    → (steal_from s l m d).1.taken ≡ d.taken ++ to_list (stolen (steal_from s l m d).0)
taken_away zero [] m d = sym (append-nil d.taken)
taken_away zero (t ∷ ts) m d = refl
taken_away (suc s) l [] d = sym (append-nil d.taken)
taken_away (suc s) l (t ∷ ts) d = refl

abbrev lists-Documented : Documented lists
lists-Documented = record {
  taken = λ d. d.taken;
  pop_taken = λ d. popped d.local d;
  batch_taken = λ d. batched d.contended d.global d;
  steal_taken = λ s d. taken_away s d.local d.other d;
  or_else_success = λ t d f. refl;
  or_else_empty = λ d f. refl;
  or_else_retry = λ d f. refl;
  collect_nil = λ d. refl;
  collect_success = λ f fs d d' t e. ap (λ r. either r (each fs)) e;
  collect_empty = λ f fs d d' e. ap (λ r. either r (each fs)) e;
  collect_retry = λ f fs d d' e. ap (λ r. either r (each fs)) e;
}

-- Two tasks with the other thread, and a global queue that is contended once.
abbrev before : Queues
before = record { local = []; global = []; other = 7 ∷ 8 ∷ []; contended = 1; taken = [] }

-- The queues of all threads, with none to steal from while the global queue is contended.
abbrev none_yet : Queues
none_yet = record before { other = [] }

settles : Settles lists (0 ∷ 1 ∷ []) 1 none_yet
unfolding attempt
settles =
    again 0 none_yet (record none_yet { contended = 0 }) refl
      (at_once (record none_yet { contended = 0 }) (λ e. absurd (cc e)))

abbrev no_task : Option ℕ
no_task = none

find_task_lem_example :
    (r : Option ℕ) × (d' : Queues) × (find_task lists (0 ∷ 1 ∷ []) 2 none_yet ≡ some (r, d'))
    × (d'.taken ≡ [] ++ to_list r)
    × (((t : ℕ) × (no_task ≡ some t) × (r ≡ some t))
        ⊎ ((no_task ≡ none)
            × (((t : ℕ) × (r ≡ some t)) ⊎ ((r ≡ none) × NothingSeen lists (0 ∷ 1 ∷ []) d'))))
find_task_lem_example = find_task_lem lists lists-Documented (0 ∷ 1 ∷ []) 1 none_yet settles

-- A success elsewhere is taken although the global queue was contended.
found_elsewhere :
    find_task lists (0 ∷ 1 ∷ []) 1 before
    ≡ some (some 7, record before { other = 8 ∷ []; contended = 0; taken = 7 ∷ [] })
unfolding find_task attempt light_speed_io.Threadpool.Stealing.first_settled
found_elsewhere = refl
