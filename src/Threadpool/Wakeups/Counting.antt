-- ===== src/Threadpool/Wakeups/Counting.antt =====
-- How often a thread stands among the registrations on their way, and what tokens it has.
use light_speed_io.Prelude.{
  ℕ, ◌+◌, ◌<◌, ◌≤◌, ◌≡◌, ◌⊎◌, refl, ◌∙◌, ap, arith, Bool, true, false, List, [], ◌∷◌, ◌++◌, Option,
  none, some, get_elem?, set, length, length-set, times, get_elem?-set_self, get_elem?-set_ne,
  ℕ_discrete,
}
use light_speed_io.Threadpool.State.{Command}
use light_speed_io.Threadpool.ParkManager.{elem}
use light_speed_io.Threadpool.Wakeups.{Phase, give, idle, leaving, asleep, searching}

-- The threads whose registration is on its way.
abbrev pub registrations : List Command → List ℕ
registrations [] = []
registrations (Command.stop ∷ commands) = registrations commands
registrations (Command.thread_is_parked t ∷ commands) = t ∷ registrations commands
registrations (Command.wake_at_most_n_threads n ∷ commands) = registrations commands

pub registrations-append :
    (xs ys : List Command) → registrations (xs ++ ys) ≡ registrations xs ++ registrations ys
registrations-append [] ys = refl
registrations-append (Command.stop ∷ xs) ys = registrations-append xs ys
registrations-append (Command.thread_is_parked t ∷ xs) ys =
    ap (λ x. t ∷ x) (registrations-append xs ys)
registrations-append (Command.wake_at_most_n_threads n ∷ xs) ys = registrations-append xs ys

-- 1 for a token.
abbrev pub held : Option Bool → ℕ
held none = 0
held (some false) = 0
held (some true) = 1

-- 1 for a thread that has registered and has not come back.
abbrev pub away : Option Phase → ℕ
away none = 0
away (some searching) = 0
away (some idle) = 0
away (some leaving) = 1
away (some asleep) = 1

pub away-le : (x : Option Phase) → away x ≤ 1
away-le none = omega arith
away-le (some searching) = omega arith
away-le (some idle) = omega arith
away-le (some leaving) = omega arith
away-le (some asleep) = omega arith

pub length-give : (ts : List ℕ) (tokens : List Bool) → length (give ts tokens) ≡ length tokens
length-give [] tokens = refl
length-give (t ∷ ts) tokens = length-give ts (set tokens t true) ∙ length-set tokens t true

pub give-held :
    (ts : List ℕ) (tokens : List Bool) (i : ℕ)
    → (i < length tokens) ⊎ (times i ts ≡ 0)
    → times i ts + held (get_elem? tokens i) ≤ 1
    → held (get_elem? (give ts tokens) i) ≡ times i ts + held (get_elem? tokens i)
give-held [] tokens i lt few = omega arith
give-held (t ∷ ts) tokens i lt few = elim (ℕ_discrete t i) [
  | yes e ↦ ground (
    arith,
    length-set tokens t true,
    get_elem?-set_self tokens t true,
    give-held ts (set tokens t true) i,
  )
  | no ne ↦ ground (
    arith,
    length-set tokens t true,
    get_elem?-set_ne tokens t i true ne,
    give-held ts (set tokens t true) i,
  )
]

pub times-elem : (i : ℕ) (ts : List ℕ) → times i ts ≡ 0 → elem i ts ≡ false
times-elem i [] e = refl
times-elem i (t ∷ ts) e = ground (arith, times-elem i ts)
