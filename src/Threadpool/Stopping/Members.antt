-- ===== src/Threadpool/Stopping/Members.antt =====
-- threadpool.rs: what a thread can still do while the pool is dropped.
use light_speed_io.Prelude.{
  ℕ, zero, suc, ◌+◌, ◌*◌, ◌<◌, ◌≤◌, ◌≡◌, ◌≢◌, ◌⊎◌, inl, inr, refl, arith, Bool, true, false, List,
  [], ◌∷◌, some, get_elem?, set, length,
}
use light_speed_io.Threadpool.Stopping.{
  Stage, Member, Moves, testing, finding, working, registering, leaving, asleep, ended, stops,
  finds, finds_nothing, finishes, registers, passes, sleeps, wakes,
}

-- How many steps a thread can still make.
abbrev pub rank : Stage → ℕ
rank ended = 0
rank testing = 1
rank working = 2
rank asleep = 2
rank leaving = 3
rank registering = 4
rank finding = 5

abbrev pub ranks : List Member → ℕ
ranks [] = 0
ranks (m ∷ ms) = rank m.stage + ranks ms

pub Moves-rank : (m m' : Member) → Moves m m' → rank m'.stage < rank m.stage
Moves-rank _ _ (stops t) = omega arith
Moves-rank _ _ (finds t) = omega arith
Moves-rank _ _ (finds_nothing t) = omega arith
Moves-rank _ _ (finishes t) = omega arith
Moves-rank _ _ (registers t) = omega arith
Moves-rank _ _ passes = omega arith
Moves-rank _ _ sleeps = omega arith
Moves-rank _ _ wakes = omega arith

pub ranks-set :
    (ms : List Member) (i : ℕ) (m m' : Member)
    → get_elem? ms i ≡ some m
    → ranks (set ms i m') + rank m.stage ≡ ranks ms + rank m'.stage
ranks-set [] i m m' e = absurd (cc)
ranks-set (x ∷ ms) zero m m' e = ground arith
ranks-set (x ∷ ms) (suc i) m m' e = omega (arith, ranks-set ms i m m' e)

pub ranks-le : (ms : List Member) → ranks ms ≤ 5 * length ms
ranks-le [] = omega arith
ranks-le (m ∷ ms) = omega (arith, ranks-le ms, rank-le m.stage)
  where
    rank-le : (s : Stage) → rank s ≤ 5
    rank-le ended = omega arith
    rank-le testing = omega arith
    rank-le working = omega arith
    rank-le asleep = omega arith
    rank-le leaving = omega arith
    rank-le registering = omega arith
    rank-le finding = omega arith

-- A thread that was unparked has its token, or is past every place where it could sleep.
abbrev pub AwakeAt : Stage → Bool → Type 0
AwakeAt ended t = Unit {0}
AwakeAt testing t = Unit {0}
AwakeAt working t = Unit {0}
AwakeAt asleep t = t ≡ true
AwakeAt leaving t = t ≡ true
AwakeAt registering t = t ≡ true
AwakeAt finding t = t ≡ true

abbrev pub Awake : Member → Type 0
Awake m = AwakeAt m.stage m.token

pub Moves-Awake : (m m' : Member) → Moves m m' → Awake m → Awake m'
Moves-Awake _ _ (stops t) a = tt
Moves-Awake _ _ (finds t) a = tt
Moves-Awake _ _ (finds_nothing t) a = a
Moves-Awake _ _ (finishes t) a = tt
Moves-Awake _ _ (registers t) a = a
Moves-Awake _ _ passes a = tt
Moves-Awake _ _ sleeps a = a
Moves-Awake _ _ wakes a = tt

pub unpark-Awake : (s : Stage) → AwakeAt s true
unpark-Awake ended = tt
unpark-Awake testing = tt
unpark-Awake working = tt
unpark-Awake asleep = refl
unpark-Awake leaving = refl
unpark-Awake registering = refl
unpark-Awake finding = refl

-- It has ended, or can make a step.
pub ended_or_Moves :
    (s : Stage) (t : Bool)
    → AwakeAt s t
    → (s ≡ ended) ⊎ ((m' : Member) × Moves (record { stage = s; token = t }) m')
ended_or_Moves ended t a = inl refl
ended_or_Moves testing t a = inr (_, stops t)
ended_or_Moves working t a = inr (_, finishes t)
ended_or_Moves registering t a = inr (_, registers t)
ended_or_Moves finding t a = inr (_, finds t)
ended_or_Moves asleep true a = inr (_, wakes)
ended_or_Moves asleep false a = absurd (cc a)
ended_or_Moves leaving true a = inr (_, passes)
ended_or_Moves leaving false a = absurd (cc a)

pub ended_stays : (m m' : Member) → Moves m m' → m.stage ≢ ended
ended_stays _ _ (stops t) e = absurd (cc e)
ended_stays _ _ (finds t) e = absurd (cc e)
ended_stays _ _ (finds_nothing t) e = absurd (cc e)
ended_stays _ _ (finishes t) e = absurd (cc e)
ended_stays _ _ (registers t) e = absurd (cc e)
ended_stays _ _ passes e = absurd (cc e)
ended_stays _ _ sleeps e = absurd (cc e)
ended_stays _ _ wakes e = absurd (cc e)
