-- ===== src/Threadpool/Stopping.antt =====
-- threadpool.rs: the drop of a pool, beside the threads that it waits for. The flag is already false.
pub mod Members
pub mod Ending
mod Tests
use light_speed_io.Prelude.{
  ℕ, suc, ◌+◌, ◌<◌, ◌≡◌, Bool, true, false, List, [], ◌∷◌, some, get_elem?, set, length,
}

-- Where a worker thread stands in its loop.
pub data Stage : Type 0 where
  testing : Stage  -- it reads `keep_running` next
  finding : Stage  -- inside `find_task`
  working : Stage  -- on a task that it has found
  registering : Stage  -- inside `park`, before the message to the manager
  leaving : Stage  -- before `thread::park`
  asleep : Stage
  ended : Stage

-- A thread with its token: whether `unpark` was called since it last passed `thread::park`.
pub record Member : Type 0 where
  pub stage : Stage
  pub token : Bool

-- A step of the thread's own, while `keep_running` is false.
pub data Moves : Member → Member → Type 0 where
  stops :
      (t : Bool)
      → Moves (record { stage = testing; token = t }) (record { stage = ended; token = t })
  finds :
      (t : Bool)
      → Moves (record { stage = finding; token = t }) (record { stage = working; token = t })
  finds_nothing :
      (t : Bool)
      → Moves (record { stage = finding; token = t }) (record { stage = registering; token = t })
  finishes :
      (t : Bool)
      → Moves (record { stage = working; token = t }) (record { stage = testing; token = t })
  registers :
      (t : Bool)
      → Moves (record { stage = registering; token = t }) (record { stage = leaving; token = t })
  passes :
      Moves (record { stage = leaving; token = true }) (record { stage = testing; token = false })
  sleeps :
      Moves (record { stage = leaving; token = false }) (record { stage = asleep; token = false })
  wakes :
      Moves (record { stage = asleep; token = true }) (record { stage = testing; token = false })

-- The threads, and of how many the loop over the handles has called `unpark`; it joins the last of these.
pub record Closing : Type 0 where
  pub members : List Member
  pub unparked : ℕ

abbrev pub unpark : Member → Member
unpark m = record m { token = true }

-- The handle before the next one is joined: its thread has ended.
abbrev pub Joined : Closing → Type 0
Joined c =
    (i : ℕ)
    → suc i ≡ c.unparked
    → (t : Bool) × (get_elem? c.members i ≡ some (record { stage = ended; token = t }))

pub data Turn (c : Closing) : Closing → Type 0 where
  moves :
      (i : ℕ) (m m' : Member)
      → get_elem? c.members i ≡ some m
      → Moves m m'
      → Turn c (record c { members = set c.members i m' })
  unparks :
      (m : Member)
      → get_elem? c.members c.unparked ≡ some m
      → Joined c
      → Turn c (record { members = set c.members c.unparked (unpark m); unparked = suc c.unparked })

-- From the start of the loop, with the number of steps.
pub data Reach (members : List Member) : ℕ → Closing → Type 0 where
  start : Reach members 0 (record { members = members; unparked = 0 })
  then_ : {n : ℕ} {c d : Closing} → Reach members n c → Turn c d → Reach members (suc n) d
