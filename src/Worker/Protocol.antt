-- ===== src/Worker/Protocol.antt =====
-- worker.rs and the kernel as a system of steps: the worker submits operations, the kernel takes entries
-- from the submission queue, and each entry that it has taken is completed once, in any order.
pub mod Kept
pub mod Sums
pub mod Answered
pub mod Steps
pub mod Ended
pub mod Bounded
pub mod Room
pub mod Accounted
pub mod Tests
use light_speed_io.Prelude.{ℕ, suc, ◌≡◌, List, [], ◌∷◌, ◌++◌, Exec, returns, ◌+◌, some}
use light_speed_io.Prelude.Int.{ℤ}
use light_speed_io.OpenFile.{Statx}
use light_speed_io.Sqe.{Entry}
use light_speed_io.Ops.State.{Operation, Host, World, Completion}
use light_speed_io.Ops.Observed.{Observed}
use light_speed_io.Ops.Submitted.{IsFresh}
use light_speed_io.Ops.Accounts.{reads_as}
use light_speed_io.Worker.{UringWorker, handle_cqe, submit, new}

-- `taken` are the entries that the kernel works on.
pub record System (Q X W : Type 0) : Type 0 where
  pub worker : UringWorker Q X W
  pub taken : List Entry

-- The completion of an entry carries its user data.
abbrev pub completion : Entry → ℤ → Statx → Completion
completion entry result statx = record {
  user_data = entry.user_data;
  result = result;
  statx = statx;
}

abbrev pub with_queue : {Q X W : Type 0} → Q → UringWorker Q X W → UringWorker Q X W
with_queue q s = record s { world = record (s.world) { sq = q } }

module _ {Q X W : Type 0} (h : Host Q X W) (obs : Observed h) where
  -- The entries without a completion: with the kernel, and behind them those still in the queue.
  abbrev pub outstanding : System Q X W → List Entry
  outstanding p = p.taken ++ obs.queued p.worker.world.sq

  pub data Step (p : System Q X W) : System Q X W → Type 0 where
    takes :
        (es : List Entry) (q : Q)
        → obs.queued p.worker.world.sq ≡ es ++ obs.queued q
        → Step p (record { worker = with_queue q p.worker; taken = p.taken ++ es })
    completes :
        (before : List Entry) (entry : Entry) (after : List Entry) (result : ℤ) (statx : Statx)
        (s : UringWorker Q X W)
        → p.taken ≡ before ++ (entry ∷ after)
        → handle_cqe h (completion entry result statx) p.worker ≡ returns s
        → Step p (record { worker = s; taken = before ++ after })
    submits :
        (op : Operation) (s : UringWorker Q X W)
        → IsFresh op
        → submit h op p.worker ≡ returns s
        → Step p (record { worker = s; taken = p.taken })

  -- The states that a worker comes to from a world with an empty submission queue.
  pub data Reach (w : World Q X W) : System Q X W → Type 0 where
    start : obs.queued w.sq ≡ [] → Reach w (record { worker = new w; taken = [] })
    then_ : {p q : System Q X W} → Reach w p → Step p q → Reach w q

  -- How many operations were submitted on the way, and how many completions were handled.
  unfoldable pub submissions : {w : World Q X W} {p : System Q X W} → Reach w p → ℕ
  submissions (start e) = 0
  submissions (then_ r (takes es q e)) = submissions r
  submissions (then_ r (completes before entry after result statx s e f)) = submissions r
  submissions (then_ r (submits op s e f)) = suc (submissions r)

  unfoldable pub completions : {w : World Q X W} {p : System Q X W} → Reach w p → ℕ
  completions (start e) = 0
  completions (then_ r (takes es q e)) = completions r
  completions (then_ r (completes before entry after result statx s e f)) = suc (completions r)
  completions (then_ r (submits op s e f)) = completions r

  -- How many reads were submitted on the way that the user knows as `k`.
  unfoldable pub reads_submitted : ℕ → {w : World Q X W} {p : System Q X W} → Reach w p → ℕ
  reads_submitted k (start e) = 0
  reads_submitted k (then_ r (takes es q e)) = reads_submitted k r
  reads_submitted k (then_ r (completes before entry after result statx s e f)) =
      reads_submitted k r
  reads_submitted k (then_ r (submits op s e f)) = reads_submitted k r + reads_as k (some op)
