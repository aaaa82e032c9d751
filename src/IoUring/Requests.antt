-- ===== src/IoUring/Requests.antt =====
-- io_uring.rs and get_ranges.rs: from a request of the user to the entries of a worker.
use light_speed_io.Prelude.{
  ℕ, ◌≡◌, ◌≢◌, refl, arith, true, false, List, [], ◌∷◌, ◌++◌, length, some, if◌then◌else◌, returns,
  panics, Panic, Bool-cases, ℕ_discrete, ◌⊎◌, inl, inr,
}
use light_speed_io.OpenFile
use light_speed_io.Sqe.{OffsetRange}
use light_speed_io.Ops.State.{Operation, GetRanges}
use light_speed_io.Ops.GetRanges
use light_speed_io.Ops.Submitted.{IsFresh}
use light_speed_io.Threadpool.State.{SharedState, Command}
use light_speed_io.Threadpool.Sharing.{push_task, unpark_at_most_n_threads}
use light_speed_io.IoUring.{IoUring, get_ranges, has_nul}

-- The operation that a request stands for.
abbrev pub request : List ℕ → List OffsetRange → List ℕ → GetRanges
request location ranges user_data = record {
  open_file_builder = some (OpenFile.new location);
  ranges = ranges;
  user_data = user_data;
  n_cqes_received = 0;
}

-- Where a push of a task has something to tell the manager and it is gone, it panics.
abbrev pub IsStranded : {T : Type 0} → SharedState T → Type 0
IsStranded s = (s.at_least_one_thread_is_parked ≡ true) × (s.manager_is_listening ≡ false)

-- What a push does to the shared state: one task more, and where a thread is known to be parked a
-- request to wake one.
pub record IsPushed {T : Type 0} (task : T) (s s' : SharedState T) : Type 0 where
  pub injector : s'.injector ≡ s.injector ++ (task ∷ [])
  pub chan : s'.chan_to_park_manager ≡ (
      if s.at_least_one_thread_is_parked
      then s.chan_to_park_manager ++ (Command.wake_at_most_n_threads 1 ∷ [])
      else s.chan_to_park_manager)
  pub flag : s'.at_least_one_thread_is_parked ≡ s.at_least_one_thread_is_parked
  pub listens : s'.manager_is_listening ≡ s.manager_is_listening
  pub running : s'.keep_running ≡ s.keep_running

push_task-cases :
    {T : Type 0} (task : T) (s : SharedState T)
    → (IsStranded s × (push_task task s ≡ panics Panic.manager_is_gone))
      ⊎ ((¬ IsStranded s)
          × (s' : SharedState T) × (push_task task s ≡ returns s')
          × IsPushed task s s')
unfolding push_task unpark_at_most_n_threads
push_task-cases task s = elim (Bool-cases s.at_least_one_thread_is_parked) [
  | inr none_ ↦ inr (
    λ h. cc (h.0, none_),
    record s { injector = s.injector ++ (task ∷ []) },
    simp none_,
    record { injector = refl; chan = simp none_; flag = refl; listens = refl; running = refl },
  )
  | inl some_ ↦ elim (Bool-cases s.manager_is_listening) [
    | inr gone ↦ inl ((some_, gone), simp (some_, gone))
    | inl there ↦ inr (
      λ h. cc (h.1, there),
      record s {
        injector = s.injector ++ (task ∷ []);
        chan_to_park_manager = s.chan_to_park_manager ++ (Command.wake_at_most_n_threads 1 ∷ []);
      },
      simp (some_, there),
      record { injector = refl; chan = simp some_; flag = refl; listens = refl; running = refl },
    )
  ]
]

-- A request whose path has no zero byte, with one number for each range, puts one operation at the end of
-- the global queue, as the first step of a worker wants it, and asks for one thread to be woken where
-- one is known to be parked; it panics where one is and the manager is gone. A zero byte in the
-- path, or else a number too many or too few, makes it panic.
pub get_ranges_lem :
    (location : List ℕ) (ranges : List OffsetRange) (user_data : List ℕ) (self : IoUring)
    → ((has_nul location ≡ true)
        × (get_ranges location ranges user_data self ≡ panics Panic.nul_in_path))
      ⊎ (((has_nul location ≡ false)
            × (length ranges ≢ length user_data)
            × (get_ranges location ranges user_data self ≡ panics Panic.length_mismatch))
          ⊎ (((has_nul location ≡ false)
                × (length ranges ≡ length user_data)
                × IsStranded self.threadpool.shared
                × (get_ranges location ranges user_data self ≡ panics Panic.manager_is_gone))
              ⊎ ((has_nul location ≡ false)
                  × (length ranges ≡ length user_data)
                  × (¬ IsStranded self.threadpool.shared)
                  × (s : SharedState Operation) × (get_ranges location ranges user_data self
                      ≡ returns
                          (record self { threadpool = record (self.threadpool) { shared = s } }))
                  × IsPushed
                      (Operation.get_ranges (request location ranges user_data))
                      self.threadpool.shared
                      s
                  × IsFresh (Operation.get_ranges (request location ranges user_data)))))
unfolding get_ranges GetRanges.new
get_ranges_lem location ranges user_data self = elim (Bool-cases (has_nul location)) [
  | inl nul ↦ inl (nul, simp nul)
  | inr clean ↦ elim (ℕ_discrete (length ranges) (length user_data)) [
    | no differ ↦ inr (inl (clean, differ, ground (arith, clean, differ)))
    | yes same ↦
        let task = Operation.get_ranges (request location ranges user_data) in
        elim (push_task-cases task self.threadpool.shared) [
          | inl (stranded, gone) ↦
              inr (inr (inl (clean, same, stranded, ground (arith, clean, same, gone))))
          | inr (fine, s, pushed, all) ↦ inr (
              inr (
                inr (
                  clean,
                  same,
                  fine,
                  s,
                  ground (arith, clean, same, pushed),
                  all,
                  (OpenFile.new location, refl, refl),
                )))
        ]
  ]
]
