-- ===== src/IoUring/Backend.antt =====
-- io_uring.rs: `IoUring` is a backend in the sense of crates/lsio_io.
use light_speed_io.Prelude.{
  ℕ, ◌≡◌, refl, ◌∙◌, ap, false, true, List, [], ◌∷◌, ◌++◌, inl, inr, Option, none, some,
}
use light_speed_io.OpenFile.{OpenFileBuilder}
use light_speed_io.Ops.State.{Operation}
use light_speed_io.Io.{Completion, Reader, Request, IsBackend}
use light_speed_io.IoUring
use light_speed_io.IoUring.{IoUring, has_nul}
use light_speed_io.IoUring.Requests.{request, get_ranges_lem}

-- `impl Completion for IoUring`
abbrev pub completion_of : Completion IoUring
completion_of = record { completion = IoUring.completion }

-- `impl Reader for IoUring`
abbrev pub reader_of : Reader IoUring
reader_of = record { get_ranges = IoUring.get_ranges }

unfoldable pub location_of : Option OpenFileBuilder → List ℕ
location_of none = []
location_of (some b) = b.location

-- The requests in the global queue, which workers have not begun.
abbrev pub waiting : List Operation → List Request
waiting [] = []
waiting (Operation.get_ranges s ∷ ops) =
    record {
      location = location_of s.open_file_builder;
      ranges = s.ranges;
      user_data = s.user_data;
    }
    ∷ waiting ops
waiting (Operation.get_range s ∷ ops) = waiting ops
waiting (Operation.close s ∷ ops) = waiting ops

pub waiting-append :
    (ops ops' : List Operation) → waiting (ops ++ ops') ≡ waiting ops ++ waiting ops'
waiting-append [] ops' = refl
waiting-append (Operation.get_ranges s ∷ ops) ops' =
    ap
      (λ l.
        record {
          location = location_of s.open_file_builder;
          ranges = s.ranges;
          user_data = s.user_data;
        }
        ∷ l)
      (waiting-append ops ops')
waiting-append (Operation.get_range s ∷ ops) ops' = waiting-append ops ops'
waiting-append (Operation.close s ∷ ops) ops' = waiting-append ops ops'

-- While the manager of its pool listens, it takes in every request whose path has no zero byte.
unfoldable pub io_uring-IsBackend : IsBackend completion_of reader_of
unfolding location_of
io_uring-IsBackend = record {
  Accepts = λ location. has_nul location ≡ false;
  IsWorking = λ b. b.threadpool.shared.manager_is_listening ≡ true;
  asked = λ b. waiting b.threadpool.shared.injector;
  asked-get_ranges = λ location ranges user_data b works clean same.
      elim (get_ranges_lem location ranges user_data b) [
        | inl (nul, _) ↦ absurd (cc (nul, clean))
        | inr (inl (_, differ, _)) ↦ absurd (differ same)
        | inr (inr (inl (_, _, stranded, _))) ↦ absurd (cc (stranded.1, works))
        | inr (inr (inr (_, _, _, s, made, all, _))) ↦ (
          record b { threadpool = record (b.threadpool) { shared = s } },
          made,
          ap waiting all.injector
              ∙ waiting-append b.threadpool.shared.injector
                  (Operation.get_ranges (request location ranges user_data) ∷ []),
          refl,
          all.listens ∙ works,
        )
      ];
}
