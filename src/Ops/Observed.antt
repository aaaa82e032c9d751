-- ===== src/Ops/Observed.antt =====
-- What the crates rely on of the queues that they do not implement: an entry, message or task that
-- is accepted goes behind those that are there.
use light_speed_io.Prelude.{List, [], ◌∷◌, ◌++◌, some, ◌≡◌}
use light_speed_io.Sqe.{Entry}
use light_speed_io.Ops.State.{Host, Message, Operation}

pub record Observed {Q X W : Type 0} (h : Host Q X W) : Type 0 where
  pub queued : Q → List Entry
  pub sent : X → List Message
  pub tasks : W → List Operation
  pub queued-sq_push :
      (e : Entry) (q q' : Q) → h.sq_push e q ≡ some q' → queued q' ≡ queued q ++ (e ∷ [])
  pub sent-send : (m : Message) (x x' : X) → h.send m x ≡ some x' → sent x' ≡ sent x ++ (m ∷ [])
  pub tasks-push_task :
      (op : Operation) (t t' : W) → h.push_task op t ≡ some t' → tasks t' ≡ tasks t ++ (op ∷ [])
