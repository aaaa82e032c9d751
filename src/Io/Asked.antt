-- ===== src/Io/Asked.antt =====
-- A backend that is asked many times.
use light_speed_io.Prelude.{
  ◌≡◌, refl, sym, ◌∙◌, ap, List, [], ◌∷◌, ◌++◌, length, Exec, ◌>>=◌, returns,
}
use mathlib.Core.List.{append-nil, append_assoc}
use light_speed_io.Io.{Completion, Reader, Request, IsBackend}

module _ {B : Type 0} (c : Completion B) (r : Reader B) (k : IsBackend c r) where
  -- One request after another.
  unfoldable pub ask_all : List Request → B → Exec B
  ask_all [] b = returns b
  ask_all (q ∷ qs) b = r.get_ranges q.location q.ranges q.user_data b >>= ask_all qs

  -- Each path is accepted, and each range has its number.
  abbrev pub AllProper : List Request → Type 0
  AllProper [] = Unit {0}
  AllProper (q ∷ qs) = k.Accepts q.location × (length q.ranges ≡ length q.user_data) × AllProper qs

  -- By a backend that works all requests are taken in, in their order, behind those before.
  pub asked-ask_all :
      (qs : List Request) (b : B)
      → k.IsWorking b
      → AllProper qs
      → (b' : B) × (ask_all qs b ≡ returns b')
        × (k.asked b' ≡ k.asked b ++ qs)
        × (c.completion b' ≡ c.completion b)
  unfolding ask_all
  asked-ask_all [] b works h = (b, refl, sym (append-nil (k.asked b)), refl)
  asked-ask_all (q ∷ qs) b works (accepted, same, rest) =
      let (b1, made, one, quiet, works1) =
        k.asked-get_ranges q.location q.ranges q.user_data b works accepted same in
      let (b2, all, more, still) = asked-ask_all qs b1 works1 rest in
      (
        b2,
        simp (made, all),
        more ∙ (ap (λ l. l ++ qs) one ∙ append_assoc (k.asked b) (q ∷ []) qs),
        still ∙ quiet,
      )
