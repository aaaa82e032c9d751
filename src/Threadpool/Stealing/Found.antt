-- ===== src/Threadpool/Stealing/Found.antt =====
-- worker.rs: what `find_task` returns.
use light_speed_io.Prelude.{
  ℕ, zero, suc, ◌≡◌, ◌≢◌, ◌⊎◌, inl, inr, refl, sym, subst, ◌∙◌, ap, List, [], ◌∷◌, ◌++◌, Option,
  none, some, map, Option-cases,
}
use mathlib.Core.List.{append-nil}
use light_speed_io.Threadpool.Stealing.{
  Steal, empty, success, retry, Deques, attempt, first_settled, stolen, unless_retry, stolen_task,
  unless_some, find_task,
}
use light_speed_io.Threadpool.Stealing.Documented.{after_retry, to_list, Documented}

Steal-cases :
    {T D : Type 0} (r : Steal T × D)
    → ((d : D) × (r ≡ (empty, d)))
      ⊎ (((t : T) × (d : D) × (r ≡ (success t, d))) ⊎ ((d : D) × (r ≡ (retry, d))))
Steal-cases (empty, d) = inl (d, refl)
Steal-cases (success t, d) = inr (inl (t, d, refl))
Steal-cases (retry, d) = inr (inr (d, refl))

module _ {T S D : Type 0} (q : Deques T S D) where
  -- Each of the queues was empty when it was asked, one after the other.
  abbrev pub AllEmpty : List S → D → D → Type 0
  AllEmpty [] d d' = d ≡ d'
  AllEmpty (s ∷ stealers) d d' = (d'' : D) × (q.steal s d ≡ (empty, d'')) × AllEmpty stealers d'' d'

  -- One turn saw the global queue empty, and then all the others.
  abbrev pub NothingSeen : List S → D → Type 0
  NothingSeen stealers d' =
      (d : D) × (d'' : D) × (q.steal_batch_and_pop d ≡ (empty, d'')) × AllEmpty stealers d'' d'

  module _ (k : Documented q) where
    -- What a steal adds to the tasks of this thread, and what it saw where it found nothing.
    abbrev Told : (D → Type 0) → D → Steal T × D → Type 0
    Told Saw d (s, d') = (k.taken d' ≡ k.taken d ++ to_list (stolen s)) × (s ≡ empty → Saw d')

    none_more : (d d' : D) → k.taken d' ≡ k.taken d ++ [] → k.taken d' ≡ k.taken d
    none_more d d' e = e ∙ append-nil (k.taken d)

    after_retry-Told :
        (Saw Saw' : D → Type 0) (d : D) (r : Steal T × D)
        → Told Saw d r
        → Told Saw' d (after_retry r)
    after_retry-Told Saw Saw' d (empty, d') (e, _) = (e, λ same. absurd (cc same))
    after_retry-Told Saw Saw' d (success t, d') (e, _) = (e, λ same. absurd (cc same))
    after_retry-Told Saw Saw' d (retry, d') (e, _) = (e, λ same. absurd (cc same))

    -- From a state to which nothing was added.
    Told-from :
        (Saw Saw' : D → Type 0) (d d' : D) (r : Steal T × D)
        → k.taken d' ≡ k.taken d ++ []
        → ((x : D) → Saw x → Saw' x)
        → Told Saw d' r
        → Told Saw' d r
    Told-from Saw Saw' d d' (s, x) same more (e, f) =
        (e ∙ ap (λ l. l ++ to_list (stolen s)) (same ∙ append-nil (k.taken d)), λ p. more x (f p))

    -- A steal `r` that is followed by `f` where it does not succeed, into `both`.
    both-Told :
        (Saw : D → D → Type 0) (Saw' : D → Type 0) (d : D) (r both : Steal T × D)
        (f : D → Steal T × D)
        → k.taken r.1 ≡ k.taken d ++ to_list (stolen r.0)
        → ((d' : D) → r ≡ (empty, d') → (both ≡ f d') × ((x : D) → Saw d' x → Saw' x))
        → ((t : T) (d' : D) → r ≡ (success t, d') → both ≡ (success t, d'))
        → ((d' : D) → r ≡ (retry, d') → both ≡ after_retry (f d'))
        → ((d' : D) → Told (Saw d') d' (f d'))
        → Told Saw' d both
    both-Told Saw Saw' d (empty, d') both f told on_empty on_success on_retry rest =
        let (e, more) = on_empty d' refl in
        subst (Told Saw' d) (sym e) (Told-from (Saw d') Saw' d d' (f d') told more (rest d'))
    both-Told Saw Saw' d (success t, d') both f told on_empty on_success on_retry rest =
        subst (Told Saw' d) (sym (on_success t d' refl)) (told, λ p. absurd (cc p))
    both-Told Saw Saw' d (retry, d') both f told on_empty on_success on_retry rest =
        subst (Told Saw' d) (sym (on_retry d' refl)) (
          after_retry-Told (Saw d') Saw' d (f d')
            (Told-from (Saw d') (Saw d') d d' (f d') told (λ x z. z) (rest d')))

    collect-Told :
        (stealers : List S) (d : D)
        → Told (AllEmpty stealers d) d (q.collect (map q.steal stealers) d)
    collect-Told [] d =
        subst (Told (AllEmpty [] d) d) (sym (k.collect_nil d))
          (sym (append-nil (k.taken d)), λ _. refl)
    collect-Told (s ∷ stealers) d =
        let fs = map q.steal stealers in
        both-Told (AllEmpty stealers) (AllEmpty (s ∷ stealers) d) d (q.steal s d)
          (q.collect (q.steal s ∷ fs) d) (q.collect fs) (k.steal_taken s d)
          (λ d' e. (k.collect_empty (q.steal s) fs d d' e, λ x rest. (d', e, rest)))
          (λ t d' e. k.collect_success (q.steal s) fs d d' t e)
          (λ d' e. k.collect_retry (q.steal s) fs d d' e) (collect-Told stealers)

    pub attempt-Told :
        (stealers : List S) (d : D) → Told (NothingSeen stealers) d (attempt q stealers d)
    unfolding attempt
    attempt-Told stealers d =
        let f = q.collect (map q.steal stealers) in
        both-Told (AllEmpty stealers) (NothingSeen stealers) d (q.steal_batch_and_pop d)
          (attempt q stealers d) f (k.batch_taken d)
          (λ d' e. (ap (λ r. q.or_else r f) e ∙ k.or_else_empty d' f, λ x rest. (d, d', e, rest)))
          (λ t d' e. ap (λ r. q.or_else r f) e ∙ k.or_else_success t d' f)
          (λ d' e. ap (λ r. q.or_else r f) e ∙ k.or_else_retry d' f) (collect-Told stealers)

-- The turns from `d` on: `n` that are to be retried, and then one that is not.
pub data Settles {T S D : Type 0} (q : Deques T S D) (stealers : List S) : ℕ → D → Type 0 where
  at_once : (d : D) → (attempt q stealers d).0 ≢ retry → Settles q stealers 0 d
  again :
      (n : ℕ) (d d' : D)
      → attempt q stealers d ≡ (retry, d')
      → Settles q stealers n d'
      → Settles q stealers (suc n) d

module _ {T S D : Type 0} (q : Deques T S D) (k : Documented q) (stealers : List S) where
  settled :
      (n : ℕ) (d : D)
      → Settles q stealers n d
      → (s : Steal T) × (d' : D) × (first_settled q stealers (suc n) d ≡ some (s, d'))
        × (k.taken d' ≡ k.taken d ++ to_list (stolen s))
        × (stolen s ≡ none → NothingSeen q stealers d')
  unfolding first_settled
  settled zero d (at_once _ ready) =
      let told = attempt-Told q k stealers d in
      elim (Steal-cases (attempt q stealers d)) [
        | inl (d', e) ↦
            let (same, saw) = subst (Told q k (NothingSeen q stealers) d) e told in
            (empty, d', ap (λ x. unless_retry x none) e, same, λ _. saw refl)
        | inr (inl (t, d', e)) ↦
            let (more, _) = subst (Told q k (NothingSeen q stealers) d) e told in
            (
              success t,
              d',
              ap (λ x. unless_retry x none) e,
              more,
              λ none_here. absurd (cc none_here),
            )
        | inr (inr (d', e)) ↦ absurd (ready (ap (λ r. r.0) e))
      ]
  settled (suc n) d (again _ _ d' e rest) =
      let (s, d'', found, more, saw) = settled n d' rest in
      let (same, _) = subst (Told q k (NothingSeen q stealers) d) e (attempt-Told q k stealers d) in
      (
        s,
        d'',
        ap (λ r. unless_retry r (first_settled q stealers (suc n) r.1)) e ∙ found,
        more ∙ ap (λ l. l ++ to_list (stolen s)) (same ∙ append-nil (k.taken d)),
        saw,
      )

  -- If each call does what its documentation says, and after the thread's own queue some turn is not to
  -- be retried, `find_task` ends: it returns just what it has taken, so no task is lost on the way, its
  -- own tasks come first, and it returns nothing only if its own queue was empty and then one turn saw
  -- the global queue and the queues of all other threads empty.
  pub find_task_lem :
      (n : ℕ) (d : D)
      → Settles q stealers n (q.pop d).1
      → (r : Option T) × (d' : D) × (find_task q stealers (suc n) d ≡ some (r, d'))
        × (k.taken d' ≡ k.taken d ++ to_list r)
        × (((t : T) × ((q.pop d).0 ≡ some t) × (r ≡ some t))
            ⊎ (((q.pop d).0 ≡ none)
                × (((t : T) × (r ≡ some t)) ⊎ ((r ≡ none) × NothingSeen q stealers d'))))
  unfolding find_task
  find_task_lem n d ends =
      let own = k.pop_taken d in
      let d' = (q.pop d).1 in
      let elsewhere = λ (x : D). stolen_task (first_settled q stealers (suc n) x) in
      elim (Option-cases (q.pop d).0) [
        | inr (t, e) ↦ (
          some t,
          d',
          ap (λ x. unless_some (x, d') elsewhere) e,
          subst (λ r. k.taken d' ≡ k.taken d ++ to_list r) e own,
          inl (t, e, refl),
        )
        | inl e ↦
            let (s, d'', found, more, saw) = settled n d' ends in
            let same : k.taken d' ≡ k.taken d ++ [] =
              subst (λ r. k.taken d' ≡ k.taken d ++ to_list r) e own in
            (
              stolen s,
              d'',
              ap (λ x. unless_some (x, d') elsewhere) e ∙ ap stolen_task found,
              more ∙ ap (λ l. l ++ to_list (stolen s)) (same ∙ append-nil (k.taken d)),
              inr (
                e,
                elim (Option-cases (stolen s)) [
                  | inl none_here ↦ inr (none_here, saw none_here)
                  | inr found_one ↦ inl found_one
                ],
              ),
            )
      ]
