-- ===== src/Threadpool/Stopping/Ending.antt =====
-- threadpool.rs: the drop of a pool comes to its end.
use light_speed_io.Prelude.{
  get_elem?-set_cases, ℕ, zero, suc, ◌+◌, ◌-◌, ◌*◌, ◌<◌, ◌≤◌, ◌≡◌, ◌⊎◌, inl, inr, refl, ◌∙◌, ap,
  subst, arith, Bool, List, some, get_elem?, get_elem?_of_lt, set, length, length-set,
  lt_of_get_elem?, ℕ_discrete, dec_lt,
}
use light_speed_io.Threadpool.Stopping.{
  Member, Moves, Closing, Turn, Reach, Joined, unpark, ended, moves, unparks, start, then_,
}
use light_speed_io.Threadpool.Stopping.Members.{
  ranks, Moves-rank, ranks-set, ranks-le, Awake, Moves-Awake, unpark-Awake, ended_or_Moves,
  ended_stays,
}

-- After `n` steps of a pool of `size` threads.
record Inv (size n : ℕ) (c : Closing) : Type 0 where
  same : length c.members ≡ size
  within : c.unparked ≤ size
  spent : n + ranks c.members + (size - c.unparked) ≤ 6 * size
  woken : (i : ℕ) (m : Member) → i < c.unparked → get_elem? c.members i ≡ some m → Awake m
  gone :
      (i : ℕ) (m : Member) → suc i < c.unparked → get_elem? c.members i ≡ some m → m.stage ≡ ended

has_ended :
    (ms : List Member) (i : ℕ) (m : Member) (t : Bool)
    → get_elem? ms i ≡ some m
    → get_elem? ms i ≡ some (record { stage = ended; token = t })
    → m.stage ≡ ended
has_ended ms i m t e f =
    let same : m ≡ record { stage = ended; token = t } = cc (e, f) in
    ap (λ (x : Member). x.stage) same

Moves-Inv :
    (size n : ℕ) (c : Closing) (i : ℕ) (m m' : Member)
    → Inv size n c
    → get_elem? c.members i ≡ some m
    → Moves m m'
    → Inv size (suc n) (record c { members = set c.members i m' })
Moves-Inv size n c i m m' v e step = record {
  same = length-set c.members i m' ∙ v.same;
  within = v.within;
  spent = omega (arith, v.spent, ranks-set c.members i m m' e, Moves-rank m m' step);
  woken = λ j a lt f. elim (get_elem?-set_cases c.members i j m m' a e f) [
    | inl (q, here) ↦
        subst Awake here (Moves-Awake m m' step (v.woken i m (omega (arith, q, lt)) e))
    | inr (_, there) ↦ v.woken j a lt there
  ];
  gone = λ j a lt f. elim (get_elem?-set_cases c.members i j m m' a e f) [
    | inl (q, here) ↦ absurd (ended_stays m m' step (v.gone i m (omega (arith, q, lt)) e))
    | inr (_, there) ↦ v.gone j a lt there
  ];
}

unparks-Inv :
    (size n : ℕ) (c : Closing) (m : Member)
    → Inv size n c
    → get_elem? c.members c.unparked ≡ some m
    → Joined c
    → Inv size
        (suc n)
        (record { members = set c.members c.unparked (unpark m); unparked = suc c.unparked })
unparks-Inv size n c m v e joined =
    let small = lt_of_get_elem? c.members c.unparked e in
    record {
      same = length-set c.members c.unparked (unpark m) ∙ v.same;
      within = omega (arith, small, v.same);
      spent = omega (arith, v.spent, ranks-set c.members c.unparked m (unpark m) e, small, v.same);
      woken = λ j a lt f. elim (get_elem?-set_cases c.members c.unparked j m (unpark m) a e f) [
        | inl (q, here) ↦ subst Awake here (unpark-Awake m.stage)
        | inr (ne, there) ↦ v.woken j a (omega (arith, ne, lt)) there
      ];
      gone = λ j a lt f. elim (get_elem?-set_cases c.members c.unparked j m (unpark m) a e f) [
        | inl (q, here) ↦ absurd (omega (arith, q, lt))
        | inr (_, there) ↦ elim (ℕ_discrete (suc j) c.unparked) [
          | yes q ↦ let (t, last) = joined j q in has_ended c.members j a t there last
          | no ne ↦ v.gone j a (omega (arith, ne, lt)) there
        ]
      ];
    }

Reach-Inv :
    (members : List Member) {n : ℕ} {c : Closing} → Reach members n c → Inv (length members) n c
Reach-Inv members start = record {
  same = refl;
  within = omega arith;
  spent = omega (arith, ranks-le members);
  woken = λ i m lt e. absurd (omega (arith, lt));
  gone = λ i m lt e. absurd (omega (arith, lt));
}
Reach-Inv members (then_ {n} {c} r (moves i m m' e step)) =
    Moves-Inv (length members) n c i m m' (Reach-Inv members r) e step
Reach-Inv members (then_ {n} {c} r (unparks m e joined)) =
    unparks-Inv (length members) n c m (Reach-Inv members r) e joined

-- Every thread was unparked and has ended.
abbrev pub AllEnded : ℕ → Closing → Type 0
AllEnded size c =
    (c.unparked ≡ size) × ((i : ℕ) (m : Member) → get_elem? c.members i ≡ some m → m.stage ≡ ended)

-- The loop calls `unpark` for the next thread, or is through.
advances :
    (size n : ℕ) (c : Closing)
    → Inv size n c
    → Joined c
    → AllEnded size c ⊎ ((d : Closing) × Turn c d)
advances size n c v joined = elim (dec_lt c.unparked (length c.members)) [
  | yes more ↦ let (m, e) = get_elem?_of_lt c.members c.unparked more in inr (_, unparks m e joined)
  | no none_left ↦
      let all : c.unparked ≡ size = omega (arith, none_left, v.same, v.within) in
      inl (
        all,
        λ i m e. elim (ℕ_discrete (suc i) c.unparked) [
          | yes q ↦ let (t, last) = joined i q in has_ended c.members i m t e last
          | no ne ↦ v.gone i m (omega (arith, ne, all, v.same, lt_of_get_elem? c.members i e)) e
        ],
      )
]

proceeds :
    (size n : ℕ) (members : List Member) (u : ℕ)
    → let c : Closing = record { members = members; unparked = u } in
      Inv size n c → AllEnded size c ⊎ ((d : Closing) × Turn c d)
proceeds size n members zero v =
    advances size n (record { members = members; unparked = 0 }) v
      (λ i e. absurd (omega (arith, e)))
proceeds size n members (suc u) v =
    let (m, e) = get_elem?_of_lt members u (omega (arith, v.within, v.same)) in
    elim (ended_or_Moves m.stage m.token (v.woken u m (omega arith) e)) [
      | inr (m', step) ↦ inr (_, moves u m m' e step)
      | inl over ↦
          advances size n (record { members = members; unparked = suc u }) v
            (λ i q. (
              m.token,
              subst (λ j. get_elem? members j ≡ some (record { stage = ended; token = m.token }))
                  {x = u} (omega (arith, q))
                  (e ∙ ap (λ s. some (record { stage = s; token = m.token })) over),
            ))
    ]

-- In every state that the drop of a pool comes to, whatever its threads were doing and in whatever order
-- they go on, at most six steps for each thread were made, and either every thread was unparked and has
-- ended, or a further step can be made, where the end of a task that a thread works on is a step: the drop
-- never waits for a thread that sleeps.
pub drop_ends :
    (members : List Member) {n : ℕ} {c : Closing}
    → Reach members n c
    → (n ≤ 6 * length members) × (AllEnded (length members) c ⊎ ((d : Closing) × Turn c d))
drop_ends members {n} {c} r =
    let v = Reach-Inv members r in
    (omega (arith, v.spent), proceeds (length members) n c.members c.unparked v)
