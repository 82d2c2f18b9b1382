-- ===== src/Polling/Ends.antt =====
-- How `pollWithRetry`, packages/utils/src/polling.ts, ends.
use automated_cross_contract.Prelude.{
  ℕ, zero, suc, ◌+◌, ◌-◌, ◌≤◌, ◌<◌, ◌≡◌, refl, sym, ◌∙◌, ap, subst, true, false, Option, none, List,
  [], ◌∷◌, String, if◌then◌else◌, nat_eq, ltb, Bool-cases, Option-cases, inl, inr, ◌⊎◌, arith,
}
use automated_cross_contract.Polling.{
  Outcome, value, missing, threw, PollingOptions, Surroundings, Polled, found, aborted, exhausted,
  Poll, max_attempts_of, next_delay, delayed, poll_from, poll_with_retry,
}

module _ {ℓ} {A : Type ℓ} (s : Surroundings A) (options : PollingOptions) where
  abbrev pub IsMissing : Outcome A → Type 0
  IsMissing (value a) = ⊥
  IsMissing _ = Unit

  -- an attempt that gives no value and is not aborted
  pub record IsQuiet (k : ℕ) : Type ℓ where
    pub before : s.aborted_before k ≡ false
    pub missing : IsMissing (s.condition k)
    pub after : s.aborted_after k ≡ false

  abbrev pub QuietTo : ℕ → Type ℓ
  QuietTo n = (k : ℕ) → 1 ≤ k → k < n → IsQuiet k

  -- The poll stops at the attempt `k`: all before it were quiet, and at it there was a value, or the signal was
  -- aborted; or it is the last one, and was quiet as well.
  abbrev pub StopsAt : Polled A → ℕ → Type ℓ
  StopsAt (found a) k =
      QuietTo k
      × (s.aborted_before k ≡ false)
      × (s.condition k ≡ value a)
      × (s.aborted_after k ≡ false)
  StopsAt aborted k = QuietTo k × ((s.aborted_before k ≡ true) ⊎ (s.aborted_after k ≡ true))
  StopsAt (exhausted n last) k =
      (n ≡ max_attempts_of options) × (k ≡ max_attempts_of options) × QuietTo (n + 1)

  -- one pause behind each of `n` attempts, the first of them `attempt`
  abbrev pub pauses : ℕ → ℕ → List ℕ
  pauses attempt zero = []
  pauses attempt (suc n) = next_delay s options attempt ∷ pauses (attempt + 1) n

  Outcome-cases :
      (o : Outcome A) → ((a : A) × (o ≡ value a)) ⊎ ((o ≡ missing) ⊎ ((e : String) × (o ≡ threw e)))
  Outcome-cases (value a) = inl (a, refl)
  Outcome-cases missing = inr (inl refl)
  Outcome-cases (threw e) = inr (inr (e, refl))

  quiet_next : (n : ℕ) → QuietTo n → IsQuiet n → QuietTo (n + 1)
  quiet_next n before here k low high = elim (Bool-cases (nat_eq k n)) [
    | inl same ↦ subst IsQuiet (ground (arith, same)) here
    | inr other ↦ before k low (ground (arith, other, high))
  ]

  -- what is claimed of the loop at an attempt
  record IsEnd (attempt : ℕ) (p : Poll A) : Type ℓ where
    last : ℕ
    stops : StopsAt p.result last
    low : attempt ≤ max_attempts_of options → attempt ≤ last
    over : max_attempts_of options < attempt → last ≡ max_attempts_of options
    high : last ≤ max_attempts_of options
    paused : p.delays ≡ pauses attempt (last - attempt)

  pauses_step :
      (attempt last : ℕ)
      → attempt < last
      → pauses attempt (last - attempt)
        ≡ next_delay s options attempt ∷ pauses (attempt + 1) (last - (attempt + 1))
  pauses_step attempt last h =
      let one_more : last - attempt ≡ suc (last - (attempt + 1)) = omega (arith, h) in
      ap (pauses attempt) one_more

  pauses_none : (attempt n : ℕ) → n ≡ 0 → pauses attempt n ≡ []
  pauses_none attempt n h = ap (pauses attempt) h

  no_value :
      (k : ℕ)
      → s.aborted_before k ≡ false
      → s.aborted_after k ≡ false
      → IsMissing (s.condition k)
      → IsQuiet k
  no_value k before after m = record { before = before; missing = m; after = after }

  missed-IsEnd :
      (attempt : ℕ) (next : Poll A)
      → attempt ≤ max_attempts_of options
      → IsEnd (attempt + 1) next
      → IsEnd attempt (
          if ltb attempt (max_attempts_of options)
          then delayed s options (next_delay s options attempt) next
          else next)
  missed-IsEnd attempt next small h = elim (Bool-cases (ltb attempt (max_attempts_of options))) [
    | inl more ↦
        let later : attempt < h.last = ground (arith, h.low, more) in
        rw more (record {
          last = h.last;
          stops = h.stops;
          low = λ _. omega (arith, later);
          over = λ past. absurd (omega (arith, past, small));
          high = h.high;
          paused =
              ap (◌∷◌ (next_delay s options attempt)) h.paused
              ∙ sym (pauses_step attempt h.last later);
        })
    | inr at_last ↦
        let reached : attempt ≡ max_attempts_of options = ground (arith, at_last, small) in
        rw at_last (record {
          last = h.last;
          stops = h.stops;
          low = λ _. omega (arith, reached, h.over (omega (arith, reached)));
          over = λ past. absurd (omega (arith, past, small));
          high = h.high;
          paused =
              h.paused
              ∙ pauses_none (attempt + 1) (h.last - (attempt + 1)) (omega (arith, h.high, reached))
              ∙ sym (pauses_none attempt (h.last - attempt) (omega (arith, reached, h.high)));
        })
  ]

  stops_here :
      (attempt : ℕ) (p : Poll A)
      → attempt ≤ max_attempts_of options
      → StopsAt p.result attempt
      → p.delays ≡ []
      → IsEnd attempt p
  stops_here attempt p small stops unpaused = record {
    last = attempt;
    stops = stops;
    low = λ _. omega arith;
    over = λ past. absurd (omega (arith, past, small));
    high = small;
    paused = unpaused ∙ sym (pauses_none attempt (attempt - attempt) (omega arith));
  }

  poll_from-IsEnd :
      (left attempt : ℕ) (last : Option String)
      → attempt + left ≡ max_attempts_of options + 1
      → QuietTo attempt
      → IsEnd attempt (poll_from s options left attempt last)
  unfolding poll_from
  poll_from-IsEnd zero attempt last total quiet = record {
    last = max_attempts_of options;
    stops = (refl, refl, subst QuietTo (omega (arith, total)) quiet);
    low = λ small. absurd (omega (arith, small, total));
    over = λ _. refl;
    high = omega arith;
    paused = sym (pauses_none attempt (max_attempts_of options - attempt) (omega (arith, total)));
  }
  poll_from-IsEnd (suc left) attempt last total quiet =
      let small : attempt ≤ max_attempts_of options = omega (arith, total) in
      let missed : (said : Option String)
          → IsQuiet attempt
          → IsEnd attempt (
              if ltb attempt (max_attempts_of options)
              then delayed s options (next_delay s options attempt)
                  (poll_from s options left (attempt + 1) said)
              else poll_from s options left (attempt + 1) said) =
        λ said quiet_here. missed-IsEnd attempt _ small (
          poll_from-IsEnd left (attempt + 1) said (omega (arith, total))
            (quiet_next attempt quiet quiet_here)) in
      elim (Bool-cases (s.aborted_before attempt)) [
        | inl stopped ↦
            rw (stopped, poll_from) (stops_here attempt _ small (quiet, inl stopped) refl)
        | inr free ↦ elim (Bool-cases (s.aborted_after attempt)) [
          | inl stopped ↦
              rw (free, stopped, poll_from) (stops_here attempt _ small (quiet, inr stopped) refl)
          | inr still ↦ elim (Outcome-cases (s.condition attempt)) [
            | inl (a, here) ↦
                rw (free, still, here, poll_from)
                  (stops_here attempt _ small (quiet, free, here, still) refl)
            | inr (inl here) ↦
                rw (free, still, here, poll_from)
                  (missed _ (no_value attempt free still (subst IsMissing (sym here) tt)))
            | inr (inr (e, here)) ↦
                rw (free, still, here, poll_from)
                  (missed _ (no_value attempt free still (subst IsMissing (sym here) tt)))
          ]
        ]
      ]

  some_attempt : 1 ≤ max_attempts_of options
  some_attempt = elim (Option-cases options.max_attempts) [
    | inl unset ↦ rw unset (omega arith)
    | inr (n, given) ↦ rw given (ground arith)
  ]

  -- `pollWithRetry` always ends, at one of the configured number of attempts: with the first value, if no signal
  -- aborts it up to then; aborted, at the first attempt at which the signal says so; or exhausted, at the last one,
  -- when all gave nothing. Behind each attempt before that one it pauses exactly once, and at no other time.
  pub poll_with_retry-Ends :
      (k : ℕ) × (1 ≤ k)
      × (k ≤ max_attempts_of options)
      × StopsAt (poll_with_retry s options).result k
      × ((poll_with_retry s options).delays ≡ pauses 1 (k - 1))
  unfolding poll_with_retry
  poll_with_retry-Ends =
      let h =
        poll_from-IsEnd (max_attempts_of options) 1 none (omega arith)
          (λ k low high. absurd (omega (arith, low, high))) in
      (h.last, h.low some_attempt, h.high, h.stops, h.paused)
