-- ===== src/Service/SourcePolicy/Lookups.antt =====
-- internal/service/sourcepolicy.go: how often the domain controller lookup is asked, and what it finds.
use emly_updater.Base.{
  lt_ℤ, pos, to_ℕ, ℕ, zero, suc, ◌+◌, ◌≤◌, ◌<◌, ◌≡◌, refl, ◌∙◌, ap, subst, String, Bool, true,
  false, if_intro, arith,
}
use emly_updater.Policy.Document.{DcLookupRetry}
use emly_updater.Service.SourcePolicy.{Lookup, found, lost, asked, retried, retries, resolve_dc}

abbrev pub is_lost : Lookup → Bool
is_lost (found d) = false
is_lost (lost e) = true

asked-lost :
    (a : Lookup) (later : Lookup × ℕ) → is_lost a ≡ true → asked a later ≡ (later.0, suc later.1)
asked-lost (found d) later h = absurd (ground arith)
asked-lost (lost e) later h = refl

asked-found :
    (a : Lookup) (later : Lookup × ℕ) (d : String) → a ≡ found d → asked a later ≡ (found d, 1)
asked-found a later d h = rw h refl

asked-bound : (a : Lookup) (later : Lookup × ℕ) → (asked a later).1 ≤ suc later.1
asked-bound (found d) later = omega arith
asked-bound (lost e) later = omega arith

asked_lost :
    (a : Lookup) (later : Lookup × ℕ)
    → is_lost a ≡ true
    → is_lost later.0 ≡ true
    → is_lost (asked a later).0 ≡ true
asked_lost (found d) later h k = h
asked_lost (lost e) later h k = k

module _ (answers : ℕ → Lookup) (stops : ℕ → Bool) where
  retried-bound : (left n : ℕ) (last : Lookup) → (retried answers stops left n last).1 ≤ left
  unfolding retried
  retried-bound zero n last = omega arith
  retried-bound (suc left) n last =
      if_intro (λ (r : Lookup × ℕ). r.1 ≤ suc left) (stops n) (λ _. omega arith)
        (λ _. omega (
          arith,
          asked-bound (answers n) (retried answers stops left (suc n) (answers n)),
          retried-bound left (suc n) (answers n),
        ))

  retried-lost :
      (left n : ℕ) (last : Lookup)
      → is_lost last ≡ true
      → ((k : ℕ) → is_lost (answers k) ≡ true)
      → is_lost (retried answers stops left n last).0 ≡ true
  unfolding retried
  retried-lost zero n last h all = h
  retried-lost (suc left) n last h all =
      if_intro (λ (r : Lookup × ℕ). is_lost r.0 ≡ true) (stops n) (λ _. h)
        λ _.
          asked_lost (answers n) (retried answers stops left (suc n) (answers n)) (all n)
            (retried-lost left (suc n) (answers n) (all n) all)

  retried-finds :
      (k left n : ℕ) (last : Lookup) (d : String)
      → k < left
      → ((j : ℕ) → j < k → is_lost (answers (n + j)) ≡ true)
      → ((j : ℕ) → j ≤ k → stops (n + j) ≡ false)
      → answers (n + k) ≡ found d
      → retried answers stops left n last ≡ (found d, suc k)
  unfolding retried
  retried-finds k zero n last d near fails on h = absurd (omega arith)
  retried-finds zero (suc left) n last d near fails on h =
      let P = λ (r : Lookup × ℕ). r ≡ (found d, 1) in
      let same : n + 0 ≡ n = omega arith in
      if_intro P (stops n)
        (λ t. absurd (ground (arith, subst (λ (i : ℕ). stops i ≡ false) same (on 0 (omega arith)))))
        λ _.
          asked-found (answers n) (retried answers stops left (suc n) (answers n)) d
            (subst (λ (i : ℕ). answers i ≡ found d) same h)
  retried-finds (suc k) (suc left) n last d near fails on h =
      let P = λ (r : Lookup × ℕ). r ≡ (found d, suc (suc k)) in
      let same : n + 0 ≡ n = omega arith in
      let later = retried answers stops left (suc n) (answers n) in
      let step : (j : ℕ) → n + suc j ≡ suc n + j = λ j. omega arith in
      let ih : later ≡ (found d, suc k) =
        retried-finds k left (suc n) (answers n) d (omega arith)
          (λ j l.
            subst (λ (i : ℕ). is_lost (answers i) ≡ true) (step j) (fails (suc j) (omega arith)))
          (λ j l. subst (λ (i : ℕ). stops i ≡ false) (step j) (on (suc j) (omega arith)))
          (subst (λ (i : ℕ). answers i ≡ found d) (step k) h) in
      if_intro P (stops n)
        (λ t. absurd (ground (arith, subst (λ (i : ℕ). stops i ≡ false) same (on 0 (omega arith)))))
        λ _.
          asked-lost (answers n) later
            (subst (λ (i : ℕ). is_lost (answers i) ≡ true) same (fails 0 (omega arith)))
          ∙ ap (λ (r : Lookup × ℕ). (r.0, suc r.1)) ih

  pub resolve_dc-bound :
      (r : DcLookupRetry) (joined : Bool)
      → (resolve_dc r answers stops joined).1 ≤ suc (retries r joined)
  unfolding resolve_dc
  resolve_dc-bound r joined = omega (
    arith,
    asked-bound (answers 0) (retried answers stops (retries r joined) 1 (answers 0)),
    retried-bound (retries r joined) 1 (answers 0),
  )

  pub resolve_dc-lost :
      (r : DcLookupRetry) (joined : Bool)
      → ((k : ℕ) → is_lost (answers k) ≡ true)
      → is_lost (resolve_dc r answers stops joined).0 ≡ true
  unfolding resolve_dc
  resolve_dc-lost r joined all =
      asked_lost (answers 0) (retried answers stops (retries r joined) 1 (answers 0)) (all 0)
        (retried-lost (retries r joined) 1 (answers 0) (all 0) all)

  granted-retries :
      (r : DcLookupRetry)
      → lt_ℤ (pos 0) r.attempts ≡ true
      → lt_ℤ (pos 0) r.delay_seconds ≡ true
      → retries r true ≡ to_ℕ r.attempts
  unfolding retries
  granted-retries r a d = rw (a, d) refl

  -- On a domain-joined machine, with a policy whose attempts and delay are positive, the first answer that
  -- is no error is what the lookup gives, provided that at most `attempts` errors come before it and the
  -- service does not stop in a wait before it; the lookup is asked as often as there were errors, and once
  -- more.
  pub resolve_dc-finds :
      (r : DcLookupRetry) (k : ℕ) (d : String)
      → lt_ℤ (pos 0) r.attempts ≡ true
      → lt_ℤ (pos 0) r.delay_seconds ≡ true
      → k ≤ to_ℕ r.attempts
      → ((j : ℕ) → j < k → is_lost (answers j) ≡ true)
      → ((j : ℕ) → j ≤ k → stops j ≡ false)
      → answers k ≡ found d
      → resolve_dc r answers stops true ≡ (found d, suc k)
  unfolding resolve_dc
  resolve_dc-finds r zero d some_left spaced near fails on h =
      asked-found (answers 0) (retried answers stops (retries r true) 1 (answers 0)) d h
  resolve_dc-finds r (suc k) d some_left spaced near fails on h =
      let later = retried answers stops (retries r true) 1 (answers 0) in
      let step : (j : ℕ) → suc j ≡ 1 + j = λ j. omega arith in
      asked-lost (answers 0) later (fails 0 (omega arith))
      ∙ ap (λ (x : Lookup × ℕ). (x.0, suc x.1))
          (retried-finds k (retries r true) 1 (answers 0) d
            (omega (arith, granted-retries r some_left spaced))
            (λ j l.
              subst (λ (i : ℕ). is_lost (answers i) ≡ true) (step j) (fails (suc j) (omega arith)))
            (λ j l. subst (λ (i : ℕ). stops i ≡ false) (step j) (on (suc j) (omega arith)))
            (subst (λ (i : ℕ). answers i ≡ found d) (step k) h))

  retried-exhausts :
      (left n : ℕ) (last : Lookup)
      → ((j : ℕ) → is_lost (answers j) ≡ true)
      → ((j : ℕ) → stops j ≡ false)
      → (retried answers stops left n last).1 ≡ left
  unfolding retried
  retried-exhausts zero n last fails on = refl
  retried-exhausts (suc left) n last fails on =
      let later = retried answers stops left (suc n) (answers n) in
      if_intro (λ (x : Lookup × ℕ). x.1 ≡ suc left) (stops n) (λ t. absurd (ground (arith, on n)))
        λ _.
          ap (λ (x : Lookup × ℕ). x.1) (asked-lost (answers n) later (fails n))
          ∙ ap suc (retried-exhausts left (suc n) (answers n) fails on)

  -- A lookup that always fails is asked exactly `attempts` times more than once on a domain-joined machine
  -- with positive attempts and delay, and once on any other.
  pub resolve_dc-exhausts :
      (r : DcLookupRetry)
      → lt_ℤ (pos 0) r.attempts ≡ true
      → lt_ℤ (pos 0) r.delay_seconds ≡ true
      → ((j : ℕ) → is_lost (answers j) ≡ true)
      → ((j : ℕ) → stops j ≡ false)
      → ((resolve_dc r answers stops true).1 ≡ suc (to_ℕ r.attempts))
        × ((resolve_dc r answers stops false).1 ≡ 1)
  unfolding resolve_dc retries
  resolve_dc-exhausts r some_left spaced fails on =
      let all_of = retried-exhausts (retries r true) 1 (answers 0) fails on in
      let none_of = retried-exhausts (retries r false) 1 (answers 0) fails on in
      (
        ap (λ (x : Lookup × ℕ). x.1)
              (asked-lost (answers 0) (retried answers stops (retries r true) 1 (answers 0))
                (fails 0))
            ∙ ap suc (all_of ∙ granted-retries r some_left spaced),
        ap (λ (x : Lookup × ℕ). x.1)
              (asked-lost (answers 0) (retried answers stops (retries r false) 1 (answers 0))
                (fails 0))
            ∙ ap suc (none_of ∙ ground arith),
      )
