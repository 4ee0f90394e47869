-- ===== src/Source/Resolver/Laws.antt =====
-- internal/source/resolver.go, resolveWith: where a document comes from.
use emly_updater.Base.{
  ℕ, zero, suc, ◌+◌, ◌≡◌, inl, inr, Result, ok, err, List, [], ◌∷◌, arith, In, here, there, ◌-◌,
  if◌then◌else◌, Bool-cases, Result-cases,
}
use emly_updater.Source.Resolver.{
  FetchError, is_not_found, World, Resolver, attempts_of, backoff_of, doubled, try_fallbacks, retry,
  resolve_with, first_attempt,
}

-- A document that is returned was fetched from the source that is returned with it.
abbrev pub Served : {S A : Type 0} → World S A → List S → Result FetchError (S × A) → Type 0
Served w ss (ok (s, a)) = In s ss × ((n : ℕ) × (w.fetch n s ≡ ok a))
Served w ss (err _) = Unit

attempts_of-suc : (n : ℕ) → (left : ℕ) × (attempts_of n ≡ suc left)
unfolding attempts_of
attempts_of-suc n = (attempts_of n - 1, ground arith)

module _ {S A : Type 0} (w : World S A) where
  Served-there :
      (s : S) (ss : List S) (r : Result FetchError (S × A)) → Served w ss r → Served w (s ∷ ss) r
  Served-there s ss (ok (t, a)) h = (there h.0, h.1)
  Served-there s ss (err e) h = tt

  fallbacks-Served :
      (fbs : List S) (n : ℕ) (e : FetchError) → Served w fbs (try_fallbacks w fbs n e).0
  unfolding try_fallbacks
  fallbacks-Served [] n e = tt
  fallbacks-Served (fb ∷ fbs) n e = elim (Bool-cases (w.done n)) [
    | inl d ↦ rw (d, try_fallbacks) tt
    | inr d ↦ elim (Result-cases (w.fetch n fb)) [
      | inl (a, f) ↦ rw (d, f, try_fallbacks) (here, (n, f))
      | inr (x, f) ↦
          rw (d, f, try_fallbacks)
            (Served-there fb fbs _ (fallbacks-Served fbs (n + 1) (if is_not_found x then x else e)))
    ]
  ]

  retry-Served :
      (r : Resolver S) (left n b : ℕ) (e : FetchError)
      → Served w (r.primary ∷ r.fallbacks) (retry w r left n b e).result
  unfolding retry
  retry-Served r zero n b e =
      Served-there r.primary r.fallbacks _ (fallbacks-Served r.fallbacks n e)
  retry-Served r (suc left) n b e = elim (Bool-cases (w.done_waiting n)) [
    | inl d ↦ rw (d, try_fallbacks) tt
    | inr d ↦ elim (Result-cases (w.fetch n r.primary)) [
      | inl (a, f) ↦ rw (d, f, try_fallbacks) (here, (n, f))
      | inr (x, f) ↦ elim (Bool-cases (w.done (n + 1))) [
        | inl c ↦ rw (d, f, c) tt
        | inr c ↦ elim (Bool-cases (is_not_found x)) [
          | inl m ↦
              rw (d, f, c, m)
                (Served-there r.primary r.fallbacks _ (fallbacks-Served r.fallbacks (n + 1) x))
          | inr m ↦ rw (d, f, c, m) (retry-Served r left (n + 1) (doubled b) x)
        ]
      ]
    ]
  ]

  first_attempt-Served :
      (r : Resolver S) (left b : ℕ)
      → Served w (r.primary ∷ r.fallbacks) (first_attempt w r left b).result
  unfolding first_attempt
  first_attempt-Served r left b = elim (Result-cases (w.fetch 0 r.primary)) [
    | inl (a, f) ↦ rw (f, first_attempt) (here, (0, f))
    | inr (x, f) ↦ elim (Bool-cases (w.done 1)) [
      | inl c ↦ rw (f, c, first_attempt) tt
      | inr c ↦ elim (Bool-cases (is_not_found x)) [
        | inl m ↦
            rw (f, c, m, first_attempt)
              (Served-there r.primary r.fallbacks _ (fallbacks-Served r.fallbacks 1 x))
        | inr m ↦ rw (f, c, m, first_attempt) (retry-Served r left 1 b x)
      ]
    ]
  ]

  -- There is always a first attempt.
  pub resolve_with-first :
      (r : Resolver S)
      → (left : ℕ) × (attempts_of r.attempts ≡ suc left)
        × (resolve_with w r ≡ first_attempt w r left (backoff_of r.base_backoff))
  unfolding resolve_with
  resolve_with-first r =
      let (left, e) = attempts_of-suc r.attempts in (left, e, rw (e, resolve_with))

  -- A document that is returned came, by a fetch that succeeded, from the source returned with it,
  -- and that source is the primary or a fallback.
  pub resolve_with-Served :
      (r : Resolver S) → Served w (r.primary ∷ r.fallbacks) (resolve_with w r).result
  resolve_with-Served r =
      let (left, _, e) = resolve_with-first r in rw e (first_attempt-Served r left _)
