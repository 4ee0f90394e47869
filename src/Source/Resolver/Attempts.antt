-- ===== src/Source/Resolver/Attempts.antt =====
-- How often and how long a resolution tries (resolver.go, resolveWith).
use emly_updater.Base.{
  ℕ, zero, suc, ◌+◌, ◌*◌, ◌%◌, ◌^◌, ◌≤◌, ◌≡◌, ◌≢◌, refl, ap, inl, inr, ◌∙◌, false, some, ok, err,
  List, [], ◌∷◌, length, arith, if◌then◌else◌, Bool-cases, Result-cases,
}
use emly_updater.Source.Resolver.{
  FetchError, not_found, is_not_found, World, Resolver, Resolution, attempts_of, backoff_of,
  try_fallbacks, retry, resolve_with, first_attempt,
}
use emly_updater.Source.Resolver.Laws.{resolve_with-first}

-- Waits of which each is the double of the one before.
abbrev pub doublings : ℕ → ℕ → List ℕ
doublings zero b = []
doublings (suc n) b = b ∷ doublings n (b * 2 % 2 ^ 64)

-- At most `left` waits, each the double of the one before, and one fetch for each, on top of the
-- `n` made before and one for each fallback.
abbrev InBounds : {S A : Type 0} → List S → ℕ → ℕ → ℕ → Resolution S A → Type 0
InBounds fbs left n b r =
    (r.fetches ≤ n + left + length fbs)
    × (length r.waits ≤ left)
    × (r.waits ≡ doublings (length r.waits) b)

-- The context is never done.
pub record IsQuiet {S A : Type 0} (w : World S A) : Type 0 where
  pub fetching : (n : ℕ) → w.done n ≡ false
  pub waiting : (n : ℕ) → w.done_waiting n ≡ false

module _ {S A : Type 0} (w : World S A) where
  fallbacks-fetches :
      (fbs : List S) (n : ℕ) (e : FetchError) → (try_fallbacks w fbs n e).1 ≤ n + length fbs
  unfolding try_fallbacks
  fallbacks-fetches [] n e = omega arith
  fallbacks-fetches (fb ∷ fbs) n e = elim (Bool-cases (w.done n)) [
    | inl d ↦ rw (d, try_fallbacks) (omega arith)
    | inr d ↦ elim (Result-cases (w.fetch n fb)) [
      | inl (a, f) ↦ rw (d, f, try_fallbacks) (omega arith)
      | inr (x, f) ↦
          rw (d, f, try_fallbacks)
            (omega (arith, fallbacks-fetches fbs (n + 1) (if is_not_found x then x else e)))
    ]
  ]

  -- A primary that answers 404 is not asked again and nothing is waited for.
  pub resolve_with-not_found :
      (r : Resolver S)
      → w.fetch 0 r.primary ≡ err not_found
      → (let res = resolve_with w r in (res.waits ≡ []) × (res.fetches ≤ 1 + length r.fallbacks))
  unfolding first_attempt
  resolve_with-not_found r f =
      let (left, _, e) = resolve_with-first w r in
      elim (Bool-cases (w.done 1)) [
        | inl c ↦ rw e (rw (f, c, first_attempt) (refl, omega arith))
        | inr c ↦ rw e (
            rw (f, c, first_attempt)
              (refl, omega (arith, fallbacks-fetches r.fallbacks 1 not_found)))
      ]

  first_attempt_stale :
      (r : Resolver S) (left b k : ℕ) (a : A)
      → IsQuiet w
      → w.fetch 0 r.primary ≡ err (FetchError.failure k)
      → w.fetch 1 r.primary ≡ ok a
      → (let res = first_attempt w r (suc left) b in
          (res.result ≡ ok (r.primary, a)) × (res.primary_err ≡ some (FetchError.failure k)))
  unfolding first_attempt retry
  first_attempt_stale r left b k a q f g =
      rw (f, q.fetching 1, first_attempt) (rw (q.waiting 1, g, retry) (refl, refl))

  -- A primary that fails once and then answers serves the document, but `primary_err` keeps the
  -- error of the failed attempt.
  pub resolve_with_stale_error :
      (r : Resolver S) (k : ℕ) (a : A)
      → IsQuiet w
      → attempts_of r.attempts ≢ 1
      → w.fetch 0 r.primary ≡ err (FetchError.failure k)
      → w.fetch 1 r.primary ≡ ok a
      → (let res = resolve_with w r in
          (res.result ≡ ok (r.primary, a)) × (res.primary_err ≡ some (FetchError.failure k)))
  resolve_with_stale_error r k a q many f g =
      let (left, n, e) = resolve_with-first w r in rw e (stale left (λ z. many (n ∙ ap suc z)))
    where
      stale :
          (left : ℕ)
          → left ≢ 0
          → (let res = first_attempt w r left (backoff_of r.base_backoff) in
              (res.result ≡ ok (r.primary, a)) × (res.primary_err ≡ some (FetchError.failure k)))
      stale zero z = absurd (z refl)
      stale (suc left) z = first_attempt_stale r left (backoff_of r.base_backoff) k a q f g
