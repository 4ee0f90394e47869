-- ===== src/Source/Resolver/Success.antt =====
-- internal/source/resolver.go, resolveWith: resolutions of which a source answers.
use emly_updater.Base.{
  ℕ, zero, suc, ◌+◌, ◌≡◌, inl, inr, Result, ok, err, List, [], ◌∷◌, In, here, there, if◌then◌else◌,
  Bool-cases, Result-cases,
}
use emly_updater.Source.Resolver.{
  FetchError, is_not_found, World, Resolver, backoff_of, doubled, try_fallbacks, retry,
  resolve_with, first_attempt,
}
use emly_updater.Source.Resolver.Laws.{resolve_with-first}
use emly_updater.Source.Resolver.Attempts.{IsQuiet}

-- The source serves a document whenever it is asked.
abbrev pub Answers : {S A : Type 0} → World S A → S → Type 0
Answers {A = A} w s = (n : ℕ) → (a : A) × (w.fetch n s ≡ ok a)

abbrev pub Succeeds : {S A : Type 0} → Result FetchError (S × A) → Type 0
Succeeds (ok _) = Unit
Succeeds (err _) = ⊥

module _ {S A : Type 0} (w : World S A) (q : IsQuiet w) where
  fallbacks_succeed :
      {s : S} (fbs : List S) (n : ℕ) (e : FetchError)
      → In s fbs
      → Answers w s
      → Succeeds (try_fallbacks w fbs n e).0
  unfolding try_fallbacks
  fallbacks_succeed [] n e m h = elim m [ ]
  fallbacks_succeed (fb ∷ fbs) n e here h =
      let (a, f) = h n in rw (q.fetching n, f, try_fallbacks) tt
  fallbacks_succeed (fb ∷ fbs) n e (there m) h = elim (Result-cases (w.fetch n fb)) [
    | inl (a, f) ↦ rw (q.fetching n, f, try_fallbacks) tt
    | inr (x, f) ↦
        rw (q.fetching n, f, try_fallbacks)
          (fallbacks_succeed fbs (n + 1) (if is_not_found x then x else e) m h)
  ]

  retry-Succeeds :
      {s : S} (r : Resolver S) (left n b : ℕ) (e : FetchError)
      → In s r.fallbacks
      → Answers w s
      → Succeeds (retry w r left n b e).result
  unfolding retry
  retry-Succeeds r zero n b e m h = fallbacks_succeed r.fallbacks n e m h
  retry-Succeeds r (suc left) n b e m h = elim (Result-cases (w.fetch n r.primary)) [
    | inl (a, f) ↦ rw (q.waiting n, f, retry) tt
    | inr (x, f) ↦ elim (Bool-cases (is_not_found x)) [
      | inl y ↦
          rw (q.waiting n, f, q.fetching (n + 1), y, retry)
            (fallbacks_succeed r.fallbacks (n + 1) x m h)
      | inr y ↦
          rw (q.waiting n, f, q.fetching (n + 1), y, retry)
            (retry-Succeeds r left (n + 1) (doubled b) x m h)
    ]
  ]

  first_attempt-Succeeds :
      {s : S} (r : Resolver S) (left b : ℕ)
      → In s (r.primary ∷ r.fallbacks)
      → Answers w s
      → Succeeds (first_attempt w r left b).result
  unfolding first_attempt
  first_attempt-Succeeds r left b here h = let (a, f) = h 0 in rw (f, first_attempt) tt
  first_attempt-Succeeds r left b (there m) h = elim (Result-cases (w.fetch 0 r.primary)) [
    | inl (a, f) ↦ rw (f, first_attempt) tt
    | inr (x, f) ↦ elim (Bool-cases (is_not_found x)) [
      | inl y ↦ rw (f, q.fetching 1, y, first_attempt) (fallbacks_succeed r.fallbacks 1 x m h)
      | inr y ↦ rw (f, q.fetching 1, y, first_attempt) (retry-Succeeds r left 1 b x m h)
    ]
  ]

  -- Where the context is never done, a document is returned as soon as one source of the resolver,
  -- the primary or any fallback, serves it whenever it is asked, whatever the others do.
  pub resolve_with-Succeeds :
      (s : S) (r : Resolver S)
      → In s (r.primary ∷ r.fallbacks)
      → Answers w s
      → Succeeds (resolve_with w r).result
  resolve_with-Succeeds s r m h =
      let (left, _, e) = resolve_with-first w r in
      rw e (first_attempt-Succeeds r left (backoff_of r.base_backoff) m h)
