-- ===== src/Source/Resolver.antt =====
-- internal/source/resolver.go: one document from the primary source with retries and exponential
-- backoff, then once from each fallback. The network is the argument `World`: what the n-th fetch
-- of a resolution returns, and whether the context is found done at a wait or after a fetch.
pub mod Laws
pub mod Attempts
pub mod Success
use emly_updater.Base.{
  ℕ, zero, suc, ◌+◌, ◌*◌, ◌%◌, ◌^◌, Bool, true, false, Option, none, some, Result, ok, err, List,
  [], ◌∷◌, ltb, leb, ◌==◌, if◌then◌else◌,
}

pub data FetchError : Type 0 where
  -- source.ErrNotFound
  not_found : FetchError
  -- ctx.Err()
  cancelled : FetchError
  failure : ℕ → FetchError

abbrev pub is_not_found : FetchError → Bool
is_not_found not_found = true
is_not_found _ = false

pub record World (S A : Type 0) : Type 0 where
  -- the n-th fetch of this resolution, counted from 0
  pub fetch : ℕ → S → Result FetchError A
  -- the wait before the n-th attempt ends by ctx.Done()
  pub done_waiting : ℕ → Bool
  -- ctx.Err() != nil when it is read before the n-th fetch
  pub done : ℕ → Bool

pub record Resolver (S : Type 0) : Type 0 where
  pub primary : S
  pub fallbacks : List S
  -- int and time.Duration fields; the values below 1 and 0 are the value 0 here
  pub attempts : ℕ
  pub base_backoff : ℕ

-- What a resolution returns, the PrimaryErr that it leaves, the fetches made and the waits begun.
pub record Resolution (S A : Type 0) : Type 0 where
  pub result : Result FetchError (S × A)
  pub primary_err : Option FetchError
  pub fetches : ℕ
  pub waits : List ℕ

-- three attempts by default
unfoldable pub attempts_of : ℕ → ℕ
attempts_of n = if ltb n 1 then 3 else n

-- five seconds by default, in nanoseconds
unfoldable pub backoff_of : ℕ → ℕ
backoff_of b = if leb b 0 then 5 * 1000000000 else b

-- backoff *= 2 on an int64, as a bit pattern
abbrev pub doubled : ℕ → ℕ
doubled b = b * 2 % 2 ^ 64

module _ {S A : Type 0} (w : World S A) where
  -- The loop over the fallbacks; `n` counts the fetches made so far.
  unfoldable pub try_fallbacks : List S → ℕ → FetchError → Result FetchError (S × A) × ℕ
  try_fallbacks [] n last = (err last, n)
  try_fallbacks (fb ∷ fbs) n last = elim (w.done n) [
    | true ↦ (err cancelled, n)
    | false ↦ elim (w.fetch n fb) [
      | ok doc ↦ (ok (fb, doc), n + 1)
      | err e ↦ try_fallbacks fbs (n + 1) (if is_not_found e then e else last)
    ]
  ]

  after_primary : List S → ℕ → FetchError → List ℕ → Resolution S A
  unfolding try_fallbacks
  after_primary fbs n e waits =
      let (r, fetches) = try_fallbacks fbs n e in
      record { result = r; primary_err = some e; fetches = fetches; waits = waits }

  stopped : ℕ → Option FetchError → List ℕ → Resolution S A
  stopped n e waits = record { result = err cancelled; primary_err = e; fetches = n; waits = waits }

  -- One more wait at the head of those of the rest of the loop.
  abbrev waited : ℕ → Resolution S A → Resolution S A
  waited b r = record r { waits = b ∷ r.waits }

  -- The attempts of the loop after a failed one: `left` of them, the next is the n-th fetch, and
  -- `e` is the last error of the primary.
  unfoldable pub retry : Resolver S → ℕ → ℕ → ℕ → FetchError → Resolution S A
  unfolding after_primary stopped
  retry r zero n backoff e = after_primary r.fallbacks n e []
  retry r (suc left) n backoff e = waited backoff (elim (w.done_waiting n) [
    | true ↦ stopped n (some e) []
    | false ↦ elim (w.fetch n r.primary) [
      | ok doc ↦ record {
        result = ok (r.primary, doc);
        primary_err = some e;
        fetches = n + 1;
        waits = [];
      }
      | err e' ↦ elim (w.done (n + 1)) [
        | true ↦ stopped (n + 1) (some e') []
        | false ↦ elim (is_not_found e') [
          | true ↦ after_primary r.fallbacks (n + 1) e' []
          | false ↦ retry r left (n + 1) (doubled backoff) e'
        ]
      ]
    ]
  ])

  -- The first attempt does not wait; `left` attempts follow it.
  unfoldable pub first_attempt : Resolver S → ℕ → ℕ → Resolution S A
  unfolding retry
  first_attempt r left backoff = elim (w.fetch 0 r.primary) [
    | ok doc ↦ record { result = ok (r.primary, doc); primary_err = none; fetches = 1; waits = [] }
    | err e ↦ elim (w.done 1) [
      | true ↦ stopped 1 (some e) []
      | false ↦ elim (is_not_found e) [
        | true ↦ after_primary r.fallbacks 1 e []
        | false ↦ retry r left 1 backoff e
      ]
    ]
  ]

  unfoldable pub resolve_with : Resolver S → Resolution S A
  unfolding first_attempt attempts_of backoff_of
  resolve_with r = elim (attempts_of r.attempts) [
    | zero ↦ stopped 0 none []
    | suc left ↦ first_attempt r left (backoff_of r.base_backoff)
  ]
