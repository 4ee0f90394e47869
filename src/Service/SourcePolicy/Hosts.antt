-- ===== src/Service/SourcePolicy/Hosts.antt =====
-- internal/service/sourcepolicy.go: when a host's domain controller was looked up.
use emly_updater.Base.{
  ◌-◌, ◌≤◌, ◌≡◌, refl, String, Bool, true, false, not, ◌||◌, List, [], ◌∷◌, or_else, eq_iff, ltb,
  if_intro, arith,
}
use emly_updater.Policy.Document.{DcLookupRetry}
use emly_updater.Service.SourcePolicy.{
  SiteState, Machine, Facts, equal, need_dc, looked_up, resolve_host, dc_cache_ttl, name_of,
}

equal_refl : (xs : List String) → equal xs xs ≡ true
unfolding equal
equal_refl [] = refl
equal_refl (x ∷ xs) = ground (arith, eq_iff x x, equal_refl xs)

-- A lookup that may be relied on now: made of the same addresses, and not longer ago than its time to live.
abbrev pub Fresh : Facts → SiteState → Type 0
Fresh f s = (equal (or_else [] f.ips) s.ips ≡ true) × (f.now - s.dc_at ≤ dc_cache_ttl)

looked_up-Fresh :
    (retry : DcLookupRetry) (joined first : Bool) (f : Facts) (s : SiteState)
    → Fresh f (looked_up retry joined first f s)
unfolding looked_up need_dc
looked_up-Fresh retry joined first f s =
    if_intro (Fresh f)
      (first || not (equal (or_else [] f.ips) s.ips) || ltb dc_cache_ttl (f.now - s.dc_at))
      (λ _. (equal_refl (or_else [] f.ips), omega arith)) (λ h. ground arith)

-- The controller that a host is matched by was looked up from the very addresses that the host has, and
-- at most an hour before.
pub resolve_host-Fresh :
    (retry : DcLookupRetry) (joined : Bool) (m : Machine) (first : Bool) (f : Facts) (s : SiteState)
    → Fresh f (resolve_host retry joined m first f s).0
      × ((resolve_host retry joined m first f s).1.dc
          ≡ name_of (resolve_host retry joined m first f s).0.dc)
      × ((resolve_host retry joined m first f s).1.ips ≡ or_else [] f.ips)
unfolding resolve_host
resolve_host-Fresh retry joined m first f s = (looked_up-Fresh retry joined first f s, refl, refl)

-- A lookup is made only at the start, after the addresses changed, or after its time to live.
pub looked_up-kept :
    (retry : DcLookupRetry) (joined : Bool) (f : Facts) (s : SiteState)
    → Fresh f s
    → looked_up retry joined false f s ≡ s
unfolding looked_up need_dc
looked_up-kept retry joined f s (same, recent) = ground arith
