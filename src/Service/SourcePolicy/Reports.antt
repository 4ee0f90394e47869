-- ===== src/Service/SourcePolicy/Reports.antt =====
-- internal/service/sourcepolicy.go: what one cycle reports.
use emly_updater.Base.{
  ℕ, suc, ◌+◌, ◌-◌, ◌≡◌, refl, ◌∙◌, sym, ap, subst, String, Bool, true, false, not, ◌&&◌, ◌||◌,
  Option, some, List, [], ◌∷◌, ◌++◌, or_else, str_eq, ltb, if_intro, Bool-cases, inl, inr, arith,
  if◌then◌else◌,
}
use emly_updater.Policy.Document.{DcLookupRetry}
use emly_updater.Service.SourcePolicy.{
  SiteState, Facts, Lookup, found, lost, need_dc, looked_up, resolve_dc, once, failed, Event,
  source_failed, source_decided, stale_policy, note_failure, note_decision, equal, dc_cache_ttl,
}
use emly_updater.Service.SourcePolicy.Lookups.{is_lost, resolve_dc-lost}

abbrev pub failures : List Event → ℕ
failures [] = 0
failures (source_failed ∷ es) = suc (failures es)
failures (source_decided k ∷ es) = failures es
failures (stale_policy ∷ es) = failures es

abbrev pub decisions : List Event → List String
decisions [] = []
decisions (source_failed ∷ es) = decisions es
decisions (source_decided k ∷ es) = k ∷ decisions es
decisions (stale_policy ∷ es) = decisions es

-- each differs from the one before
abbrev pub Changes : String → List String → Type 0
Changes last [] = Unit {0}
Changes last (k ∷ ks) = (str_eq k last ≡ false) × Changes k ks

pub failures-append : (es fs : List Event) → failures (es ++ fs) ≡ failures es + failures fs
failures-append [] fs = omega arith
failures-append (source_failed ∷ es) fs = omega (arith, failures-append es fs)
failures-append (source_decided k ∷ es) fs = omega (arith, failures-append es fs)
failures-append (stale_policy ∷ es) fs = omega (arith, failures-append es fs)

pub decisions-append : (es fs : List Event) → decisions (es ++ fs) ≡ decisions es ++ decisions fs
decisions-append [] fs = refl
decisions-append (source_failed ∷ es) fs = decisions-append es fs
decisions-append (source_decided k ∷ es) fs =
    ap (λ (r : List String). k ∷ r) (decisions-append es fs)
decisions-append (stale_policy ∷ es) fs = decisions-append es fs

pub stale_events :
    (b : Bool) (es : List Event)
    → (failures ((if b then stale_policy ∷ [] else []) ++ es) ≡ failures es)
      × (decisions ((if b then stale_policy ∷ [] else []) ++ es) ≡ decisions es)
stale_events false es = (refl, refl)
stale_events true es = (refl, refl)

pub note_decision-failures :
    (key : String) (s : SiteState)
    → (failures (note_decision key s).1 ≡ 0)
      × ((note_decision key s).0.dc ≡ s.dc)
      × ((note_decision key s).0.dc_failed_logged ≡ s.dc_failed_logged)
unfolding note_decision
note_decision-failures key s =
    if_intro
      (λ (r : SiteState × List Event).
        (failures r.1 ≡ 0) × (r.0.dc ≡ s.dc) × (r.0.dc_failed_logged ≡ s.dc_failed_logged))
      (str_eq key s.last_key) (λ _. (refl, refl, refl)) (λ _. (refl, refl, refl))

pub note_failure-decisions :
    (joined : Bool) (s : SiteState)
    → (decisions (note_failure joined s).1 ≡ [])
      × ((note_failure joined s).0.dc ≡ s.dc)
      × ((note_failure joined s).0.last_key ≡ s.last_key)
unfolding note_failure
note_failure-decisions joined s =
    if_intro
      (λ (r : SiteState × List Event).
        (decisions r.1 ≡ []) × (r.0.dc ≡ s.dc) × (r.0.last_key ≡ s.last_key))
      (failed s.dc && joined)
      (λ _. (
        if_intro (λ (es : List Event). decisions es ≡ []) s.dc_failed_logged (λ _. refl)
            (λ _. refl),
        refl,
        refl,
      ))
      (λ _. (refl, refl, refl))

pub note_failure-failures :
    (joined : Bool) (s : SiteState)
    → failed s.dc ≡ true
    → joined ≡ true
    → (failures (note_failure joined s).1 ≡ (if s.dc_failed_logged then 0 else 1))
      × ((note_failure joined s).0.dc_failed_logged ≡ true)
unfolding note_failure
note_failure-failures joined s h j = elim (Bool-cases s.dc_failed_logged) [
  | inl e ↦ ground arith
  | inr e ↦ ground arith
]

pub note_decision-Changes :
    (key : String) (s : SiteState) (ks : List String)
    → Changes (note_decision key s).0.last_key ks
    → Changes s.last_key (decisions (note_decision key s).1 ++ ks)
unfolding note_decision
note_decision-Changes key s ks =
    if_intro
      (λ (r : SiteState × List Event).
        Changes r.0.last_key ks → Changes s.last_key (decisions r.1 ++ ks))
      (str_eq key s.last_key) (λ _ h. h) (λ e h. (e, h))

pub looked_up-marks :
    (retry : DcLookupRetry) (joined first : Bool) (f : Facts) (s : SiteState)
    → ((looked_up retry joined first f s).last_key ≡ s.last_key)
      × ((looked_up retry joined first f s).dc_failed_logged ≡ s.dc_failed_logged)
unfolding looked_up
looked_up-marks retry joined first f s =
    if_intro
      (λ (r : SiteState). (r.last_key ≡ s.last_key) × (r.dc_failed_logged ≡ s.dc_failed_logged))
      (need_dc first f s) (λ _. (refl, refl)) (λ _. (refl, refl))

-- Every lookup that a cycle may make fails.
abbrev pub Unanswered : Facts → Type 0
Unanswered f = (k : ℕ) → is_lost (f.answers k) ≡ true

pub failed_of : (l : Lookup) → is_lost l ≡ true → failed (some l) ≡ true
failed_of (found d) h = h
failed_of (lost e) h = refl

pub looked_up-failed :
    (retry : DcLookupRetry) (joined first : Bool) (f : Facts) (s : SiteState)
    → Unanswered f
    → (first || failed s.dc) ≡ true
    → failed (looked_up retry joined first f s).dc ≡ true
unfolding looked_up need_dc
looked_up-failed retry joined first f s none_answers h =
    let retry' = if first then retry else once in
    if_intro (λ (r : SiteState). failed r.dc ≡ true)
      (first || not (equal (or_else [] f.ips) s.ips) || ltb dc_cache_ttl (f.now - s.dc_at))
      (λ _.
        failed_of (resolve_dc retry' f.answers f.stops joined).0
          (resolve_dc-lost f.answers f.stops retry' joined none_answers))
      (λ t. ground arith)

-- what a cycle reports, with the site state that the lookup left
pub reports-Changes :
    (b joined : Bool) (s : SiteState) (last key : String) (ks : List String)
    → s.last_key ≡ last
    → Changes (note_decision key (note_failure joined s).0).0.last_key ks
    → Changes last (
        decisions (
          (if b then stale_policy ∷ [] else [])
          ++ ((note_failure joined s).1 ++ (note_decision key (note_failure joined s).0).1))
        ++ ks)
reports-Changes b joined s last key ks same h =
    let s' = (note_failure joined s).0 in
    let es = (note_failure joined s).1 in
    let ds = (note_decision key s').1 in
    let (quiet, _, kept) = note_failure-decisions joined s in
    let e : decisions ((if b then stale_policy ∷ [] else []) ++ (es ++ ds)) ≡ decisions ds =
      (stale_events b (es ++ ds)).1
      ∙ decisions-append es ds
      ∙ ap (λ (r : List String). r ++ decisions ds) quiet in
    subst (λ (r : List String). Changes last (r ++ ks)) (sym e)
      (subst (λ (l : String). Changes l (decisions ds ++ ks)) (kept ∙ same)
        (note_decision-Changes key s' ks h))

pub reports-failures :
    (b joined : Bool) (s : SiteState) (key : String)
    → failed s.dc ≡ true
    → joined ≡ true
    → (failures (
          (if b then stale_policy ∷ [] else [])
          ++ ((note_failure joined s).1 ++ (note_decision key (note_failure joined s).0).1))
        ≡ (if s.dc_failed_logged then 0 else 1))
      × ((note_decision key (note_failure joined s).0).0.dc_failed_logged ≡ true)
      × (failed (note_decision key (note_failure joined s).0).0.dc ≡ true)
reports-failures b joined s key h j =
    let s' = (note_failure joined s).0 in
    let es = (note_failure joined s).1 in
    let ds = (note_decision key s').1 in
    let (counted, logged) = note_failure-failures joined s h j in
    let (none_more, dc, flag) = note_decision-failures key s' in
    let (_, dc', _) = note_failure-decisions joined s in
    (
      (stale_events b (es ++ ds)).0 ∙ omega (arith, failures-append es ds, counted, none_more),
      flag ∙ logged,
      ap (λ (d : Option Lookup). failed d) (dc ∙ dc') ∙ h,
    )
