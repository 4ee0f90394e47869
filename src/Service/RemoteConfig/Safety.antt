-- ===== src/Service/RemoteConfig/Safety.antt =====
-- What a refresh can do to the policy in force (remoteconfig.go).
use emly_updater.Base.{
  ℕ, ◌+◌, ◌≡◌, refl, ap, sym, subst, ◌∙◌, inl, inr, ◌⊎◌, ℤ, pos, negsuc, lt_ℤ, String, Bool, true,
  false, not, ◌&&◌, ◌||◌, Option, some, List, [], ◌∷◌, ok, ◌<>◌, ◌==◌, arith, Bool-cases,
  Option-cases, Result-cases,
}
use emly_updater.Manifest.{VersionLib}
use emly_updater.Policy.Document.{Host}
use emly_updater.Policy.Json.{Value, Fields}
use emly_updater.Policy.Matching.{Std}
use emly_updater.Policy.Parse.{Json}
use emly_updater.Policy.Parse.Whole.{Parsed, parse}
use emly_updater.Policy.Parse.Safety.{parse-ok}
use emly_updater.Policy.Validate.Whole.{problems_of}
use emly_updater.Policy.Snapshot.{Snapshot, remote, is_default, revision}
use emly_updater.Service.RemoteConfig.{
  Response, Candidate, Settings, State, set_policy, confirm_snapshot, take_parsed, accept_document,
  answered, ask, refresh_config, save_cache, too_soon,
}
use emly_updater.Service.RemoteConfig.Cache.{Stored, missing, unreadable, file, init_policy}

-- The surroundings of one call of refreshConfig.
pub record Call : Type 0 where
  pub writable : Bool
  pub fetch : String → String → Option Response
  pub cancelled : ℕ → Bool
  pub force : Bool
  pub host : Host
  pub now : ℕ

module _ {Ip Net V : Type 0} (std : Std Ip Net) (lib : VersionLib V) (json : Json) where
  -- A change of the policy in force: it stays, the server confirms it, or a document that `Parse`
  -- accepts and that is no older takes its place.
  pub data Change (defaults : Fields) : Snapshot → Snapshot → Type 0 where
    kept : {a : Snapshot} → Change defaults a a
    confirmed : {a b : Snapshot} → b.parsed ≡ a.parsed → b.source ≡ remote → Change defaults a b
    replaced :
        {a b : Snapshot} (size : ℕ) (body : Option Value)
        → parse std lib json size body defaults ≡ ok b.parsed
        → b.source ≡ remote
        → (not (is_default a.source) && lt_ℤ (revision b) (revision a)) ≡ false
        → Change defaults a b

  set_policy-policy : (w : Bool) (snap : Snapshot) (s : State) → (set_policy w snap s).policy ≡ snap
  unfolding set_policy save_cache
  set_policy-policy w snap s = elim (Bool-cases (is_default snap.source || not w)) [
    | inl e ↦ rw e refl
    | inr e ↦ rw e refl
  ]

  to : {defaults : Fields} {a b b' : Snapshot} → b' ≡ b → Change defaults a b → Change defaults a b'
  to {defaults} {a} e c = subst (λ x. Change defaults a x) (sym e) c

  accept_document-Change :
      (defaults : Fields) (w : Bool) (resp : Response) (from : String) (now : ℕ) (s : State)
      → Change defaults s.policy (accept_document std lib json defaults w resp from now s).policy
  unfolding accept_document take_parsed
  accept_document-Change defaults w resp from now s =
      elim (Result-cases (parse std lib json resp.size resp.body defaults)) [
        | inr (e, q) ↦ rw (q, take_parsed) kept
        | inl (p, q) ↦
            elim (Bool-cases
              (not (is_default s.policy.source) && lt_ℤ p.global.revision (revision s.policy))) [
                | inl old ↦ rw (q, take_parsed, old) kept
                | inr new ↦
                    rw (q, take_parsed, new)
                      (to (set_policy-policy w _ s) (replaced resp.size resp.body q refl new))
              ]
      ]

  answered-Change :
      (defaults : Fields) (w : Bool) (resp : Response) (from : String) (now : ℕ) (s : State)
      → Change defaults s.policy (answered std lib json defaults w resp from now s).policy
  unfolding answered confirm_snapshot
  answered-Change defaults w resp from now s = elim (Bool-cases (resp.status == 304)) [
    | inl e ↦ rw e (to (set_policy-policy w _ s) (confirmed refl refl))
    | inr e ↦ elim (Bool-cases (resp.status == 204)) [
      | inl f ↦ rw (e, f) kept
      | inr f ↦ rw (e, f) (accept_document-Change defaults w resp from now s)
    ]
  ]

  ask-Change :
      (defaults : Fields) (w : Bool) (fetch : String → String → Option Response)
      (cancelled : ℕ → Bool) (route etag : String) (now i : ℕ) (cs : List Candidate) (s : State)
      → Change defaults s.policy
          (ask std lib json defaults w fetch cancelled route etag now i cs s).policy
  unfolding ask
  ask-Change defaults w fetch cancelled route etag now i [] s = kept
  ask-Change defaults w fetch cancelled route etag now i (c ∷ cs) s =
      elim (Bool-cases (cancelled i)) [
        | inl e ↦ rw e kept
        | inr e ↦ elim (Option-cases (fetch (c.base <> route) etag)) [
          | inl f ↦ rw (e, f) (ask-Change defaults w fetch cancelled route etag now (i + 1) cs s)
          | inr (resp, f) ↦
              rw (e, f)
                (answered-Change defaults w resp c.name now (record s { unreachable = false }))
        ]
      ]

  -- The state after the calls, one after the other.
  unfoldable pub refreshes : Settings → Fields → List Call → State → State
  refreshes cfg defaults [] s = s
  refreshes cfg defaults (c ∷ cs) s = refreshes cfg defaults cs (
      refresh_config std lib json cfg defaults c.writable c.fetch c.cancelled c.force c.host c.now
        s)

  refresh_config-Change :
      (cfg : Settings) (defaults : Fields) (c : Call) (s : State)
      → Change defaults s.policy
          (refresh_config std lib json cfg defaults c.writable c.fetch c.cancelled c.force c.host
            c.now s).policy
  unfolding refresh_config
  refresh_config-Change cfg defaults c s =
      elim (Bool-cases (not cfg.enabled || (not c.force && too_soon std lib json s c.now))) [
        | inl e ↦ rw e kept
        | inr e ↦ rw e (
            ask-Change defaults c.writable c.fetch c.cancelled cfg.route _ c.now 0 _
              (record s { last_attempt = some c.now }))
      ]

  -- the document is the fallback's, or one that validation accepts
  abbrev pub IsTrusted : Snapshot → Snapshot → Type 0
  IsTrusted fallback snap =
      (snap.parsed ≡ fallback.parsed) ⊎ (problems_of std lib snap.parsed.global true ≡ [])

  Change-IsTrusted :
      {defaults : Fields} (fallback : Snapshot) {a b : Snapshot}
      → Change defaults a b
      → IsTrusted fallback a
      → IsTrusted fallback b
  Change-IsTrusted fallback kept t = t
  Change-IsTrusted fallback (confirmed e _) (inl t) = inl (e ∙ t)
  Change-IsTrusted fallback (confirmed e _) (inr t) =
      inr (subst (λ (p : Parsed). problems_of std lib p.global true ≡ []) (sym e) t)
  Change-IsTrusted {defaults} fallback {b = b} (replaced size body q _ _) t =
      inr (parse-ok std lib json size body defaults b.parsed q)

  refreshes_keep :
      (cfg : Settings) (defaults : Fields) (fallback : Snapshot) (cs : List Call) (s : State)
      → IsTrusted fallback s.policy
      → IsTrusted fallback (refreshes cfg defaults cs s).policy
  unfolding refreshes
  refreshes_keep cfg defaults fallback [] s t = t
  refreshes_keep cfg defaults fallback (c ∷ cs) s t =
      refreshes_keep cfg defaults fallback cs _
        (Change-IsTrusted fallback (refresh_config-Change cfg defaults c s) t)

  init_policy-IsTrusted :
      (enabled : Bool) (fallback : Snapshot) (defaults : Fields) (stored : Stored)
      → IsTrusted fallback (init_policy std lib json enabled fallback defaults stored).0
  unfolding init_policy
  init_policy-IsTrusted enabled fallback defaults missing = inl refl
  init_policy-IsTrusted enabled fallback defaults unreadable = inl refl
  init_policy-IsTrusted false fallback defaults (file size body c) = inl refl
  init_policy-IsTrusted true fallback defaults (file size body c) =
      elim (Result-cases (parse std lib json size body defaults)) [
        | inr (e, q) ↦ rw (q, init_policy) (inl refl)
        | inl (p, q) ↦ rw (q, init_policy) (inr (parse-ok std lib json size body defaults p q))
      ]

  -- Whatever the cache holds at the start, and whatever the servers answer in any number of
  -- refreshes, the policy in force is the fallback's or a document in which validation finds no
  -- problem.
  pub refreshes-IsTrusted :
      (cfg : Settings) (defaults : Fields) (fallback : Snapshot) (stored : Stored) (cs : List Call)
      (s : State)
      → s.policy ≡ (init_policy std lib json cfg.enabled fallback defaults stored).0
      → IsTrusted fallback (refreshes cfg defaults cs s).policy
  refreshes-IsTrusted cfg defaults fallback stored cs s e =
      refreshes_keep cfg defaults fallback cs s (
        subst (IsTrusted fallback) (sym e)
          (init_policy-IsTrusted cfg.enabled fallback defaults stored))

  -- A document is in force, no older than the first.
  abbrev IsLater : Snapshot → Snapshot → Type 0
  IsLater a b = (is_default b.source ≡ false) × (lt_ℤ (revision b) (revision a) ≡ false)

  not_less_trans : (a b c : ℤ) → lt_ℤ b a ≡ false → lt_ℤ c b ≡ false → lt_ℤ c a ≡ false
  not_less_trans (pos a) (pos b) (pos c) p q = ground arith
  not_less_trans (pos a) (pos b) (negsuc c) p q = ground arith
  not_less_trans (pos a) (negsuc b) (pos c) p q = ground arith
  not_less_trans (pos a) (negsuc b) (negsuc c) p q = ground arith
  not_less_trans (negsuc a) (pos b) (pos c) p q = ground arith
  not_less_trans (negsuc a) (pos b) (negsuc c) p q = ground arith
  not_less_trans (negsuc a) (negsuc b) (pos c) p q = ground arith
  not_less_trans (negsuc a) (negsuc b) (negsuc c) p q = ground arith

  not_less_refl : (a : ℤ) → lt_ℤ a a ≡ false
  not_less_refl (pos n) = ground arith
  not_less_refl (negsuc n) = ground arith

  Change-IsLater :
      {defaults : Fields} {a b : Snapshot}
      → Change defaults a b
      → is_default a.source ≡ false
      → IsLater a b
  Change-IsLater {a = a} kept held = (held, not_less_refl (revision a))
  Change-IsLater {a = a} {b = b} (confirmed e r) held =
      (ap is_default r, rw e (not_less_refl (revision a)))
  Change-IsLater (replaced size body q r new) held = (ap is_default r, rw held at new)

  -- Once a document is in force, any number of refreshes leave a document in force, of a revision
  -- that is not lower, whatever the servers answer.
  pub refreshes_not_older :
      (cfg : Settings) (defaults : Fields) (cs : List Call) (s : State)
      → is_default s.policy.source ≡ false
      → (is_default (refreshes cfg defaults cs s).policy.source ≡ false)
        × (lt_ℤ (revision (refreshes cfg defaults cs s).policy) (revision s.policy) ≡ false)
  unfolding refreshes
  refreshes_not_older cfg defaults [] s held = (held, not_less_refl (revision s.policy))
  refreshes_not_older cfg defaults (c ∷ cs) s held =
      let (on, later) = Change-IsLater (refresh_config-Change cfg defaults c s) held in
      let (still, last) = refreshes_not_older cfg defaults cs _ on in
      (still, not_less_trans (revision s.policy) _ _ later last)
