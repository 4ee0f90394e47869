-- ===== src/Service/SourcePolicy/Streaks.antt =====
-- internal/service/sourcepolicy.go: what a run of cycles reports, and how often.
use emly_updater.Base.{
  ◌≡◌, refl, ◌∙◌, sym, ap, subst, String, Bool, true, false, ◌||◌, List, [], ◌∷◌, ◌++◌, All, arith,
  if◌then◌else◌,
}
use emly_updater.Manifest.{VersionLib}
use emly_updater.Policy.Matching.{Std}
use emly_updater.Policy.Parse.{Json}
use emly_updater.Service.RemoteConfig.{warn_if_stale}
use emly_updater.Service.SourcePolicy.{
  Machine, Facts, looked_up, resolve_host, failed, domain_joined, Node, key_of, state_for,
  begin_cycle, begun,
}
use emly_updater.Service.SourcePolicy.Reports.{
  failures-append, decisions-append, looked_up-marks, looked_up-failed, reports-Changes,
  reports-failures, failures, decisions, Changes, Unanswered,
}

module _ {Ip Net V : Type 0} (std : Std Ip Net) (lib : VersionLib V) (json : Json)
    (m : Machine) where
  begin_cycle-Changes :
      (first : Bool) (f : Facts) (n : Node) (ks : List String)
      → Changes (begin_cycle std lib json m first f n).0.site.last_key ks
      → Changes n.site.last_key (decisions (begin_cycle std lib json m first f n).1 ++ ks)
  unfolding begin_cycle resolve_host
  begin_cycle-Changes first f n ks h =
      let snap = n.config.policy in
      let joined = domain_joined std.fold m in
      let r = snap.parsed.global.updater.dc_lookup_retry in
      let c = state_for std lib json snap (resolve_host r joined m first f n.site).1 in
      reports-Changes (warn_if_stale snap f.now n.config).1 joined
        (looked_up r joined first f n.site) n.site.last_key (key_of c) ks
        (looked_up-marks r joined first f n.site).0 h

  -- Event 700 is logged when the decision changes and never twice for the same: in a run of cycles, each
  -- decision reported differs from the one reported before it.
  pub begun-Changes :
      (first : Bool) (fs : List Facts) (n : Node)
      → Changes n.site.last_key (decisions (begun std lib json m first fs n).1)
  unfolding begun
  begun-Changes first [] n = tt
  begun-Changes first (f ∷ fs) n =
      let (n', es) = begin_cycle std lib json m first f n in
      let later = (begun std lib json m false fs n').1 in
      subst (λ (r : List String). Changes n.site.last_key r) (sym (decisions-append es later))
        (begin_cycle-Changes first f n (decisions later) (begun-Changes false fs n'))

  begin_cycle-fails :
      (first : Bool) (f : Facts) (n : Node)
      → domain_joined std.fold m ≡ true
      → Unanswered f
      → (first || failed n.site.dc) ≡ true
      → (failures (begin_cycle std lib json m first f n).1
          ≡ (if n.site.dc_failed_logged then 0 else 1))
        × ((begin_cycle std lib json m first f n).0.site.dc_failed_logged ≡ true)
        × (failed (begin_cycle std lib json m first f n).0.site.dc ≡ true)
  unfolding begin_cycle resolve_host
  begin_cycle-fails first f n joined none_answers h =
      let snap = n.config.policy in
      let r = snap.parsed.global.updater.dc_lookup_retry in
      let j = domain_joined std.fold m in
      let s = looked_up r j first f n.site in
      let c = state_for std lib json snap (resolve_host r j m first f n.site).1 in
      let (counted, logged, h1) =
        reports-failures (warn_if_stale snap f.now n.config).1 j s (key_of c)
          (looked_up-failed r j first f n.site none_answers h) joined in
      let flag = (looked_up-marks r j first f n.site).1 in
      (counted ∙ ap (λ (b : Bool). if b then 0 else 1) flag, logged, h1)

  silent :
      (fs : List Facts) (n : Node)
      → domain_joined std.fold m ≡ true
      → All Unanswered fs
      → n.site.dc_failed_logged ≡ true
      → failed n.site.dc ≡ true
      → failures (begun std lib json m false fs n).1 ≡ 0
  unfolding begun
  silent [] n joined none_answers logged h = refl
  silent (f ∷ fs) n joined (none_answers, more) logged h =
      let (n', es) = begin_cycle std lib json m false f n in
      let later = (begun std lib json m false fs n').1 in
      let (counted, logged', h') = begin_cycle-fails false f n joined none_answers h in
      let counted' : failures es ≡ 0 = counted ∙ ap (λ (b : Bool). if b then 0 else 1) logged in
      omega (arith, failures-append es later, counted', silent fs n' joined more logged' h')

  -- On a domain-joined machine whose lookups all fail, the cycles of a service that has not logged the
  -- failure before log it exactly once, however many they are.
  pub begun-once :
      (f : Facts) (fs : List Facts) (n : Node)
      → domain_joined std.fold m ≡ true
      → All Unanswered (f ∷ fs)
      → n.site.dc_failed_logged ≡ false
      → failures (begun std lib json m true (f ∷ fs) n).1 ≡ 1
  unfolding begun
  begun-once f fs n joined (none_answers, more) unlogged =
      let (n', es) = begin_cycle std lib json m true f n in
      let later = (begun std lib json m false fs n').1 in
      let (counted, logged', h') = begin_cycle-fails true f n joined none_answers refl in
      let counted' : failures es ≡ 1 = counted ∙ ap (λ (b : Bool). if b then 0 else 1) unlogged in
      omega (arith, failures-append es later, counted', silent fs n' joined more logged' h')
