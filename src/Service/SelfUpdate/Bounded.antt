-- ===== src/Service/SelfUpdate/Bounded.antt =====
-- internal/service/selfupdate.go: sequences of cycles, and the launches that they count.
use emly_updater.Base.{
  ℕ, suc, ◌+◌, ◌≤◌, ◌≡◌, refl, String, Bool, true, false, Option, none, some, Result, ok, err, List,
  [], ◌∷◌, All, str_eq, arith, eq_iff, if◌then◌else◌, Bool-cases, inl, inr,
}
use emly_updater.Manifest.{VersionLib, Error as VersionError, less}
use emly_updater.Manifest.Updater.{UpdaterManifest}
use emly_updater.State.{SelfUpdate}
use emly_updater.SelfUpdate.{Decision, max_attempts, decide, reconcile}
use emly_updater.Service.SelfUpdate.{
  Env, FetchError, Reconciled, Done, self_update, act, evaluated, resolved, give_up,
  apply_self_update, reconcile_self_update,
}

-- The launches of a release that the record counts.
abbrev pub spent : String → Option SelfUpdate → ℕ
spent v none = 0
spent v (some r) = if str_eq r.version v then r.attempts else 0

-- A fetched manifest offers the version `v`, and nothing else.
abbrev pub Offers : String → Result FetchError UpdaterManifest → Type 0
Offers v (ok m) = m.version ≡ v
Offers v (err _) = Unit

abbrev pub IsSteady : String → Env → Type 0
IsSteady v e = (e.load_ok ≡ true) × Offers v e.fetched

abbrev pub count_launch : Bool → ℕ → ℕ
count_launch true n = suc n
count_launch false n = n

abbrev Counts : String → ℕ → Done → Type 0
Counts v n done =
    (count_launch done.launched n ≤ spent v done.stored) × (spent v done.stored ≤ max_attempts)

module _ {V : Type 0} (lib : VersionLib V) (running : String) where
  -- The cycles of a process that keeps running the same version, and how often they launch.
  unfoldable pub launches : List Env → Option SelfUpdate → ℕ
  launches [] rec = 0
  launches (e ∷ es) rec =
      let done = self_update lib running e rec in
      count_launch done.launched (launches es done.stored)

  -- Neither what reconciliation passes on nor what it leaves in the file changes the count.
  spent-reconcile :
      (v : String) (e : Env) (rec : Option SelfUpdate)
      → less lib running v ≡ ok true
      → e.load_ok ≡ true
      → let r = reconcile_self_update lib running e rec in
        (spent v r.seen ≡ spent v rec) × (spent v r.left ≡ spent v rec)
  unfolding reconcile_self_update reconcile
  spent-reconcile v e none n l = (refl, refl)
  spent-reconcile v e (some r) n l =
      (ground (arith, eq_iff r.version v), ground (arith, eq_iff r.version v))

  -- The attempt of an install is one more than the launches counted for its release.
  attempt-spent :
      (v : String) (m : UpdaterManifest) (rec : Option SelfUpdate) (now : ℕ) (d : Decision)
      → m.version ≡ v
      → decide lib running (some m) rec now ≡ ok d
      → d.install ≡ true
      → (d.attempt ≡ spent v rec + 1) × (d.attempt ≤ max_attempts)
  unfolding decide
  attempt-spent v m none now d e h i = (ground arith, ground arith)
  attempt-spent v m (some r) now d e h i = (
    ground (arith, eq_iff r.version m.version, eq_iff r.version v),
    ground (arith, eq_iff r.version m.version),
  )

  spent-give_up :
      (v : String) (e : Env) (m : UpdaterManifest) (r : Reconciled) (n : ℕ) (d : Decision)
      → spent v r.seen ≡ n
      → spent v r.left ≡ n
      → n ≤ max_attempts
      → Counts v n (give_up lib running e m r d)
  unfolding give_up
  spent-give_up v e m r n d s l b = (ground arith, ground arith)

  spent-apply :
      (v : String) (e : Env) (m : UpdaterManifest) (a : ℕ) (left : Option SelfUpdate) (n : ℕ)
      → m.version ≡ v
      → spent v left ≡ n
      → n ≤ max_attempts
      → a ≡ n + 1
      → a ≤ max_attempts
      → Counts v n (apply_self_update lib running e m a left)
  unfolding apply_self_update
  spent-apply v e m a left n ev l b ea la =
      (ground (arith, eq_iff m.version v), ground (arith, eq_iff m.version v))

  spent-act :
      (v : String) (e : Env) (m : UpdaterManifest) (r : Reconciled) (n : ℕ) (d : Decision)
      → m.version ≡ v
      → spent v r.seen ≡ n
      → spent v r.left ≡ n
      → n ≤ max_attempts
      → (d.install ≡ true → (d.attempt ≡ n + 1) × (d.attempt ≤ max_attempts))
      → Counts v n (act lib running e m r d)
  unfolding act
  spent-act v e m r n d ev s l b h = elim (Bool-cases d.give_up) [
    | inl g ↦ rw g (spent-give_up v e m r n d s l b)
    | inr g ↦ elim (Bool-cases d.install) [
      | inl i ↦ rw (g, i) (spent-apply v e m d.attempt r.left n ev l b (h i).0 (h i).1)
      | inr i ↦ rw (g, i) (rw l (omega arith, b))
    ]
  ]

  spent-evaluated :
      (v : String) (e : Env) (m : UpdaterManifest) (r : Reconciled) (n : ℕ)
      (x : Result VersionError Decision)
      → m.version ≡ v
      → spent v r.seen ≡ n
      → spent v r.left ≡ n
      → n ≤ max_attempts
      → decide lib running (some m) r.seen e.now ≡ x
      → Counts v n (evaluated lib running e m r x)
  unfolding evaluated
  spent-evaluated v e m r n (err _) ev s l b q = rw l (omega arith, b)
  spent-evaluated v e m r n (ok d) ev s l b q =
      spent-act v e m r n d ev s l b (λ i. rw (← s) (attempt-spent v m r.seen e.now d ev q i))

  spent-resolved :
      (v : String) (e : Env) (r : Reconciled) (n : ℕ) (f : Result FetchError UpdaterManifest)
      → Offers v f
      → spent v r.seen ≡ n
      → spent v r.left ≡ n
      → n ≤ max_attempts
      → Counts v n (resolved lib running e r f)
  unfolding resolved
  spent-resolved v e r n (err _) o s l b = rw l (omega arith, b)
  spent-resolved v e r n (ok m) o s l b = spent-evaluated v e m r n _ o s l b refl

  spent-cycle :
      (v : String) (e : Env) (rec : Option SelfUpdate)
      → less lib running v ≡ ok true
      → IsSteady v e
      → spent v rec ≤ max_attempts
      → Counts v (spent v rec) (self_update lib running e rec)
  unfolding self_update
  spent-cycle v e rec n s b = elim (Bool-cases e.enabled) [
    | inl on ↦ rw on (
        let (seen, left) = spent-reconcile v e rec n s.0 in
        spent-resolved v e (reconcile_self_update lib running e rec) (spent v rec) e.fetched s.1
          seen left b)
    | inr off ↦ rw off (omega arith, b)
  ]

  -- Over any number of cycles of a process that keeps running an older version, whatever fails in
  -- them, an offered release is launched at most `max_attempts` times, those that the record
  -- already counts included, as long as the state file can be read and no other release is offered
  -- in between.
  pub launches_bounded :
      (v : String) (es : List Env) (rec : Option SelfUpdate)
      → less lib running v ≡ ok true
      → All (IsSteady v) es
      → spent v rec ≤ max_attempts
      → launches es rec + spent v rec ≤ max_attempts
  unfolding launches
  launches_bounded v [] rec n s b = omega arith
  launches_bounded v (e ∷ es) rec n s b =
      let done = self_update lib running e rec in
      let (more, bound) = spent-cycle v e rec n s.0 b in
      counted done.launched (launches es done.stored) (spent v rec) (spent v done.stored) more
        (launches_bounded v es done.stored n s.1 bound)
    where
      counted :
          (b : Bool) (l k k' : ℕ)
          → count_launch b k ≤ k'
          → l + k' ≤ max_attempts
          → count_launch b l + k ≤ max_attempts
      counted true l k k' h g = omega arith
      counted false l k k' h g = omega arith
