-- ===== src/Download/Paths.antt =====
-- internal/download/download.go: the names of cached setups and of partial downloads.
use Prim.Native.Char.{Char, code}
use text.Mathlib.TextLemmas.{append_assoc, nil-append, cons-append}
use emly_updater.Base.{
  ℕ, ◌≡◌, refl, ◌∙◌, sym, ap, String, false, is_blank, str_eq, eq_iff, ◌<>◌, if◌then◌else◌, arith,
  Bool-cases, inl, inr,
}
use emly_updater.Download.{Lib, Manager, setup_path, prefix_of}

-- filepath.Join keeps the end of its last element, which is neither "." nor ".." here.
pub record IsJoin (lib : Lib) : Type 0 where
  pub keeps_end :
      (dir name : String) → (p : String) × (lib.join dir (name <> "-setup.exe") ≡ p <> "-setup.exe")

cons_nonblank : (c : Char) (s : String) → is_blank (String.◌∷◌ c s) ≡ false
cons_nonblank c s = elim (Bool-cases (is_blank (String.◌∷◌ c s))) [
  | inr n ↦ n
  | inl y ↦ let e : String.◌∷◌ c s ≡ "" = (eq_iff (String.◌∷◌ c s) "").0 y in cc
]

-- the code of the last letter
last_code : String → ℕ
last_code String.[] = 0
last_code (String.◌∷◌ c s) = let rest = last_code s in if is_blank s then code c else rest

append_nonblank : (s t : String) → is_blank t ≡ false → is_blank (s <> t) ≡ false
append_nonblank String.[] t h = rw (nil-append t) h
append_nonblank (String.◌∷◌ c s) t h = rw (cons-append c s t) (cons_nonblank c (s <> t))

last_code-append : (s t : String) → is_blank t ≡ false → last_code (s <> t) ≡ last_code t
unfolding last_code
last_code-append String.[] t h = rw (nil-append t) refl
last_code-append (String.◌∷◌ c s) t h =
    rw (cons-append c s t) (ground (arith, append_nonblank s t h, last_code-append s t h))

module _ (lib : Lib) (m : Manager) (joins : IsJoin lib) where
  setup_path-ends : (v : String) → (p : String) × (setup_path lib m v ≡ p <> "-setup.exe")
  unfolding setup_path
  setup_path-ends v =
      let (p, e) = joins.keeps_end m.dir (prefix_of m <> v) in
      (
        p,
        ap (λ (n : String). lib.join m.dir n) (sym (append_assoc (prefix_of m) v "-setup.exe")) ∙ e,
      )

  -- A partial download of one version never has the path of a cached setup.
  pub setup_path-apart :
      (v v' : String) → str_eq (setup_path lib m v <> ".partial") (setup_path lib m v') ≡ false
  unfolding last_code
  setup_path-apart v v' =
      let (p, e) = setup_path-ends v' in
      let partial = setup_path lib m v <> ".partial" in
      let last = last_code-append (setup_path lib m v) ".partial" refl in
      let last' = last_code-append p "-setup.exe" refl in
      elim (Bool-cases (str_eq partial (setup_path lib m v'))) [
        | inr n ↦ n
        | inl y ↦
            let same : partial ≡ setup_path lib m v' = (eq_iff partial (setup_path lib m v')).0 y in
            let codes : ◌≡◌ {A = ℕ} 108 101 = sym last ∙ ap last_code (same ∙ e) ∙ last' in
            absurd (omega arith)
      ]
