-- ===== src/Base/Text.antt =====
-- What the code uses of Go's `strings` package, over native texts.
use Prim.Native.Nat.{ℕ}
use Prim.Native.Char.{code}
use Prim.Native.String
use Prim.Native.String.{String}
use mathlib.Core.Path.{◌≡◌, ◌∙◌, sym, refl}
use mathlib.Core.Bool.{Bool, true, false, ◌&&◌, ◌||◌}
use mathlib.Core.List.{List, [], ◌∷◌}
use native.Mathlib.Omega.{arith}
use text.Mathlib.Text.{◌==◌ as text_eq}
use text.Mathlib.TextEquality.{eq_iff}
use text.Mathlib.TextLemmas.{append_cancel_left, append-nil}
use emly_updater.Base.Tests.{leb, ◌==◌, if◌then◌else◌}

-- `s == t` and `s != ""`
abbrev pub str_eq : String → String → Bool
str_eq s t = text_eq s t

abbrev pub is_blank : String → Bool
is_blank s = text_eq s ""

-- slices.Contains on a list of strings
abbrev pub contains : List String → String → Bool
contains [] s = false
contains (x ∷ xs) s = text_eq x s || contains xs s

-- unicode.IsSpace
abbrev is_space : ℕ → Bool
is_space c =
    (leb 9 c && leb c 13)
    || (c == 0x20)
    || (c == 0x85)
    || (c == 0xa0)
    || (c == 0x1680)
    || (leb 0x2000 c && leb c 0x200a)
    || (leb 0x2028 c && leb c 0x2029)
    || (c == 0x202f)
    || (c == 0x205f)
    || (c == 0x3000)

trim_left : String → String
trim_left String.[] = ""
trim_left (String.◌∷◌ c s) =
    let rest = trim_left s in if is_space (code c) then rest else String.◌∷◌ c s

trim_right : String → String
trim_right String.[] = ""
trim_right (String.◌∷◌ c s) =
    let rest = trim_right s in
    if is_space (code c) && text_eq rest "" then "" else String.◌∷◌ c rest

-- strings.TrimSpace
unfoldable pub trim_space : String → String
unfolding trim_left trim_right
trim_space s = trim_right (trim_left s)

-- the part of strings.Cut(s, ".") before the first dot, all of `s` if it has none
unfoldable pub before_dot : String → String
before_dot String.[] = ""
before_dot (String.◌∷◌ c s) =
    let rest = before_dot s in if code c == b'.' then "" else String.◌∷◌ c rest

-- strings.TrimRight(s, "/")
unfoldable pub trim_slashes : String → String
trim_slashes String.[] = ""
trim_slashes (String.◌∷◌ c s) =
    let rest = trim_slashes s in
    if (code c == b'/') && text_eq rest "" then "" else String.◌∷◌ c rest

trim_space_runs : trim_space " \tDC-RM2.local  " ≡ "DC-RM2.local"
unfolding trim_space
trim_space_runs = refl

before_dot_runs : before_dot "dc-rm2.tregcc.local" ≡ "dc-rm2"
unfolding before_dot
before_dot_runs = refl

-- s + t
infixr 66 ◌<>◌
abbrev pub ◌<>◌ : String → String → String
s <> t = String.◌++◌ s t

-- strings.HasPrefix(s, prefix)
unfoldable pub has_prefix : String → String → Bool
has_prefix s String.[] = true
has_prefix String.[] (String.◌∷◌ c prefix) = false
has_prefix (String.◌∷◌ d s) (String.◌∷◌ c prefix) = (code c == code d) && has_prefix s prefix

-- A text with more behind it is another text.
pub append-ne : (s t : String) → text_eq t "" ≡ false → text_eq (s <> t) s ≡ false
append-ne s t h = ground (
  arith,
  eq_iff (s <> t) s,
  eq_iff t "",
  λ (e : s <> t ≡ s). append_cancel_left s t "" (e ∙ sym (append-nil s)),
)
