-- ===== src/Policy/Legacy/Addresses.antt =====
-- internal/policy/legacy.go: the addresses of a legacy policy are those of config.ini.
use Prim.Native.Char.{Char}
use text.Mathlib.TextLemmas.{nil-append, cons-append}
use emly_updater.Base.{
  ◌≡◌, refl, ◌∙◌, sym, ap, String, true, false, Option, none, some, [], Dict, lookup, insert,
  lookup-insert, is_blank, or_else, str_eq, eq_iff, ◌<>◌, arith, if_intro,
}
use emly_updater.Config.{Config}
use emly_updater.Policy.Document.{Document}
use emly_updater.Policy.Json.{Fields}
use emly_updater.Policy.Legacy.{
  Defaults, Servers, added, add_server, servers_of, cut_suffix, with_char, manifest_path,
  manifest_url, address_of, from_legacy, legacy_document, legacy_external, legacy_internal,
  legacy_internal_backup,
}

with_char-append :
    (c : Char) (o : Option String) (suffix base s : String)
    → with_char c o ≡ some base
    → ((b : String) → o ≡ some b → b <> suffix ≡ s)
    → base <> suffix ≡ String.◌∷◌ c s
with_char-append c none suffix base s h k = absurd (ground arith)
with_char-append c (some b) suffix base s h k =
    let e : String.◌∷◌ c b ≡ base = ground arith in
    ap (λ (r : String). r <> suffix) (sym e)
    ∙ (cons-append c b suffix ∙ ap (λ (r : String). String.◌∷◌ c r) (k b refl))

whole :
    (s suffix base : String)
    → str_eq s suffix ≡ true
    → ◌≡◌ {A = Option String} (some "") (some base)
    → base <> suffix ≡ s
whole s suffix base h k =
    let e : base ≡ "" = ground arith in
    ap (λ (r : String). r <> suffix) e ∙ (nil-append suffix ∙ ground (arith, eq_iff s suffix))

cut_suffix-append : (s suffix base : String) → cut_suffix s suffix ≡ some base → base <> suffix ≡ s
unfolding cut_suffix
cut_suffix-append String.[] suffix base h =
    if_intro (λ (o : Option String). o ≡ some base → base <> suffix ≡ "") (is_blank suffix)
      (λ e k. whole "" suffix base (ground (arith, eq_iff suffix "", eq_iff "" suffix)) k)
      (λ _ k. absurd (ground arith)) h
cut_suffix-append (String.◌∷◌ c s) suffix base h =
    if_intro (λ (o : Option String). o ≡ some base → base <> suffix ≡ String.◌∷◌ c s)
      (str_eq (String.◌∷◌ c s) suffix) (λ e k. whole (String.◌∷◌ c s) suffix base e k)
      (λ _ k.
        with_char-append c (cut_suffix s suffix) suffix base s k
          (λ b. cut_suffix-append s suffix b))
      h

abbrev served : String → Servers → String
served name s = address_of (lookup name s.urls) (or_else "" (lookup name s.bases))

put_at : {V : Type 0} → (k : String) (v : V) (d : Dict V) → lookup k (insert k v d) ≡ some v
put_at k v d = ground (arith, lookup-insert k k v d, eq_iff k k)

put_beside :
    {V : Type 0}
    → (j k : String) (v : V) (d : Dict V) → str_eq j k ≡ false
    → lookup k (insert j v d) ≡ lookup k d
put_beside j k v d ne = ground (arith, lookup-insert j k v d)

address_of-cut :
    (url base : String)
    → base <> manifest_path ≡ url
    → str_eq url manifest_path ≡ false
    → address_of none base ≡ url
unfolding address_of
address_of-cut url base h real =
    if_intro (λ (r : String). r ≡ url) (is_blank base)
      (λ e.
        let b : "" ≡ base = ground (arith, eq_iff base "") in
        let same : manifest_path ≡ url =
          sym (nil-append manifest_path) ∙ (ap (λ (r : String). r <> manifest_path) b ∙ h) in
        absurd (ground (arith, eq_iff url manifest_path, sym same)))
      (λ _. h)

unserved :
    (name url : String) (s : Servers)
    → is_blank url ≡ true
    → lookup name s.urls ≡ none
    → lookup name s.bases ≡ none
    → served name s ≡ url
unfolding address_of
unserved name url s e fresh empty = rw (fresh, empty) (ground (arith, eq_iff url ""))

added-served :
    (name url : String) (o : Option String) (s : Servers)
    → ((b : String) → o ≡ some b → b <> manifest_path ≡ url)
    → str_eq url manifest_path ≡ false
    → lookup name s.urls ≡ none
    → served name (added name url o s) ≡ url
unfolding added address_of
added-served name url none s ends real fresh = rw (put_at name url s.urls) refl
added-served name url (some b) s ends real fresh =
    rw (fresh, put_at name b s.bases) (address_of-cut url b (ends b refl) real)

added-other :
    (name other url : String) (o : Option String) (s : Servers)
    → str_eq name other ≡ false
    → (served other (added name url o s) ≡ served other s)
      × (lookup other (added name url o s).urls ≡ lookup other s.urls)
      × (lookup other (added name url o s).bases ≡ lookup other s.bases)
unfolding added
added-other name other url none s ne = (
  rw (put_beside name other url s.urls ne, put_beside name other url s.bases ne) refl,
  put_beside name other url s.urls ne,
  put_beside name other url s.bases ne,
)
added-other name other url (some b) s ne =
    (rw (put_beside name other b s.bases ne) refl, refl, put_beside name other b s.bases ne)

add_server-served :
    (name url : String) (s : Servers)
    → str_eq url manifest_path ≡ false
    → lookup name s.urls ≡ none
    → lookup name s.bases ≡ none
    → served name (add_server name url s) ≡ url
unfolding add_server
add_server-served name url s real fresh empty =
    if_intro (λ (r : Servers). served name r ≡ url) (is_blank url)
      (λ e. unserved name url s e fresh empty)
      (λ _.
        added-served name url (cut_suffix url manifest_path) s (cut_suffix-append url manifest_path)
          real fresh)

pub add_server-other :
    (name other url : String) (s : Servers)
    → str_eq name other ≡ false
    → (served other (add_server name url s) ≡ served other s)
      × (lookup other (add_server name url s).urls ≡ lookup other s.urls)
      × (lookup other (add_server name url s).bases ≡ lookup other s.bases)
unfolding add_server
add_server-other name other url s ne =
    if_intro
      (λ (r : Servers).
        (served other r ≡ served other s)
        × (lookup other r.urls ≡ lookup other s.urls)
        × (lookup other r.bases ≡ lookup other s.bases))
      (is_blank url) (λ _. (refl, refl, refl))
      (λ _. added-other name other url (cut_suffix url manifest_path) s ne)

-- The policy made from config.ini asks each server for its manifest at exactly the address that is
-- written there for it, and at none where none is written; an address that is no more than the path is
-- ruled out.
pub manifest_url-legacy :
    (encode : Document → Fields) (encode_defaults : Defaults → Fields) (cfg : Config) (d : Defaults)
    → str_eq cfg.external_manifest_url manifest_path ≡ false
    → str_eq cfg.internal_manifest_url manifest_path ≡ false
    → str_eq cfg.backup_internal_manifest_url manifest_path ≡ false
    → (manifest_url
          (from_legacy encode encode_defaults cfg d).1
          (from_legacy encode encode_defaults cfg d).0.global
          legacy_external
        ≡ cfg.external_manifest_url)
      × (manifest_url
            (from_legacy encode encode_defaults cfg d).1
            (from_legacy encode encode_defaults cfg d).0.global
            legacy_internal
          ≡ cfg.internal_manifest_url)
      × (manifest_url
            (from_legacy encode encode_defaults cfg d).1
            (from_legacy encode encode_defaults cfg d).0.global
            legacy_internal_backup
          ≡ cfg.backup_internal_manifest_url)
unfolding from_legacy legacy_document manifest_url servers_of lookup
manifest_url-legacy encode encode_defaults cfg d e i b =
    let s0 : Servers = record { bases = []; urls = [] } in
    let s1 = add_server legacy_external cfg.external_manifest_url s0 in
    let s2 = add_server legacy_internal cfg.internal_manifest_url s1 in
    let (_, fresh1, empty1) =
      add_server-other legacy_external legacy_internal cfg.external_manifest_url s0 refl in
    let (_, fresh2, empty2) =
      add_server-other legacy_external legacy_internal_backup cfg.external_manifest_url s0 refl in
    let (kept1, _, _) =
      add_server-other legacy_internal legacy_external cfg.internal_manifest_url s1 refl in
    let (_, fresh3, empty3) =
      add_server-other legacy_internal legacy_internal_backup cfg.internal_manifest_url s1 refl in
    let (kept2, _, _) =
      add_server-other legacy_internal_backup legacy_external cfg.backup_internal_manifest_url s2
        refl in
    let (kept3, _, _) =
      add_server-other legacy_internal_backup legacy_internal cfg.backup_internal_manifest_url s2
        refl in
    (
      kept2 ∙ kept1 ∙ add_server-served legacy_external cfg.external_manifest_url s0 e refl refl,
      kept3 ∙ add_server-served legacy_internal cfg.internal_manifest_url s1 i fresh1 empty1,
      add_server-served legacy_internal_backup cfg.backup_internal_manifest_url s2 b
          (fresh3 ∙ fresh2) (empty3 ∙ empty2),
    )
