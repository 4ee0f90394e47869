-- ===== src/WsClient/Client/Secure.antt =====
-- internal/wsclient/client.go and session.go: which connections are secure.
use text.Mathlib.TextLemmas.{cons-append}
use emly_updater.Base.{
  ◌≡◌, ◌⊎◌, refl, ◌∙◌, sym, ap, String, true, false, Option, none, some, is_blank, str_eq,
  has_prefix, ◌<>◌, Option-cases, Bool-cases, inl, inr, arith, trim_space, trim_slashes, eq_iff,
}
use emly_updater.Policy.Matching.{Std, Url}
use emly_updater.WsClient.Session.{new_session, Welcome}
use emly_updater.WsClient.Client.{url_for, ws_scheme, with_scheme, path}

-- A printed address with a host begins with its scheme.
pub record IsPrinter (print : Url → String) : Type 0 where
  pub begins :
      (u : Url)
      → is_blank u.host ≡ false
      → (rest : String) × (print u ≡ (u.scheme <> "://") <> rest)

has_prefix-append : (p r : String) → has_prefix (p <> r) p ≡ true
unfolding has_prefix
has_prefix-append String.[] r = refl
has_prefix-append (String.◌∷◌ c p) r =
    rw (cons-append c p r) (ground (arith, has_prefix-append p r))

plain : (r : String) → has_prefix ("ws://" <> r) "wss://" ≡ false
unfolding has_prefix
plain r =
    let tail : String = "://" <> r in
    let e : "ws://" <> r ≡ String.◌∷◌ "w" (String.◌∷◌ "s" tail) =
      cons-append "w" "s://" r ∙ ap (λ (s : String). String.◌∷◌ "w" s) (cons-append "s" "://" r) in
    let e' : tail ≡ String.◌∷◌ ":" ("//" <> r) = cons-append ":" "//" r in rw e (rw e' refl)

module _ {Ip Net : Type 0} (std : Std Ip Net) (print : Url → String)
    (printer : IsPrinter print) where
  with_scheme-secure :
      (u : Url) (scheme url : String)
      → with_scheme std print u (some scheme) ≡ some url
      → (rest : String) × (url ≡ (scheme <> "://") <> rest)
  unfolding with_scheme
  with_scheme-secure u scheme url h = elim (Bool-cases (is_blank u.host)) [
    | inl e ↦ absurd (ground arith)
    | inr e ↦
        let u' : Url = record u { scheme = scheme; path = u.path <> path } in
        let (rest, p) = printer.begins u' e in (rest, ground (arith))
  ]

  ws_scheme_iff :
      (s t : String)
      → ws_scheme std print s ≡ some t
      → ((s ≡ "https") × (t ≡ "wss")) ⊎ ((s ≡ "http") × (t ≡ "ws"))
  unfolding ws_scheme
  ws_scheme_iff s t h = ground (arith, eq_iff s "https", eq_iff s "http")

  url_for-inv :
      (base_url url : String)
      → url_for std print base_url ≡ some url
      → (u : Url) × (std.parse_url (trim_slashes (trim_space base_url)) ≡ some u)
        × (with_scheme std print u (ws_scheme std print u.scheme) ≡ some url)
  unfolding url_for
  url_for-inv base_url url h =
      let base = trim_slashes (trim_space base_url) in
      elim (Option-cases (std.parse_url base)) [
        | inl e ↦ absurd (ground arith)
        | inr (u, e) ↦ (u, e, ground arith)
      ]

  secure_of :
      (u : Url) (url : String) (w : Welcome) (t : Option String)
      → ws_scheme std print u.scheme ≡ t
      → with_scheme std print u t ≡ some url
      → (str_eq u.scheme "https") ≡ (new_session url w).secure
  unfolding with_scheme new_session
  secure_of u url w none e h = cc
  secure_of u url w (some t) e h =
      let (rest, p) = with_scheme-secure u t url h in
      elim (ws_scheme_iff u.scheme t e) [
        | inl (https, wss) ↦
            let q : url ≡ "wss://" <> rest = p ∙ ap (λ (s : String). (s <> "://") <> rest) wss in
            rw https (rw q (sym (has_prefix-append "wss://" rest)))
        | inr (http, ws) ↦
            let q : url ≡ "ws://" <> rest = p ∙ ap (λ (s : String). (s <> "://") <> rest) ws in
            rw http (rw q (sym (plain rest)))
      ]

  -- A session on the endpoint of a base address is secure exactly when that address is an https one.
  pub url_for-secure :
      (base_url url : String) (w : Welcome)
      → url_for std print base_url ≡ some url
      → (u : Url) × (std.parse_url (trim_slashes (trim_space base_url)) ≡ some u)
        × (str_eq u.scheme "https" ≡ (new_session url w).secure)
  url_for-secure base_url url w h =
      let (u, parsed, made) = url_for-inv base_url url h in
      (u, parsed, secure_of u url w (ws_scheme std print u.scheme) refl made)
