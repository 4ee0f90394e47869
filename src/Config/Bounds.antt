-- ===== src/Config/Bounds.antt =====
-- internal/config/config.go: what a configuration that was loaded is known to be.
use emly_updater.Base.{
  ℕ, ◌*◌, ◌≤◌, ◌≡◌, refl, subst, String, false, ◌&&◌, Option, none, some, List, ℤ, pos, negsuc,
  lt_ℤ, to_ℕ, Dict, is_blank, Result, ok, >>=-eq-ok, if_intro, arith,
}
use emly_updater.Policy.Matching.{Std}
use emly_updater.Config.{
  Config, Problem, first_of, validate, validate_primary, validate_emly, validate_remote_config,
}
use emly_updater.Config.Load.{Ini, filled, load, refused_or, parse_dc_subnet_map, outside}

-- the limits that Load checks, and that validation finds no problem
pub record IsLoaded {Ip Net : Type 0} (std : Std Ip Net) (c : Config) : Type 0 where
  pub valid : validate std c ≡ none
  pub attempts : outside (pos 0) (pos 60) c.dc_lookup_retry_attempts ≡ false
  pub delay : c.dc_lookup_retry_delay ≤ 300 * 1000000000
  pub timeout_low : 1000000000 ≤ c.remote_config_timeout
  pub timeout_high : c.remote_config_timeout ≤ 120 * 1000000000

to_ℕ-outside :
    (low high : ℕ) (n : ℤ)
    → outside (pos low) (pos high) n ≡ false
    → (low ≤ to_ℕ n) × (to_ℕ n ≤ high)
to_ℕ-outside low high (pos n) h = ground arith
to_ℕ-outside low high (negsuc n) h = absurd (ground arith)

first_of-none : (o later : Option Problem) → first_of o later ≡ none → o ≡ none
first_of-none none later h = refl
first_of-none (some p) later h = absurd (ground arith)

primary-given :
    (c : Config)
    → validate_primary c ≡ none
    → (is_blank c.external_manifest_url && is_blank c.internal_manifest_url) ≡ false
unfolding validate_primary
primary-given c h = ground arith

pub validate-given :
    {Ip Net : Type 0} (std : Std Ip Net) (c : Config)
    → validate std c ≡ none
    → (is_blank c.external_manifest_url && is_blank c.internal_manifest_url) ≡ false
unfolding validate
validate-given std c h = primary-given c (
    first_of-none (validate_primary c) (first_of (validate_emly c) (validate_remote_config std c))
      h)

accepted : (c' c : Config) (o : Option Problem) → refused_or c' o ≡ ok c → (c' ≡ c) × (o ≡ none)
accepted c' c none h = (ground arith, refl)
accepted c' c (some p) h = absurd (ground arith)

module _ {Ip Net : Type 0} (std : Std Ip Net) (print_net : Net → String) where
  filled-IsLoaded :
      (version : String) (ini : Ini) (timeout attempts delay minutes : ℤ) (dcs : Dict (List String))
      (c : Config)
      → outside (pos 1) (pos 120) timeout ≡ false
      → outside (pos 0) (pos 60) attempts ≡ false
      → outside (pos 0) (pos 300) delay ≡ false
      → (refused_or
          (filled ini std.to_lower version timeout attempts delay minutes dcs)
          (validate std (filled ini std.to_lower version timeout attempts delay minutes dcs)))
        ≡ ok c
      → IsLoaded std c
  unfolding filled
  filled-IsLoaded version ini timeout attempts delay minutes dcs c t a d h =
      let (same, valid) =
        accepted (filled ini std.to_lower version timeout attempts delay minutes dcs) c
          (validate std (filled ini std.to_lower version timeout attempts delay minutes dcs)) h in
      let (low, high) = to_ℕ-outside 1 120 timeout t in
      let (_, most) = to_ℕ-outside 0 300 delay d in
      subst (λ (x : Config). IsLoaded std x) same
        (record {
          valid = valid;
          attempts = a;
          delay = omega (arith, most);
          timeout_low = omega (arith, low);
          timeout_high = omega (arith, high);
        })

  -- A configuration that Load accepts passes validation, asks for at most 60 retries with at most five
  -- minutes between two, and waits between one second and two minutes for the remote configuration.
  pub load-IsLoaded :
      (version : String) (ini : Ini) (c : Config)
      → load std print_net version ini ≡ ok c
      → IsLoaded std c
  unfolding load
  load-IsLoaded version ini c h =
      let timeout = ini.must_int "remoteConfig" "timeoutSeconds" (pos 10) in
      let attempts = ini.must_int "source" "dcLookupRetryAttempts" (pos 6) in
      let delay = ini.must_int "source" "dcLookupRetryDelaySeconds" (pos 5) in
      let minutes = ini.must_int "updater" "pollIntervalMinutes" (pos 30) in
      let P = λ (r : Result Problem Config). r ≡ ok c → IsLoaded std c in
      let dcs = parse_dc_subnet_map std print_net (ini.string "source" "defaultMappingDCSubnets") in
      if_intro P (outside (pos 1) (pos 120) timeout) (λ _ k. absurd (ground arith))
        (λ t.
          if_intro P (outside (pos 0) (pos 60) attempts) (λ _ k. absurd (ground arith))
            (λ a.
              if_intro P (outside (pos 0) (pos 300) delay) (λ _ k. absurd (ground arith))
                (λ d.
                  if_intro P (lt_ℤ minutes (pos 1)) (λ _ k. absurd (ground arith))
                    (λ _ k.
                      let (dcs', _, e) =
                        >>=-eq-ok dcs
                          (λ m.
                            refused_or
                              (filled ini std.to_lower version timeout attempts delay minutes m)
                              (validate std
                                (filled ini std.to_lower version timeout attempts delay minutes m)))
                          k in
                      filled-IsLoaded version ini timeout attempts delay minutes dcs' c t a d e))))
        h
