-- ===== src/Examples/Network.antt =====
-- The sources, the reconnection schedule, the pipe and its peers on concrete inputs.
use emly_updater.Base.{
  ℕ, suc, ◌*◌, ◌^◌, ◌≡◌, refl, false, [], ◌∷◌, ◌++◌, ok, err, lookup, ◌==◌, if◌then◌else◌, here,
  there, arith,
}
use Prim.Native.Nat.{min}
use emly_updater.Manifest.{less}
use emly_updater.Source.Resolver.{World, Resolver, FetchError, resolve_with}
use emly_updater.Source.Resolver.Attempts.{IsQuiet}
use emly_updater.Source.Resolver.Success.{Succeeds, resolve_with-Succeeds}
use emly_updater.WsClient.Backoff.{Backoff, max_of, after_nexts, base_of, after_nexts_lem}
use emly_updater.Ipc.Framing.{write_envelope, read_envelope, put_uint32, read_envelope-write}
use emly_updater.Ipc.Version.{
  compiled_compat, check_peer_version, effective_compat, effective_compat-narrows,
}
use emly_updater.Examples.Standins.{
  versions, versions-IsStrictOrder, bytes, bytes-IsRoundTrip, example_document,
}

-- the source 0 fails once and then answers, the source 1 is never there, the source 2 always answers
abbrev network : World ℕ ℕ
network = record {
  fetch = λ n s.
      if s == 0
      then (if n == 0 then err (FetchError.failure 9) else ok 40)
      else if s == 1
      then err FetchError.not_found
      else ok 42;
  done_waiting = λ n. false;
  done = λ n. false;
}

quiet : IsQuiet network
quiet = record { fetching = λ n. refl; waiting = λ n. refl }

abbrev sources : Resolver ℕ
sources = record { primary = 0; fallbacks = 2 ∷ []; attempts = 3; base_backoff = 5 }

abbrev mirrored : Resolver ℕ
mirrored = record { primary = 1; fallbacks = 2 ∷ []; attempts = 3; base_backoff = 5 }

resolve_with-Succeeds_example : Succeeds (resolve_with network mirrored).result
resolve_with-Succeeds_example =
    resolve_with-Succeeds network quiet 2 mirrored (there here) (λ n. (42, refl))

abbrev schedule : Backoff
schedule = record { base = 5; max = 300; stable_for = 60; cur = 0 }

after_nexts_lem_example :
    (after_nexts (suc 3) schedule).cur ≡ min (max_of schedule) (base_of schedule * 2 ^ 3)
unfolding base_of max_of
after_nexts_lem_example = after_nexts_lem 3 schedule refl (omega arith) (omega arith)

read_envelope-write_example :
    read_envelope bytes ((0 ∷ 0 ∷ 0 ∷ 2 ∷ 65 ∷ 66 ∷ []) ++ 7 ∷ []) ≡ ok (65 ∷ 66 ∷ [], 7 ∷ [])
unfolding write_envelope put_uint32
read_envelope-write_example =
    read_envelope-write bytes bytes-IsRoundTrip (65 ∷ 66 ∷ []) (0 ∷ 0 ∷ 0 ∷ 2 ∷ 65 ∷ 66 ∷ [])
      (7 ∷ []) refl

effective_compat-narrows_example : check_peer_version versions compiled_compat "2.1.0" ≡ ok tt
unfolding check_peer_version effective_compat lookup less
effective_compat-narrows_example =
    effective_compat-narrows versions versions-IsStrictOrder compiled_compat
      example_document.ipc_protocol "1" "2.1.0" refl
