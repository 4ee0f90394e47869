-- ===== src/Service/Presence/Rest.antt =====
-- internal/service/clientws.go: servers that do not have the endpoint, and the events of the loop.
use emly_updater.Base.{
  ℕ, ◌+◌, ◌<◌, ◌≡◌, refl, ◌⊎◌, inl, inr, String, Bool, true, false, not, ◌||◌, Option, none, some,
  List, [], ◌∷◌, Dict, lookup, insert, lookup-insert, all, any, is_some, str_eq, eq_iff, ltb, arith,
  if_intro,
}
use emly_updater.WsClient.Client.{
  End, not_implemented, unauthorized, unidentified, not_dialled, no_hello, identity_unsent, refused,
  stopped, read_failed, ping_unanswered,
}
use emly_updater.Service.Presence.{
  State, Round, Pause, Event, Outcome, resting, ended, not_served, lost_or_failed, backing_off,
  dialled_round, round, rounds, unsupported_retry_after,
}

-- whether the round dials the server
abbrev pub dials : String → Option String → Bool
dials server none = false
dials server (some x) = str_eq x server

lost_or_failed-marks :
    (r : Round) (up : Option ℕ) (s : State) → (lost_or_failed r up s).0.unsupported ≡ s.unsupported
unfolding lost_or_failed backing_off
lost_or_failed-marks r none s = refl
lost_or_failed-marks r (some d) s = refl

-- what a round does to the marks: at most its own server gets one, of the time when it ended
Marks : Round → Dict ℕ → Dict ℕ → Type 0
Marks r old new = (new ≡ old) ⊎ (new ≡ insert r.target.server r.later old)

ended-Marks : (r : Round) (e : End) (s : State) → Marks r s.unsupported (ended r e s).0.unsupported
unfolding ended not_served backing_off Marks
ended-Marks r not_implemented s = inr refl
ended-Marks r unauthorized s = inl refl
ended-Marks r unidentified s = inl (lost_or_failed-marks r r.up_for s)
ended-Marks r not_dialled s = inl (lost_or_failed-marks r r.up_for s)
ended-Marks r no_hello s = inl (lost_or_failed-marks r r.up_for s)
ended-Marks r identity_unsent s = inl (lost_or_failed-marks r r.up_for s)
ended-Marks r (refused c) s = inl (lost_or_failed-marks r r.up_for s)
ended-Marks r stopped s = inl (lost_or_failed-marks r r.up_for s)
ended-Marks r read_failed s = inl (lost_or_failed-marks r r.up_for s)
ended-Marks r ping_unanswered s = inl (lost_or_failed-marks r r.up_for s)

dialled_round-Marks :
    (r : Round) (s : State) → Marks r s.unsupported (dialled_round r s).state.unsupported
unfolding dialled_round Marks
dialled_round-Marks r s =
    let P = λ (o : State × Pause × List Event). Marks r s.unsupported o.0.unsupported in
    if_intro P r.stopping (λ _. inl refl)
      λ _.
        if_intro P r.cancelled (λ _. inl refl)
          λ _. ended-Marks r r.end (record s { running = s.running || is_some r.up_for })

keeps_mark :
    (r : Round) (server : String) (t : ℕ) (old new : Dict ℕ)
    → Marks r old new
    → str_eq r.target.server server ≡ false
    → lookup server old ≡ some t
    → lookup server new ≡ some t
unfolding Marks
keeps_mark r server t old new (inl same) ne h = rw same h
keeps_mark r server t old new (inr put) ne h =
    rw put (ground (arith, lookup-insert r.target.server server r.later old))

-- What a round leaves of a mark that has not expired.
abbrev Rests : String → ℕ → Outcome → Type 0
Rests server t o = (lookup server o.state.unsupported ≡ some t) × (dials server o.dialled ≡ false)

other_server :
    (r : Round) (server : String) (t : ℕ) (s : State)
    → lookup server s.unsupported ≡ some t
    → r.now < t + unsupported_retry_after
    → resting s.unsupported r.target.server r.now ≡ false
    → str_eq r.target.server server ≡ false
unfolding resting
other_server r server t s h early awake = ground (arith, eq_iff r.target.server server)

dialled_round-Dials :
    (r : Round) (server : String) (s : State)
    → str_eq r.target.server server ≡ false
    → dials server (dialled_round r s).dialled ≡ false
unfolding dialled_round
dialled_round-Dials r server s ne = ne

round-Rests :
    (r : Round) (server : String) (t : ℕ) (s : State)
    → lookup server s.unsupported ≡ some t
    → r.now < t + unsupported_retry_after
    → Rests server t (round r s)
unfolding round
round-Rests r server t s h early =
    if_intro (Rests server t) (not r.target.enabled) (λ _. (h, refl))
      λ _.
        if_intro (Rests server t) (resting s.unsupported r.target.server r.now) (λ _. (h, refl))
          λ awake.
            let ne = other_server r server t s h early awake in
            (
              keeps_mark r server t s.unsupported (dialled_round r s).state.unsupported
                  (dialled_round-Marks r s) ne h,
              dialled_round-Dials r server s ne,
            )

rounds-Rests :
    (rs : List Round) (server : String) (t : ℕ) (s : State)
    → lookup server s.unsupported ≡ some t
    → all (λ (r : Round). ltb r.now (t + unsupported_retry_after)) rs ≡ true
    → any (dials server) (rounds rs s).0 ≡ false
unfolding rounds
rounds-Rests [] server t s h early = refl
rounds-Rests (r ∷ rs) server t s h early =
    let (kept, quiet) = round-Rests r server t s h (ground arith) in
    ground (arith, rounds-Rests rs server t (round r s).state kept (ground arith))

put_there : (k : String) (v : ℕ) (d : Dict ℕ) → lookup k (insert k v d) ≡ some v
put_there k v d = ground (arith, lookup-insert k k v d, eq_iff k k)

ended_marked :
    (r : Round) (e : End) (s : State)
    → e ≡ not_implemented
    → lookup r.target.server (ended r e s).0.unsupported ≡ some r.later
unfolding ended not_served
ended_marked r e s h = rw h (put_there r.target.server r.later s.unsupported)

marked_dialled :
    (r : Round) (s : State)
    → (r.stopping || r.cancelled) ≡ false
    → r.end ≡ not_implemented
    → lookup r.target.server (dialled_round r s).state.unsupported ≡ some r.later
unfolding dialled_round
marked_dialled r s on e =
    let P =
      λ (o : State × Pause × List Event). lookup r.target.server o.0.unsupported ≡ some r.later in
    if_intro P r.stopping (λ t. absurd (ground arith))
      λ _.
        if_intro P r.cancelled (λ t. absurd (ground arith))
          λ _. ended_marked r r.end (record s { running = s.running || is_some r.up_for }) e

marked :
    (r : Round) (s : State)
    → dials r.target.server (round r s).dialled ≡ true
    → r.end ≡ not_implemented
    → (r.stopping || r.cancelled) ≡ false
    → lookup r.target.server (round r s).state.unsupported ≡ some r.later
unfolding round
marked r s dialled e on =
    let P = λ (o : Outcome).
      dials r.target.server o.dialled ≡ true
      → lookup r.target.server o.state.unsupported ≡ some r.later in
    if_intro P (not r.target.enabled) (λ _ h. absurd (ground arith))
      (λ _.
        if_intro P (resting s.unsupported r.target.server r.now) (λ _ h. absurd (ground arith))
          λ _ h. marked_dialled r s on e)
      dialled

-- A server whose dial ended in a 404 on the upgrade, in a round that was neither stopped nor cancelled, is
-- not dialled again by any round of the next hour, whatever other servers are tried meanwhile.
pub not_implemented_rests :
    (r : Round) (rs : List Round) (s : State)
    → dials r.target.server (round r s).dialled ≡ true
    → r.end ≡ not_implemented
    → (r.stopping || r.cancelled) ≡ false
    → all (λ (q : Round). ltb q.now (r.later + unsupported_retry_after)) rs ≡ true
    → any (dials r.target.server) (rounds rs (round r s).state).0 ≡ false
not_implemented_rests r rs s dialled e on early =
    rounds-Rests rs r.target.server r.later (round r s).state (marked r s dialled e on) early
