-- ===== src/Service/Presence.antt =====
-- internal/service/clientws.go: where the client channel is pointed, and the loop that holds it open. A
-- round of the loop is a step; the connection's end, the clock and the policy of the moment are its
-- argument `Round`. The wake-ups and the ticker only decide when the next round comes.
pub mod Follows
pub mod Rest
use emly_updater.Base.{
  ℕ, ◌+◌, ◌-◌, ◌*◌, ◌≡◌, String, Bool, true, false, not, ◌&&◌, ◌||◌, Option, none, some, List, [],
  ◌∷◌, ◌++◌, Dict, lookup, insert, is_some, ltb, leb, str_eq, if◌then◌else◌,
}
use emly_updater.Service.Preferred.{preferred_chain}
use emly_updater.WsClient.Backoff.{Backoff, second, next, reset, settle}
use emly_updater.WsClient.Client.{End, not_implemented, unauthorized}

pub record Target : Type 0 where
  pub enabled : Bool
  pub server : String
  pub url : String

abbrev pub nowhere : Target
nowhere = record { enabled = false; server = ""; url = "" }

-- what the current cycle says of the channel: the switch, the chain, and BaseURL
pub record Policy : Type 0 where
  pub enabled : Bool
  pub chain : List String
  pub base_url : String → String

module _ (url_for : String → Option String) where
  endpoint : String → Option String → Target
  endpoint server none = nowhere
  endpoint server (some url) = record { enabled = true; server = server; url = url }

  head_target : Policy → List String → Target
  unfolding endpoint
  head_target p [] = nowhere
  head_target p (server ∷ rest) = endpoint server (url_for (p.base_url server))

  -- clientWSTarget, with the preference that preferredChain leaves; `none` while no cycle has run.
  unfoldable pub client_ws_target : Option Policy → Option String → Target × Option String
  unfolding head_target
  client_ws_target none preferred = (nowhere, preferred)
  client_ws_target (some p) preferred =
      let (chain, preferred') = preferred_chain p.chain preferred in
      if p.enabled then (head_target p chain, preferred') else (nowhere, preferred)

abbrev pub watch_interval : ℕ
watch_interval = 15 * second

abbrev pub initial_jitter_max : ℕ
initial_jitter_max = 60 * second

abbrev pub unsupported_retry_after : ℕ
unsupported_retry_after = 3600 * second

-- clientWSSleep: a wait that is not above 0 becomes a second.
unfoldable pub sleep_of : ℕ → ℕ
sleep_of d = if leb d 0 then second else d

pub record State : Type 0 where
  pub backoff : Backoff
  pub unsupported : Dict ℕ
  pub running : Bool

abbrev pub initial : State
initial = record {
  backoff = record { base = 0; max = 0; stable_for = 0; cur = 0 };
  unsupported = [];
  running = false;
}

pub record Round : Type 0 where
  pub target : Target
  -- the clock at the check of the marks, and when the connection has ended
  pub now : ℕ
  pub later : ℕ
  -- how long the connection was up, none when OnConnected was not called
  pub up_for : Option ℕ
  pub end : End
  -- the service is stopping; the watcher cancelled the connection
  pub stopping : Bool
  pub cancelled : Bool
  pub draw : ℕ

-- How the loop goes on.
pub data Pause : Type 0 where
  watches : Pause
  at_once : Pause
  backs_off : ℕ → Pause
  leaves : Pause

-- the events of the log
pub data Event : Type 0 where
  switched_off : Event
  established : String → Event
  unsupported_at : String → Event
  rejected : String → Event
  lost : String → ℕ → Event

pub record Outcome : Type 0 where
  pub state : State
  pub pause : Pause
  pub events : List Event
  -- the server that was dialled
  pub dialled : Option String

-- whether a server is marked, and the mark has not expired
unfoldable pub resting : Dict ℕ → String → ℕ → Bool
resting marks server now = elim (lookup server marks) [
  | none ↦ false
  | some at ↦ ltb (now - at) unsupported_retry_after
]

backing_off : Round → State → List Event → State × Pause × List Event
backing_off r s es =
    let (d, b) = next r.draw s.backoff in (record s { backoff = b }, backs_off (sleep_of d), es)

not_served : Round → State → State × Pause × List Event
not_served r s = (
  record s {
    unsupported = insert r.target.server r.later s.unsupported;
    backoff = reset s.backoff;
  },
  at_once,
  if is_some (lookup r.target.server s.unsupported)
      then []
      else unsupported_at r.target.server ∷ [],
)

lost_or_failed : Round → Option ℕ → State → State × Pause × List Event
unfolding backing_off
lost_or_failed r none s = backing_off r s []
lost_or_failed r (some d) s =
    backing_off r (record s { backoff = settle d s.backoff }) (lost r.target.server d ∷ [])

-- the switch on how a connection ended
unfoldable pub ended : Round → End → State → State × Pause × List Event
unfolding not_served backing_off lost_or_failed
ended r not_implemented s = not_served r s
ended r unauthorized s = backing_off r s (rejected r.target.server ∷ [])
ended r _ s = lost_or_failed r r.up_for s

unfoldable pub dialled_round : Round → State → Outcome
dialled_round r s =
    let up = is_some r.up_for in
    let s' = record s { running = s.running || up } in
    let es = if up then established r.target.server ∷ [] else [] in
    let (s'', pause, more) =
      if r.stopping
      then (s', leaves, [])
      else if r.cancelled
      then (record s' { backoff = reset s'.backoff }, at_once, [])
      else ended r r.end s' in
    record { state = s''; pause = pause; events = es ++ more; dialled = some r.target.server }

-- one pass of runClientWS
unfoldable pub round : Round → State → Outcome
round r s =
    if not r.target.enabled
    then record {
      state = record s { running = false };
      pause = watches;
      events = if s.running then switched_off ∷ [] else [];
      dialled = none;
    }
    else if resting s.unsupported r.target.server r.now
    then record { state = s; pause = watches; events = []; dialled = none }
    else dialled_round r s

-- The rounds of a run: the servers dialled, and the events, in order.
unfoldable pub rounds : List Round → State → List (Option String) × List Event
rounds [] s = ([], [])
rounds (r ∷ rs) s =
    let o = round r s in
    let (dials, events) = rounds rs o.state in (o.dialled ∷ dials, o.events ++ events)
