-- ===== src/Service/Sessions.antt =====
-- internal/service/sessionwatch.go: how bursts of session notifications become one report each. The select
-- of the loop is a sequence of signals: a notification of the service control loop, one taken off the
-- queue, or the timer, with what Windows then answers of the sessions.
pub mod Bursts
use emly_updater.Base.{
  ℕ, ◌+◌, ◌*◌, ◌≡◌, String, Bool, true, false, not, ◌&&◌, ◌||◌, Option, none, some, List, [], ◌∷◌,
  ◌++◌, map, is_blank, str_eq, ◌==◌, ltb, length, if◌then◌else◌,
}

abbrev pub session_settle : ℕ
session_settle = 1500 * 1000000

abbrev pub session_change_buffer : ℕ
session_change_buffer = 16

pub record UserSession : Type 0 where
  pub user : String
  pub state : String
  pub disconnected_at : Option ℕ

-- a notification; `at` is none for the zero time
pub record SessionChange : Type 0 where
  pub kind : String
  pub session_id : ℕ
  pub at : Option ℕ

-- the payload of session.changed
pub record SessionChanged : Type 0 where
  pub events : List String
  pub session_id : ℕ
  pub session_user : String
  pub changed : Bool
  pub at : Option ℕ
  pub logged_user : Option UserSession

abbrev pub same_instant : Option ℕ → Option ℕ → Bool
same_instant none none = true
same_instant (some a) (some b) = a == b
same_instant none (some b) = false
same_instant (some a) none = false

-- `==` on UserSession
unfoldable pub same : UserSession → UserSession → Bool
same a b =
    str_eq a.user b.user
    && str_eq a.state b.state
    && same_instant a.disconnected_at b.disconnected_at

unfoldable pub session_changed_payload :
    List String → SessionChange → String → UserSession → Bool → SessionChanged
session_changed_payload kinds c session_user logged changed = record {
  events = kinds;
  session_id = c.session_id;
  session_user = session_user;
  changed = changed;
  at = c.at;
  logged_user = if is_blank logged.user then none else some logged;
}

pub record State : Type 0 where
  pub queue : List SessionChange
  -- the burst so far, with its last notification; `armed` is whether `fire` is set
  pub kinds : List String
  pub last : Option SessionChange
  pub armed : Bool
  pub prev : UserSession

abbrev pub initial : State
initial = record {
  queue = [];
  kinds = [];
  last = none;
  armed = false;
  prev = record { user = ""; state = ""; disconnected_at = none };
}

pub data Signal : Type 0 where
  notification : SessionChange → Signal
  received : Signal
  settled : String → UserSession → Signal

-- what a burst is reported as: the payload that is emitted, and who was logged on then
pub record Report : Type 0 where
  pub payload : SessionChanged
  pub logged : UserSession

unfoldable pub queue_session_change : SessionChange → State → State
queue_session_change c s =
    if ltb (length s.queue) session_change_buffer
    then record s { queue = s.queue ++ (c ∷ []) }
    else s

receive : List SessionChange → State → State
receive [] s = s
receive (c ∷ cs) s = record s {
  queue = cs;
  kinds = s.kinds ++ (c.kind ∷ []);
  last = some c;
  armed = true;
}

report : Option SessionChange → String → UserSession → State → State × List Report
report none session_user logged s = (s, [])
report (some c) session_user logged s = (
  record s { armed = false; kinds = []; prev = logged },
  record {
    payload = session_changed_payload s.kinds c session_user logged (not (same logged s.prev));
    logged = logged;
  }
      ∷ [],
)

-- The timer sends only while it is armed.
unfoldable pub watch_sessions : Signal → State → State × List Report
unfolding receive report
watch_sessions (notification c) s = (queue_session_change c s, [])
watch_sessions received s = (receive s.queue s, [])
watch_sessions (settled session_user logged) s =
    if s.armed then report s.last session_user logged s else (s, [])

unfoldable pub watched : List Signal → State → State × List Report
watched [] s = (s, [])
watched (x ∷ xs) s =
    let (s', now) = watch_sessions x s in let (s'', later) = watched xs s' in (s'', now ++ later)
