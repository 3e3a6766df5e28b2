-- ===== src/Registry/Examples.antt =====
-- A stop channel that computes, registries, and the theorems at them.
use weft_os.Base.{
  ℕ, zero, suc, ◌+◌, ◌≤◌, ◌<◌, ◌≡◌, refl, true, false, List, [], ◌∷◌, ◌++◌, none, some, Text, codes,
  arith, length, length-append,
}
use weft_os.Base.Map.{Map, lookup, NodupKeys}
use weft_os.Channel.{Channels}
use weft_os.Registry.{
  AppStateKind, running, stopped, Stop, close, SessionEntry, Registry, launch, launch_app, state,
  terminate, authorize_bridge, bridge_token,
}
use weft_os.Registry.Sessions.{IsValid}
use weft_os.Registry.Bridge.{authorize_bridge_iff}
use weft_os.Registry.Race.{terminate_between}

-- The free places of a channel, and what waits in it.
record Queue (A : Type 0) : Type 0 where
  free : ℕ
  waiting : List A

send : {A : Type 0} → ℕ → List A → A → Queue A
send zero waiting a = record { free = 0; waiting = waiting }
send (suc n) waiting a = record { free = n; waiting = waiting ++ a ∷ [] }

module _ {A : Type 0} where
  room-send : (n : ℕ) (w : List A) (a : A) → 0 < n → (send n w a).waiting ≡ w ++ a ∷ []
  unfolding send
  room-send zero w a h = absurd (omega arith)
  room-send (suc n) w a h = refl

  bound-send :
      (n : ℕ) (w : List A) (a : A) → (send n w a).free + length (send n w a).waiting ≡ n + length w
  unfolding send
  bound-send zero w a = refl
  bound-send (suc n) w a = omega (arith, length-append w (a ∷ []))

  full-send : (s : Queue A) (a : A) → s.free ≡ 0 → send s.free s.waiting a ≡ s
  unfolding send
  full-send s a h = ground arith

abbrev queues : (A : Type 0) → Channels A
queues A = record {
  Sender = Queue A;
  channel = λ n. record { free = n; waiting = [] };
  capacity = λ s. s.free;
  try_send = λ s a. send s.free s.waiting a;
  is_open = λ s. true;
  bound = λ s. s.free + length s.waiting;
  queued = λ s. s.waiting;
  channel-is_open = λ n. refl;
  bound-channel = λ n. omega arith;
  queued-channel = λ n. refl;
  capacity-queued = λ s h. refl;
  try_send-room = λ s a h more. room-send s.free s.waiting a more;
  try_send-full = λ s a h. full-send s a h;
  bound-try_send = λ s a. bound-send s.free s.waiting a;
  is_open-try_send = λ s a. refl;
}

abbrev stops : Channels Stop
stops = queues Stop

abbrev messages : Channels Text
messages = queues Text

abbrev entry : Text → AppStateKind → SessionEntry
entry token s = record { app_id = codes "org.weft.demo"; state = s; bridge_token = some token }

abbrev asked_to_close : Queue Stop
asked_to_close = record { free = 1; waiting = close ∷ [] }

-- Session 1 runs and was asked to close; session 2 has stopped.
abbrev two_sessions : Registry stops messages
two_sessions = record {
  next_id = 2;
  sessions = (1, entry (codes "t1") running) ∷ (2, entry (codes "t2") stopped) ∷ [];
  abort_senders = (1, asked_to_close) ∷ [];
  ipc_senders = [];
}

two_sessions-IsValid : IsValid stops messages two_sessions
unfolding lookup
two_sessions-IsValid = record {
  nodup = (refl, (refl, tt));
  given = λ k known. ground arith;
  stoppable = λ k s asked. ground arith;
}

-- A launch, a forced stop of the running session, and the new session's supervisor.
abbrev launched : Registry stops messages
launched = (launch_app stops messages two_sessions (codes "org.weft.new") none).0

abbrev stopped_one : Registry stops messages
stopped_one = (terminate stops messages launched 1 true).0

authorize_bridge_iff_example : authorize_bridge stops messages two_sessions 1 (codes "t1") ≡ true
unfolding lookup bridge_token
authorize_bridge_iff_example =
    (authorize_bridge_iff stops messages two_sessions 1 (codes "t1")).1 (refl, refl)

-- 33 stopped sessions, of which the oldest goes.
abbrev stopped_below : ℕ → Map SessionEntry
stopped_below zero = []
stopped_below (suc n) = (n, entry (codes "t") stopped) ∷ stopped_below n

above_stopped : (n k : ℕ) → n ≤ k → lookup k (stopped_below n) ≡ none
unfolding lookup
above_stopped zero k h = refl
above_stopped (suc n) k h = ground (arith, above_stopped n k)

stopped_below-NodupKeys : (n : ℕ) → NodupKeys (stopped_below n)
stopped_below-NodupKeys zero = tt
stopped_below-NodupKeys (suc n) = (above_stopped n n (omega arith), stopped_below-NodupKeys n)

terminate_between_example :
    (terminate stops messages
      (launch stops messages two_sessions (codes "org.weft.new") none).0
      (launch stops messages two_sessions (codes "org.weft.new") none).1
      false).1
    ≡ some stopped
terminate_between_example =
    (terminate_between stops messages two_sessions (codes "org.weft.new") none false
      two_sessions-IsValid (omega arith)).0
