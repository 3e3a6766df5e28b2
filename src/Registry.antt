-- ===== src/Registry.antt =====
-- `SessionRegistry` of crates/weft-appd/src/main.rs, and its types from ipc.rs and runtime.rs.
-- The stop channels are tokio's: a parameter, `Channels`. `random_token` is an argument of
-- `launch`, the broadcast channel and the compositor connection belong to `Dispatch`.
pub mod Ids
pub mod Prune
pub mod Sessions
pub mod Stops
pub mod Replies
pub mod Bridge
pub mod Race
pub mod Tokens
pub mod Lifecycle
pub mod Steps
pub mod Progress
pub mod History
mod Examples
use Prim.Native.Nat.{bit_or, bit_xor}
use weft_os.Base.{
  ℕ, ◌+◌, ◌-◌, ◌%◌, ◌^◌, ◌≤◌, ◌<◌, ◌≡◌, Bool, true, false, not, ◌&&◌, ◌||◌, List, [], ◌∷◌, ◌++◌,
  map, Option, none, some, Text, ltb, leb, ◌==◌, if◌then◌else◌, length, take, drop, filter, text_eq,
}
use weft_os.Channel.{Channels}
use weft_os.Base.Map.{Map, lookup, insert, remove, update, remove_all}
use weft_os.Base.Sort.{sort}

pub data AppStateKind : Type 0 where
  starting running stopping stopped not_found : AppStateKind

pub data Stop : Type 0 where
  close force : Stop

-- `STOP_QUEUE` and `KEPT_STOPPED`
abbrev pub stop_queue : ℕ
stop_queue = 2

abbrev pub kept_stopped : ℕ
kept_stopped = 32

pub record SessionEntry : Type 0 where
  pub app_id : Text
  pub state : AppStateKind
  pub bridge_token : Option Text

pub record SessionInfo : Type 0 where
  pub session_id : ℕ
  pub app_id : Text

-- `matches!(state, ...)`
abbrev pub is_stopped : AppStateKind → Bool
is_stopped stopped = true
is_stopped _ = false

abbrev pub is_stopping : AppStateKind → Bool
is_stopping stopping = true
is_stopping _ = false

abbrev pub is_running : AppStateKind → Bool
is_running running = true
is_running _ = false

-- the ids collected by `prune_stopped`
unfoldable pub stopped_ids : Map SessionEntry → List ℕ
stopped_ids [] = []
stopped_ids ((id, e) ∷ m) =
    let rest = stopped_ids m in if is_stopped e.state then id ∷ rest else rest

-- the ids that it removes: all but the last `KEPT_STOPPED` in order
unfoldable pub pruned_ids : Map SessionEntry → List ℕ
unfolding stopped_ids
pruned_ids m =
    let ids = stopped_ids m in
    if leb (length ids) kept_stopped then [] else take (length ids - kept_stopped) (sort ids)

unfoldable pub prune : Map SessionEntry → Map SessionEntry
prune m = remove_all (pruned_ids m) m

-- the `fold` over the zipped bytes in `tokens_match`: the differing bits so far
differences : ℕ → Text → Text → ℕ
differences acc [] given = acc
differences acc (a ∷ expected) [] = acc
differences acc (a ∷ expected) (b ∷ given) = differences (bit_or acc (bit_xor a b)) expected given

-- `tokens_match` of ws.rs
unfoldable pub tokens_match : Text → Text → Bool
unfolding differences
tokens_match expected given = length expected == length given && differences 0 expected given == 0

token_of : Option SessionEntry → Option Text
token_of none = none
token_of (some e) = e.bridge_token

token_authorizes : Text → Option Text → Bool
token_authorizes token none = false
token_authorizes token (some expected) = tokens_match expected token

entry_authorizes : Text → Option SessionEntry → Bool
unfolding token_authorizes
entry_authorizes token none = false
entry_authorizes token (some e) = not (is_stopped e.state) && token_authorizes token e.bridge_token

state_of : Option SessionEntry → AppStateKind
state_of none = not_found
state_of (some e) = e.state

session_infos : Map SessionEntry → List SessionInfo
session_infos [] = []
session_infos ((id, e) ∷ m) =
    let rest = session_infos m in
    if is_stopped e.state then rest else record { session_id = id; app_id = e.app_id } ∷ rest

restored_ids : Map SessionEntry → List Text
restored_ids [] = []
restored_ids ((id, e) ∷ m) =
    let rest = restored_ids m in
    if is_stopped e.state || is_stopping e.state then rest else e.app_id ∷ rest

-- Queue a request: a close only into an empty queue.
unfoldable pub request : (c : Channels Stop) → Bool → c.Sender → c.Sender
request c true sender = c.try_send sender force
request c false sender = if c.capacity sender == stop_queue then c.try_send sender close else sender

module _ (c : Channels Stop) (d : Channels Text) where
  open c use {Sender, channel}
  open d use {Sender as IpcSender}

  pub record Registry : Type 0 where
    pub next_id : ℕ
    pub sessions : Map SessionEntry
    pub abort_senders : Map Sender
    pub ipc_senders : Map IpcSender

  -- `launch`, with the result of `random_token`. The id wraps as a `u64` does.
  unfoldable pub launch : Registry → Text → Option Text → Registry × ℕ
  unfolding prune
  launch r app token =
      let id = (r.next_id + 1) % 2 ^ 64 in
      let entry : SessionEntry = record { app_id = app; state = starting; bridge_token = token } in
      (record r { next_id = id; sessions = insert id entry (prune r.sessions) }, id)

  unfoldable pub bridge_token : Registry → ℕ → Option Text
  unfolding token_of
  bridge_token r id = token_of (lookup id r.sessions)

  unfoldable pub authorize_bridge : Registry → ℕ → Text → Bool
  unfolding entry_authorizes
  authorize_bridge r id token = entry_authorizes token (lookup id r.sessions)

  unfoldable pub state : Registry → ℕ → AppStateKind
  unfolding state_of
  state r id = state_of (lookup id r.sessions)

  unfoldable pub set_state : Registry → ℕ → AppStateKind → Registry
  set_state r id s = record r {
    sessions = update id (λ (e : SessionEntry). record e { state = s }) r.sessions;
  }

  pub queue : Registry → ℕ → Sender → Registry
  queue r id sender = record r { abort_senders = insert id sender r.abort_senders }

  -- The three arms of the `match` in `terminate`.
  terminate_sender : Registry → ℕ → Bool → Sender → AppStateKind → Registry × Option AppStateKind
  unfolding request queue set_state
  terminate_sender r id forced sender stopping =
      (if forced then queue r id (request c true sender) else r, some stopping)
  terminate_sender r id forced sender s =
      let r' = queue r id (request c forced sender) in
      if not forced && is_running s
      then (r', some running)
      else (set_state r' id stopping, some stopping)

  terminate_with : Registry → ℕ → Bool → Option Sender → Registry × Option AppStateKind
  unfolding terminate_sender state
  terminate_with r id forced (some sender) = terminate_sender r id forced sender (state r id)
  terminate_with r id forced none = (
    record r { sessions = remove id r.sessions },
    elim (lookup id r.sessions) [ none ↦ none | some e ↦ some stopped ],
  )

  unfoldable pub terminate : Registry → ℕ → Bool → Registry × Option AppStateKind
  unfolding terminate_with
  terminate r id forced = terminate_with r id forced (lookup id r.abort_senders)

  unfoldable pub register_abort : Registry → ℕ → Registry
  register_abort r id = record r { abort_senders = insert id (channel stop_queue) r.abort_senders }

  unfoldable pub running_sessions : Registry → List SessionInfo
  unfolding session_infos
  running_sessions r = session_infos r.sessions

  unfoldable pub running_app_ids : Registry → List Text
  unfolding restored_ids
  running_app_ids r = restored_ids r.sessions

  unfoldable pub remove_abort_sender : Registry → ℕ → Registry
  remove_abort_sender r id = record r { abort_senders = remove id r.abort_senders }

  unfoldable pub register_ipc_sender : Registry → ℕ → IpcSender → Registry
  register_ipc_sender r id tx = record r { ipc_senders = insert id tx r.ipc_senders }

  unfoldable pub ipc_sender_for : Registry → ℕ → Option IpcSender
  ipc_sender_for r id = lookup id r.ipc_senders

  unfoldable pub remove_ipc_sender : Registry → ℕ → Registry
  remove_ipc_sender r id = record r { ipc_senders = remove id r.ipc_senders }

  unfoldable pub shutdown_all : Registry → Registry
  shutdown_all r = record r { abort_senders = [] }

  -- the last critical section of `settle` in runtime.rs, and that of `stop_unstarted`
  unfoldable pub settled : Registry → ℕ → Registry
  unfolding remove_ipc_sender set_state remove_abort_sender
  settled r id = remove_abort_sender (set_state (remove_ipc_sender r id) id stopped) id

  unfoldable pub stop_unstarted : Registry → ℕ → Registry
  unfolding set_state remove_abort_sender
  stop_unstarted r id = remove_abort_sender (set_state r id stopped) id

  -- `supervise`, once the app shell is ready: a stop that was requested meanwhile settles the session
  -- instead. `asked` is `abort_rx.try_recv().is_ok()`.
  unfoldable pub ready : Registry → ℕ → Bool → Registry × Bool
  unfolding set_state state
  ready r id asked =
      if is_stopping (state r id) || asked then (r, false) else (set_state r id running, true)

  -- the first critical section of `settle`
  unfoldable pub begin_settle : Registry → ℕ → Registry
  unfolding set_state state
  begin_settle r id = if is_stopping (state r id) then r else set_state r id stopping

  -- `LaunchApp` in `dispatch`: `launch`, then `register_abort` under a second lock
  unfoldable pub launch_app : Registry → Text → Option Text → Registry × ℕ
  unfolding launch register_abort
  launch_app r app token = let (r', id) = launch r app token in (register_abort r' id, id)
