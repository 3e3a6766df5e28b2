-- ===== src/Registry/Lifecycle.antt =====
-- The registry's invariant under the operations of `dispatch` and of a session's supervisor.
use weft_os.Base.{
  ℕ, ◌≡◌, Bool, true, false, none, some, Text, arith, ◌==◌, if◌then◌else◌, Option-cases, inl, inr,
}
use weft_os.Base.Map.{
  lookup, remove, lookup-insert, lookup-update, lookup-remove, update-NodupKeys, remove-NodupKeys,
  map_option,
}
use weft_os.Channel.{Channels}
use weft_os.Registry.{
  AppStateKind, running, stopping, stopped, Stop, SessionEntry, is_stopped, Registry, state,
  set_state, terminate, terminate_sender, queue, request, register_abort, settled, stop_unstarted,
}
use weft_os.Registry.Sessions.{live_at, IsValid}

module _ (c : Channels Stop) (d : Channels Text) (r : Registry c d) (id : ℕ) where
  -- A session for which a stop channel is registered stays valid if it is live.
  pub register_abort-IsValid :
      IsValid c d r → live_at (lookup id r.sessions) ≡ true → IsValid c d (register_abort c d r id)
  unfolding register_abort
  register_abort-IsValid v live = record {
    nodup = v.nodup;
    given = v.given;
    stoppable = λ k s asked.
        ground (arith, lookup-insert k id (c.channel 2) r.abort_senders, v.stoppable k s);
  }

  pub settled-IsValid : IsValid c d r → IsValid c d (settled c d r id)
  unfolding settled
  settled-IsValid v = record {
    nodup = update-NodupKeys id _ r.sessions v.nodup;
    given = λ k known. ground (
      arith,
      lookup-update k id (λ (e : SessionEntry). record e { state = stopped }) r.sessions,
      v.given k,
    );
    stoppable = λ k s asked. ground (
      arith,
      lookup-remove k id r.abort_senders,
      lookup-update k id (λ (e : SessionEntry). record e { state = stopped }) r.sessions,
      v.stoppable k s,
    );
  }

  pub stop_unstarted-IsValid : IsValid c d r → IsValid c d (stop_unstarted c d r id)
  unfolding stop_unstarted
  stop_unstarted-IsValid v = record {
    nodup = update-NodupKeys id _ r.sessions v.nodup;
    given = λ k known. ground (
      arith,
      lookup-update k id (λ (e : SessionEntry). record e { state = stopped }) r.sessions,
      v.given k,
    );
    stoppable = λ k s asked. ground (
      arith,
      lookup-remove k id r.abort_senders,
      lookup-update k id (λ (e : SessionEntry). record e { state = stopped }) r.sessions,
      v.stoppable k s,
    );
  }

  -- An update of one state, seen from each id.
  pub lookup-set_state :
      (s : AppStateKind) (k : ℕ)
      → lookup k (set_state c d r id s).sessions ≡ (
          if id == k
          then map_option (λ (e : SessionEntry). record e { state = s }) (lookup k r.sessions)
          else lookup k r.sessions)
  unfolding set_state
  lookup-set_state s k = lookup-update k id _ r.sessions

  pub set_state-IsValid :
      (s : AppStateKind) → is_stopped s ≡ false → IsValid c d r → IsValid c d (set_state c d r id s)
  unfolding set_state
  set_state-IsValid s live v = record {
    nodup = update-NodupKeys id _ r.sessions v.nodup;
    given = λ k known. ground (
      arith,
      lookup-update k id (λ (e : SessionEntry). record e { state = s }) r.sessions,
      v.given k,
    );
    stoppable = λ k sender asked. ground (
      arith,
      lookup-update k id (λ (e : SessionEntry). record e { state = s }) r.sessions,
      v.stoppable k sender,
    );
  }

  pub queue-IsValid :
      (sender : c.Sender)
      → live_at (lookup id r.sessions) ≡ true
      → IsValid c d r
      → IsValid c d (queue c d r id sender)
  unfolding queue
  queue-IsValid sender live v = record {
    nodup = v.nodup;
    given = v.given;
    stoppable =
        λ k s asked. ground (arith, lookup-insert k id sender r.abort_senders, v.stoppable k s);
  }

  pub forget-IsValid :
      lookup id r.abort_senders ≡ none
      → IsValid c d r
      → IsValid c d (record r { sessions = remove id r.sessions })
  forget-IsValid idle v = record {
    nodup = remove-NodupKeys id r.sessions v.nodup;
    given = λ k known. ground (arith, lookup-remove k id r.sessions, v.given k);
    stoppable = λ k s asked. ground (arith, lookup-remove k id r.sessions, v.stoppable k s);
  }

  sender_cases {ℓ} :
      (P : Registry c d → Type ℓ) (forced : Bool) (sender : c.Sender) (s : AppStateKind)
      → P r
      → P (queue c d r id (request c forced sender))
      → P (set_state c d (queue c d r id (request c forced sender)) id stopping)
      → P (terminate_sender c d r id forced sender s).0
  unfolding terminate_sender
  sender_cases P true sender stopping same queued stops = queued
  sender_cases P false sender stopping same queued stops = same
  sender_cases P false sender running same queued stops = queued
  sender_cases P true sender running same queued stops = stops
  sender_cases P true sender _ same queued stops = stops
  sender_cases P false sender _ same queued stops = stops

  -- What `terminate` can do to the registry: nothing, queue a request, queue one and stop the
  -- session, or forget a session that no supervisor runs.
  pub terminate_cases {ℓ} :
      (P : Registry c d → Type ℓ) (forced : Bool)
      → P r
      → ((s : c.Sender)
          → lookup id r.abort_senders ≡ some s
          → P (queue c d r id (request c forced s)))
      → ((s : c.Sender)
          → lookup id r.abort_senders ≡ some s
          → P (set_state c d (queue c d r id (request c forced s)) id stopping))
      → (lookup id r.abort_senders ≡ none → P (record r { sessions = remove id r.sessions }))
      → P (terminate c d r id forced).0
  unfolding terminate
  terminate_cases P forced same queued stops forgets =
      elim (Option-cases (lookup id r.abort_senders)) [
        | inl idle ↦ rw (idle, terminate) (forgets idle)
        | inr (s, asked) ↦
            rw (asked, terminate)
              (sender_cases P forced s (state c d r id) same (queued s asked) (stops s asked))
      ]
