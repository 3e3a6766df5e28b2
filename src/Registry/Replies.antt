-- ===== src/Registry/Replies.antt =====
-- What `terminate` tells the client is what the registry then holds.
use weft_os.Base.{
  ℕ, ◌≡◌, refl, ◌∙◌, Bool, true, false, not, ◌&&◌, Option, none, some, Text, ==_refl, if◌then◌else◌,
}
use weft_os.Base.Map.{lookup, remove, lookup-update, lookup-remove, map_option}
use weft_os.Channel.{Channels}
use weft_os.Registry.{
  AppStateKind, running, stopping, stopped, Stop, SessionEntry, is_running, Registry, state,
  state_of, set_state, terminate, terminate_sender, request, queue,
}
use weft_os.Registry.Sessions.{live_at, IsValid}

-- the state that a stop request leaves
abbrev pub after_stop : Bool → AppStateKind → AppStateKind
after_stop forced s = if not forced && is_running s then running else stopping

module _ (c : Channels Stop) (d : Channels Text) where
  state-set_state :
      (r : Registry c d) (id : ℕ) (s : AppStateKind)
      → live_at (lookup id r.sessions) ≡ true
      → state c d (set_state c d r id s) id ≡ s
  unfolding state set_state
  state-set_state r id s live =
      rw (lookup-update id id (λ (e : SessionEntry). record e { state = s }) r.sessions, ==_refl id)
        (go (lookup id r.sessions) live)
    where
      go :
          (o : Option SessionEntry)
          → live_at o ≡ true
          → state_of (map_option (λ (e : SessionEntry). record e { state = s }) o) ≡ s
      go none h = cc
      go (some e) h = refl

  live-queue :
      (r : Registry c d) (id : ℕ) (s : c.Sender)
      → live_at (lookup id r.sessions) ≡ true
      → live_at (lookup id (queue c d r id s).sessions) ≡ true
  unfolding queue
  live-queue r id s h = h

  state-queue :
      (r : Registry c d) (id : ℕ) (s : c.Sender) → state c d (queue c d r id s) id ≡ state c d r id
  unfolding state queue
  state-queue r id s = refl

  sender_reports :
      (r : Registry c d) (id : ℕ) (forced : Bool) (s : c.Sender) (st : AppStateKind)
      → live_at (lookup id r.sessions) ≡ true
      → state c d r id ≡ st
      → let (r', reply) = terminate_sender c d r id forced s st in
        (reply ≡ some (state c d r' id)) × (state c d r' id ≡ after_stop forced st)
  unfolding terminate_sender
  sender_reports r id true s stopping live e =
      (cc (state-queue r id (request c true s)), state-queue r id (request c true s) ∙ e)
  sender_reports r id false s stopping live e = (cc, e)
  sender_reports r id false s running live e =
      (cc (state-queue r id (request c false s)), state-queue r id (request c false s) ∙ e)
  sender_reports r id true s _ live e =
      let now =
        state-set_state (queue c d r id (request c true s)) id stopping
          (live-queue r id (request c true s) live) in
      (cc now, now)
  sender_reports r id false s _ live e =
      let now =
        state-set_state (queue c d r id (request c false s)) id stopping
          (live-queue r id (request c false s) live) in
      (cc now, now)

  lookup-forget : (r : Registry c d) (id : ℕ) → lookup id (remove id r.sessions) ≡ none
  lookup-forget r id = rw (lookup-remove id id r.sessions, ==_refl id)

  pub terminate_reports :
      (r : Registry c d) (id : ℕ) (forced : Bool)
      → IsValid c d r
      → let (r', reply) = terminate c d r id forced in
        ((s : c.Sender)
          → lookup id r.abort_senders ≡ some s
          → (reply ≡ some (state c d r' id))
            × (state c d r' id ≡ after_stop forced (state c d r id)))
        × (lookup id r.abort_senders ≡ none
            → (reply ≡ elim (lookup id r.sessions) [ none ↦ none | some e ↦ some stopped ])
              × (lookup id r'.sessions ≡ none))
  unfolding terminate
  terminate_reports r id forced v = (
    λ s asked.
        rw (asked, terminate)
          (sender_reports r id forced s (state c d r id) (v.stoppable id s asked) refl),
    λ idle. rw (idle, terminate) (refl, lookup-forget r id),
  )
