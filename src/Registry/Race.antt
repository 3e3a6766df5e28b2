-- ===== src/Registry/Race.antt =====
-- `LaunchApp` registers the session and its stop channel under two locks. What a stop request that
-- comes between them leaves.
use weft_os.Base.{
  ℕ, ◌+◌, ◌^◌, ◌<◌, ◌≡◌, refl, ap, ◌∙◌, Bool, false, Option, none, some, Text, arith, Option-cases,
  inl, inr,
}
use weft_os.Base.Map.{lookup, lookup-insert}
use weft_os.Channel.{Channels}
use weft_os.Registry.{
  stopped, not_found, Stop, Registry, launch, state, terminate, register_abort, stop_queue,
}
use weft_os.Registry.Sessions.{live_at, IsValid, launch_registers, launch-IsValid}
use weft_os.Registry.Replies.{terminate_reports}

module _ (c : Channels Stop) (d : Channels Text) where
  register_abort-orphan :
      (r : Registry c d) (id : ℕ)
      → lookup id (register_abort c d r id).abort_senders ≡ some (c.channel stop_queue)
  unfolding register_abort
  register_abort-orphan r id =
      ground (arith, lookup-insert id id (c.channel stop_queue) r.abort_senders)

  sessions-register_abort :
      (r : Registry c d) (id : ℕ) → (register_abort c d r id).sessions ≡ r.sessions
  unfolding register_abort
  sessions-register_abort r id = refl

  state_unknown :
      (r : Registry c d) (id : ℕ) → lookup id r.sessions ≡ none → state c d r id ≡ not_found
  unfolding state
  state_unknown r id h = rw h

  -- a stop channel of an id that is not registered breaks the invariant
  orphan_invalid :
      (r : Registry c d) (id : ℕ) (s : c.Sender)
      → lookup id r.abort_senders ≡ some s
      → lookup id r.sessions ≡ none
      → IsValid c d r
      → ⊥
  orphan_invalid r id s held lost v = cc (v.stoppable id s held, ap live_at lost)

  no_sender_yet :
      (r : Registry c d) (app : Text) (token : Option Text)
      → IsValid c d r
      → r.next_id + 1 < 2 ^ 64
      → lookup (launch c d r app token).1 (launch c d r app token).0.abort_senders ≡ none
  no_sender_yet r app token v h =
      elim (Option-cases (lookup (launch c d r app token).1 r.abort_senders)) [
        | inl e ↦ rw (launch_registers c d r app token v h).4 e
        | inr (s, e) ↦ cc (
          v.stoppable (launch c d r app token).1 s e,
          (launch_registers c d r app token v h).0,
          live_none,
        )
      ]
    where
      live_none : live_at none ≡ false
      live_none = refl

  -- A stop request for the id of a launch in progress, before its stop channel is registered: the
  -- client is told that the session stopped, and the launch goes on with a stop channel for a session
  -- that the registry does not list, so its supervisor starts processes for it.
  pub terminate_between :
      (r : Registry c d) (app : Text) (token : Option Text) (forced : Bool)
      → IsValid c d r
      → r.next_id + 1 < 2 ^ 64
      → let (r1, id) = launch c d r app token in
        let (r2, reply) = terminate c d r1 id forced in
        let r3 = register_abort c d r2 id in
        (reply ≡ some stopped)
        × (state c d r3 id ≡ not_found)
        × (lookup id r3.abort_senders ≡ some (c.channel stop_queue))
        × ¬ IsValid c d r3
  terminate_between r app token forced v h =
      let id = (launch c d r app token).1 in
      let r1 = (launch c d r app token).0 in
      let v1 = launch-IsValid c d r app token v h in
      let (told, gone) =
        (terminate_reports c d r1 id forced v1).1 (no_sender_yet r app token v h) in
      let r2 = (terminate c d r1 id forced).0 in
      let held = register_abort-orphan r2 id in
      let lost = ap (lookup id) (sessions-register_abort r2 id) ∙ gone in
      (
        rw ((launch_registers c d r app token v h).1) at told,
        state_unknown (register_abort c d r2 id) id lost,
        held,
        λ valid.
            orphan_invalid (register_abort c d r2 id) id (c.channel stop_queue) held lost valid,
      )
