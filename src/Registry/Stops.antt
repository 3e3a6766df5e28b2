-- ===== src/Registry/Stops.antt =====
-- Stop requests: what reaches the supervisor, and what the client is told.
use weft_os.Base.{
  ◌+◌, ◌≤◌, ◌<◌, ◌≡◌, ◌∙◌, Bool, true, false, List, [], ◌∷◌, ◌++◌, arith, ltb, ltb→lt, ltb→le,
  ==_iff, ◌==◌, length, Bool-cases, inl, inr,
}
use weft_os.Channel.{Channels}
use weft_os.Registry.{Stop, close, force, stop_queue, Registry, request}

-- A close stands at most at the head of the queue.
abbrev pub WellQueued : List Stop → Type 0
WellQueued [] = Unit
WellQueued (s ∷ []) = Unit
WellQueued (s ∷ force ∷ []) = Unit
WellQueued (s ∷ close ∷ []) = ⊥
WellQueued (s ∷ t ∷ u ∷ q) = ⊥

abbrev pub has_force : List Stop → Bool
has_force [] = false
has_force (force ∷ q) = true
has_force (close ∷ q) = has_force q

-- Taking the oldest request.
pub WellQueued-tail : (s : Stop) (q : List Stop) → WellQueued (s ∷ q) → WellQueued q
WellQueued-tail s [] h = tt
WellQueued-tail s (t ∷ []) h = tt
WellQueued-tail s (t ∷ u ∷ q) h = absurd h

WellQueued-force : (q : List Stop) → length q ≤ 1 → WellQueued (q ++ force ∷ [])
WellQueued-force [] h = tt
WellQueued-force (s ∷ []) h = tt
WellQueued-force (s ∷ t ∷ q) h = absurd (omega arith)

WellQueued-close : (q : List Stop) → length q ≡ 0 → WellQueued (q ++ close ∷ [])
WellQueued-close [] h = tt
WellQueued-close (s ∷ q) h = absurd (omega arith)

module _ (c : Channels Stop) where
  -- A stop channel whose supervisor still reads it.
  pub record Serves (s : c.Sender) : Type 0 where
    pub open_ : c.is_open s ≡ true
    pub two : c.bound s ≡ stop_queue
    pub queued : WellQueued (c.queued s)

  pub channel-Serves : Serves (c.channel stop_queue)
  channel-Serves = record {
    open_ = c.channel-is_open stop_queue;
    two = c.bound-channel stop_queue;
    queued = rw (c.queued-channel stop_queue) tt;
  }

  room : (s : c.Sender) → Serves s → c.capacity s + length (c.queued s) ≡ 2
  room s v = c.capacity-queued s v.open_ ∙ v.two

  sent-Serves :
      (s : c.Sender) (a : Stop)
      → Serves s
      → 0 < c.capacity s
      → WellQueued (c.queued s ++ a ∷ [])
      → Serves (c.try_send s a)
  sent-Serves s a v h w = record {
    open_ = c.is_open-try_send s a ∙ v.open_;
    two = c.bound-try_send s a ∙ v.two;
    queued = rw (c.try_send-room s a v.open_ h) w;
  }

  pub request-Serves : (forced : Bool) (s : c.Sender) → Serves s → Serves (request c forced s)
  unfolding request
  request-Serves true s v = elim (Bool-cases (ltb 0 (c.capacity s))) [
    | inl h ↦
        sent-Serves s force v (ltb→lt 0 (c.capacity s) h)
          (WellQueued-force (c.queued s) (omega (arith, room s v, ltb→lt 0 (c.capacity s) h)))
    | inr h ↦ rw (c.try_send-full s force (omega (arith, ltb→le 0 (c.capacity s) h))) v
  ]
  request-Serves false s v = elim (Bool-cases (c.capacity s == stop_queue)) [
    | inl h ↦ rw h (
        sent-Serves s close v (omega (arith, (==_iff (c.capacity s) 2).0 h))
          (WellQueued-close (c.queued s) (omega (arith, room s v, (==_iff (c.capacity s) 2).0 h))))
    | inr h ↦ rw h v
  ]
