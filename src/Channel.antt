-- ===== src/Channel.antt =====
-- The bounded channels of tokio, which crates/weft-appd hands requests to supervisors through: what
-- their documentation promises a sender, as an interface.
use weft_os.Base.{ℕ, ◌+◌, ◌<◌, ◌≡◌, Bool, true, List, [], ◌∷◌, ◌++◌, length}

-- A bounded `tokio::sync::mpsc` channel as its sender sees it: `queued` is what the receiver has
-- not taken yet, oldest first, and `is_open` that the receiver lives.
pub record Channels (A : Type 0) : Type 1 where
  pub Sender : Type 0
  pub channel : ℕ → Sender
  pub capacity : Sender → ℕ
  pub try_send : Sender → A → Sender
  pub is_open : Sender → Bool
  pub bound : Sender → ℕ
  pub queued : Sender → List A
  pub channel-is_open : (n : ℕ) → is_open (channel n) ≡ true
  pub bound-channel : (n : ℕ) → bound (channel n) ≡ n
  pub queued-channel : (n : ℕ) → queued (channel n) ≡ []
  pub capacity-queued : (s : Sender) → is_open s ≡ true → capacity s + length (queued s) ≡ bound s
  pub try_send-room :
      (s : Sender) (a : A)
      → is_open s ≡ true
      → 0 < capacity s
      → queued (try_send s a) ≡ queued s ++ a ∷ []
  pub try_send-full : (s : Sender) (a : A) → capacity s ≡ 0 → try_send s a ≡ s
  pub bound-try_send : (s : Sender) (a : A) → bound (try_send s a) ≡ bound s
  pub is_open-try_send : (s : Sender) (a : A) → is_open (try_send s a) ≡ is_open s
