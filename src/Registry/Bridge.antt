-- ===== src/Registry/Bridge.antt =====
-- Who may open an application bridge: the `HELLO` of a WebSocket client is judged by
-- `authorize_bridge`.
use weft_os.Base.{ℕ, ◌≡◌, ◌↔◌, true, not, Option, none, some, Text, &&-eq-true}
use mathlib.Core.Option.{some-injective}
use weft_os.Base.Map.{lookup}
use weft_os.Channel.{Channels}
use weft_os.Registry.{
  Stop, SessionEntry, is_stopped, Registry, authorize_bridge, bridge_token, token_of,
  entry_authorizes, token_authorizes,
}
use weft_os.Registry.Sessions.{live_at}
use weft_os.Registry.Tokens.{tokens_match_iff}

token_authorizes_iff :
    (token : Text) (o : Option Text) → (token_authorizes token o ≡ true) ↔ (o ≡ some token)
unfolding token_authorizes
token_authorizes_iff token none = (λ h. cc, λ h. cc)
token_authorizes_iff token (some expected) = (
  λ h. cc ((tokens_match_iff expected token).0 h),
  λ h. (tokens_match_iff expected token).1 (some-injective expected token h),
)

entry_authorizes_iff :
    (token : Text) (o : Option SessionEntry)
    → (entry_authorizes token o ≡ true) ↔ ((live_at o ≡ true) × (token_of o ≡ some token))
unfolding entry_authorizes token_of
entry_authorizes_iff token none = (λ h. cc, λ h. cc (h.0))
entry_authorizes_iff token (some e) = (
  λ h.
      let (live, same) =
        &&-eq-true (not (is_stopped e.state)) (token_authorizes token e.bridge_token) h in
      (live, (token_authorizes_iff token e.bridge_token).0 same),
  λ (live, same). rw live ((token_authorizes_iff token e.bridge_token).1 same),
)

-- A connection is bound to a session exactly if the session is registered and has not stopped, and
-- the client holds the very token that was made for it; a session without a token has no bridge.
pub authorize_bridge_iff :
    (c : Channels Stop) (d : Channels Text) (r : Registry c d) (id : ℕ) (token : Text)
    → (authorize_bridge c d r id token ≡ true)
      ↔ ((live_at (lookup id r.sessions) ≡ true) × (bridge_token c d r id ≡ some token))
unfolding authorize_bridge bridge_token
authorize_bridge_iff c d r id token = entry_authorizes_iff token (lookup id r.sessions)
