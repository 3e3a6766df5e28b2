-- ===== src/Registry/Steps.antt =====
-- The registry as a transition system: the critical sections of `dispatch` and of the supervisors.
use weft_os.Base.{ℕ, ◌+◌, ◌^◌, ◌<◌, ◌≡◌, Bool, Option, some, Text}
use weft_os.Base.Map.{lookup}
use weft_os.Channel.{Channels}
use weft_os.Registry.{
  Stop, Registry, launch_app, terminate, settled, stop_unstarted, ready, begin_settle, shutdown_all,
}

module _ (c : Channels Stop) (d : Channels Text) where
  pub data Step (r : Registry c d) : Registry c d → Type 0 where
    launches :
        (app : Text) (token : Option Text)
        → r.next_id + 1 < 2 ^ 64
        → Step r (launch_app c d r app token).0
    terminates : (id : ℕ) (forced : Bool) → Step r (terminate c d r id forced).0
    readies :
        (id : ℕ) (asked : Bool) (s : c.Sender)
        → lookup id r.abort_senders ≡ some s
        → Step r (ready c d r id asked).0
    begins_settle :
        (id : ℕ) (s : c.Sender)
        → lookup id r.abort_senders ≡ some s
        → Step r (begin_settle c d r id)
    settles : (id : ℕ) → Step r (settled c d r id)
    unstarted : (id : ℕ) → Step r (stop_unstarted c d r id)
    shuts_down : Step r (shutdown_all c d r)

  pub data Reach (r : Registry c d) : Registry c d → Type 0 where
    here : Reach r r
    next : {s t : Registry c d} → Reach r s → Step s t → Reach r t
