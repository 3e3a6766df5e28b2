-- ===== src/Outbox.antt =====
-- crates/weft-compositor/src/appd_ipc.rs: the bytes for the supervisor that its socket has not
-- taken yet (`send` and `flush`). The socket is an interface; the timer that retries is left out.
pub mod Sent
mod Examples
use weft_os.Base.{
  ℕ, zero, suc, Bool, true, false, not, List, [], ◌∷◌, ◌++◌, Option, none, some, Text, length, drop,
  is_empty, ltb, Result, ok, err, if◌then◌else◌,
}
use weft_os.Frame.{max_frame_len}

-- What `write` returned: a number of bytes, or the kind of its error.
pub data Written : Type 0 where
  wrote : ℕ → Written
  would_block interrupted broken : Written

-- `S` is the connection.
pub record Socket {ℓ} (S : Type ℓ) : Type ℓ where
  pub write : S → Text → S × Written
  pub shutdown : S → S

-- `is_open` is `write_stream.is_some()`.
pub record Outbox {ℓ} (S : Type ℓ) : Type ℓ where
  pub wire : S
  pub is_open : Bool
  pub out_buf : Text

module _ {ℓ} {S : Type ℓ} (k : Socket S) where
  -- the connection given up
  abbrev closed_box : S → Outbox S
  closed_box s = record { wire = k.shutdown s; is_open = false; out_buf = [] }

  -- the test after the loop
  settled_box : S → Text → Outbox S
  settled_box s buf =
      if ltb max_frame_len (length buf)
      then closed_box s
      else record { wire = s; is_open = true; out_buf = buf }

  -- the body of the `while` loop on what was written; `again` is the rest of the loop
  turn : S → Text → Written → (Text → Option (Outbox S)) → Option (Outbox S)
  unfolding settled_box
  turn s buf (wrote zero) again = some (settled_box s buf)
  turn s buf (wrote (suc n)) again = again (drop (suc n) buf)
  turn s buf would_block again = some (settled_box s buf)
  turn s buf interrupted again = again buf
  turn s buf broken again = some (closed_box s)

  -- the `while` loop, `none` when the fuel is out
  write_loop : ℕ → S → Text → Option (Outbox S)
  unfolding turn
  write_loop zero s buf = none
  write_loop (suc fuel) s [] = some (settled_box s [])
  write_loop (suc fuel) s (b ∷ buf) =
      let (s', w) = k.write s (b ∷ buf) in turn s' (b ∷ buf) w (write_loop fuel s')

  unfoldable pub flush : ℕ → Outbox S → Option (Outbox S)
  unfolding write_loop
  flush fuel o =
      if o.is_open then write_loop fuel o.wire o.out_buf else some (record o { out_buf = [] })

  -- `send`, for a message that `frame_encode` made into `frame` or could not encode
  unfoldable pub send {κ} : {E : Type κ} → ℕ → Outbox S → Result E Text → Option (Outbox S)
  unfolding flush
  send fuel o (err e) = some o
  send fuel o (ok frame) =
      if o.is_open then flush fuel (record o { out_buf = o.out_buf ++ frame }) else some o
