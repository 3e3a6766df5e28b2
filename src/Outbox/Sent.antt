-- ===== src/Outbox/Sent.antt =====
-- What the supervisor's socket took.
use weft_os.Base.{
  ℕ, zero, suc, ◌≤◌, ◌<◌, ◌≡◌, refl, ap, subst, ◌∙◌, inl, inr, true, false, Bool-cases, [], ◌∷◌,
  ◌++◌, append_assoc, append-nil, Option, some, some-injective, Text, length, take, drop,
  take-append-drop, length-drop, is_empty, ltb, ok, if◌then◌else◌, arith,
}
use weft_os.Frame.{max_frame_len}
use weft_os.Outbox.{
  Written, wrote, would_block, interrupted, broken, Socket, Outbox, closed_box, settled_box, turn,
  write_loop, flush, send,
}

-- `taken` is every byte that the connection has accepted so far.
pub record Lawful {ℓ} {S : Type ℓ} (k : Socket S) (taken : S → Text) : Type ℓ where
  pub write-wrote :
      (s : S) (buf : Text) (n : ℕ)
      → (k.write s buf).1 ≡ wrote n
      → taken (k.write s buf).0 ≡ taken s ++ take n buf
  pub write-would_block :
      (s : S) (buf : Text) → (k.write s buf).1 ≡ would_block → taken (k.write s buf).0 ≡ taken s
  pub write-interrupted :
      (s : S) (buf : Text) → (k.write s buf).1 ≡ interrupted → taken (k.write s buf).0 ≡ taken s
  pub write-broken :
      (s : S) (buf : Text) → (k.write s buf).1 ≡ broken → taken (k.write s buf).0 ≡ taken s
  pub shutdown-taken : (s : S) → taken (k.shutdown s) ≡ taken s

module _ {ℓ} {S : Type ℓ} (k : Socket S) (taken : S → Text) (laws : Lawful k taken) where
  -- `all` is what was taken, then what waits, at most a frame's length; or the connection is
  -- closed, nothing waits, and a beginning of `all` was taken.
  abbrev pub Conserved : Text → Outbox S → Type 0
  Conserved all o =
      (lost : Text) × (taken o.wire ++ (o.out_buf ++ lost) ≡ all)
      × ((if o.is_open then is_empty lost else is_empty o.out_buf) ≡ true)
      × (length o.out_buf ≤ max_frame_len)

  settled_box-Conserved : (s : S) (buf : Text) → Conserved (taken s ++ buf) (settled_box k s buf)
  unfolding settled_box
  settled_box-Conserved s buf = elim (Bool-cases (ltb max_frame_len (length buf))) [
    | inl e ↦ rw e (buf, rw (laws.shutdown-taken s) refl, refl, omega arith)
    | inr e ↦ rw e ([], rw append-nil refl, refl, ground arith)
  ]

  closed_box-Conserved : (s : S) (buf : Text) → Conserved (taken s ++ buf) (closed_box k s)
  closed_box-Conserved s buf = (buf, rw (laws.shutdown-taken s) refl, refl, omega arith)

  -- A step that took nothing.
  nothing_taken :
      (s s' : S) (buf : Text) (o : Outbox S)
      → taken s' ≡ taken s
      → Conserved (taken s' ++ buf) o
      → Conserved (taken s ++ buf) o
  nothing_taken s s' buf o e h = subst (λ t. Conserved (t ++ buf) o) e h

  some_taken :
      (s s' : S) (buf : Text) (n : ℕ)
      → taken s' ≡ taken s ++ take n buf
      → taken s' ++ drop n buf ≡ taken s ++ buf
  some_taken s s' buf n e = rw e (
      append_assoc (taken s) (take n buf) (drop n buf)
      ∙ ap (λ t. taken s ++ t) (take-append-drop n buf))

  turn-Conserved :
      (s : S) (buf : Text) (w : Written) (again : Text → Option (Outbox S)) (o : Outbox S)
      → (k.write s buf).1 ≡ w
      → ((rest : Text) → again rest ≡ some o → Conserved (taken (k.write s buf).0 ++ rest) o)
      → turn k (k.write s buf).0 buf w again ≡ some o
      → Conserved (taken s ++ buf) o
  unfolding turn
  turn-Conserved s buf (wrote zero) again o e h d =
      let s' = (k.write s buf).0 in
      nothing_taken s s' buf o (laws.write-wrote s buf 0 e ∙ append-nil (taken s))
        (subst (Conserved (taken s' ++ buf)) (some-injective d) (settled_box-Conserved s' buf))
  turn-Conserved s buf (wrote (suc n)) again o e h d =
      subst (λ t. Conserved t o)
        (some_taken s (k.write s buf).0 buf (suc n) (laws.write-wrote s buf (suc n) e))
        (h (drop (suc n) buf) d)
  turn-Conserved s buf would_block again o e h d =
      let s' = (k.write s buf).0 in
      nothing_taken s s' buf o (laws.write-would_block s buf e)
        (subst (Conserved (taken s' ++ buf)) (some-injective d) (settled_box-Conserved s' buf))
  turn-Conserved s buf interrupted again o e h d =
      nothing_taken s (k.write s buf).0 buf o (laws.write-interrupted s buf e) (h buf d)
  turn-Conserved s buf broken again o e h d =
      let s' = (k.write s buf).0 in
      nothing_taken s s' buf o (laws.write-broken s buf e)
        (subst (Conserved (taken s' ++ buf)) (some-injective d) (closed_box-Conserved s' buf))

  write_loop-Conserved :
      (fuel : ℕ) (s : S) (buf : Text) (o : Outbox S)
      → write_loop k fuel s buf ≡ some o
      → Conserved (taken s ++ buf) o
  unfolding write_loop
  write_loop-Conserved zero s buf o d = cc
  write_loop-Conserved (suc fuel) s [] o d =
      subst (Conserved (taken s ++ [])) (some-injective d) (settled_box-Conserved s [])
  write_loop-Conserved (suc fuel) s (b ∷ buf) o d =
      let s' = (k.write s (b ∷ buf)).0 in
      turn-Conserved s (b ∷ buf) (k.write s (b ∷ buf)).1 (write_loop k fuel s') o refl
        (λ rest. write_loop-Conserved fuel s' rest o) d

  -- Frames are sent whole and in order: while the connection is open, what it has taken and what
  -- waits are together what it had taken, what waited, and the new frame; no more than a frame's
  -- length waits. When it is given up nothing waits, and it took a beginning of these bytes.
  pub send-Conserved :
      (fuel : ℕ) (o o' : Outbox S) (frame : Text)
      → o.is_open ≡ true
      → send k {E = Text} fuel o (ok frame) ≡ some o'
      → Conserved (taken o.wire ++ (o.out_buf ++ frame)) o'
  unfolding send flush
  send-Conserved fuel o o' frame is_open d =
      write_loop-Conserved fuel o.wire (o.out_buf ++ frame) o' (rw is_open at d)

  -- Enough fuel, when no write is interrupted.
  turn-some :
      (s : S) (buf : Text) (w : Written) (again : Text → Option (Outbox S))
      → (w ≡ interrupted → ⊥)
      → ((n : ℕ) → (o : Outbox S) × (again (drop (suc n) buf) ≡ some o))
      → (o : Outbox S) × (turn k s buf w again ≡ some o)
  unfolding turn
  turn-some s buf (wrote zero) again calm h = (settled_box k s buf, refl)
  turn-some s buf (wrote (suc n)) again calm h = h n
  turn-some s buf would_block again calm h = (settled_box k s buf, refl)
  turn-some s buf interrupted again calm h = absurd (calm refl)
  turn-some s buf broken again calm h = (closed_box k s, refl)

  write_loop-some :
      ((s : S) (buf : Text) → (k.write s buf).1 ≡ interrupted → ⊥)
      → (fuel : ℕ) (s : S) (buf : Text) → length buf < fuel
      → (o : Outbox S) × (write_loop k fuel s buf ≡ some o)
  unfolding write_loop
  write_loop-some calm zero s buf h = absurd (omega arith)
  write_loop-some calm (suc fuel) s [] h = (settled_box k s [], refl)
  write_loop-some calm (suc fuel) s (b ∷ buf) h =
      let s' = (k.write s (b ∷ buf)).0 in
      turn-some s' (b ∷ buf) (k.write s (b ∷ buf)).1 (write_loop k fuel s') (calm s (b ∷ buf))
        (λ n. write_loop-some calm fuel s' (drop n buf) (omega (arith, length-drop n buf)))

  -- The loop ends when no write is interrupted: one turn for each byte that waits is enough.
  pub flush-some :
      ((s : S) (buf : Text) → (k.write s buf).1 ≡ interrupted → ⊥)
      → (fuel : ℕ) (o : Outbox S) → length o.out_buf < fuel
      → (o' : Outbox S) × (flush k fuel o ≡ some o')
  unfolding flush
  flush-some calm fuel o h = elim (Bool-cases o.is_open) [
    | inl e ↦ rw e (write_loop-some calm fuel o.wire o.out_buf h)
    | inr e ↦ rw e (record { wire = o.wire; is_open = false; out_buf = [] }, refl)
  ]
