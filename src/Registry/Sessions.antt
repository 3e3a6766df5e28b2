-- ===== src/Registry/Sessions.antt =====
-- The session table under the registry's operations.
use native.Mathlib.Nat.{le_trans}
use weft_os.Base.{
  ℕ, ◌+◌, ◌%◌, ◌^◌, ◌≤◌, ◌<◌, ◌≡◌, ◌≢◌, refl, Bool, true, false, not, [], ◌∷◌, Option, none, some,
  Text, arith, ◌==◌, if◌then◌else◌, length, Option-cases, inl, inr,
}
use weft_os.Base.Map.{
  Map, lookup, insert, NodupKeys, lookup-insert, lookup-remove_all, insert-NodupKeys,
  remove_all-NodupKeys,
}
use weft_os.Channel.{Channels}
use weft_os.Registry.{
  starting, Stop, SessionEntry, is_stopped, stopped_ids, pruned_ids, prune, kept_stopped, Registry,
  launch,
}
use weft_os.Registry.Ids.{stopped_at}
use weft_os.Registry.Prune.{lookup-prune_live, length-stopped_ids-prune}

prune-NodupKeys : (m : Map SessionEntry) → NodupKeys m → NodupKeys (prune m)
unfolding prune
prune-NodupKeys m u = remove_all-NodupKeys (pruned_ids m) m u

pub prune_subset : (m : Map SessionEntry) (k : ℕ) → lookup k (prune m) ≢ none → lookup k m ≢ none
unfolding prune
prune_subset m k h = ground (arith, lookup-remove_all k (pruned_ids m) m)

-- A live session: registered, and not stopped.
abbrev pub live_at : Option SessionEntry → Bool
live_at none = false
live_at (some e) = not (is_stopped e.state)

stopped_not_live : (o : Option SessionEntry) → live_at o ≡ true → stopped_at o ≡ false
stopped_not_live o h = ground arith

stopped_ids-insert :
    (k : ℕ) (e : SessionEntry) (m : Map SessionEntry)
    → is_stopped e.state ≡ false
    → length (stopped_ids (insert k e m)) ≤ length (stopped_ids m)
unfolding stopped_ids insert
stopped_ids-insert k e [] h = ground arith
stopped_ids-insert k e ((j, w) ∷ m) h = ground (arith, stopped_ids-insert k e m h)

module _ (c : Channels Stop) (d : Channels Text) where
  -- Every session has an id that was given out, and whoever can be asked to stop is live.
  pub record IsValid (r : Registry c d) : Type 0 where
    pub nodup : NodupKeys r.sessions
    pub given : (k : ℕ) → lookup k r.sessions ≢ none → k ≤ r.next_id
    pub stoppable :
        (k : ℕ) (s : c.Sender)
        → lookup k r.abort_senders ≡ some s
        → live_at (lookup k r.sessions) ≡ true

  -- no session has an id above the last one given out
  pub fresh_id :
      (r : Registry c d) → IsValid r → (n : ℕ) → r.next_id < n → lookup n r.sessions ≡ none
  fresh_id r v n h = elim (Option-cases (lookup n r.sessions)) [
    | inl e ↦ e
    | inr (entry, e) ↦ absurd (omega (arith, v.given n (λ gone. cc)))
  ]

  pub next_id-launch :
      (r : Registry c d) (app : Text) (token : Option Text)
      → r.next_id + 1 < 2 ^ 64
      → (launch c d r app token).1 ≡ r.next_id + 1
  unfolding launch
  next_id-launch r app token h = omega arith

  pub lookup-launch :
      (r : Registry c d) (app : Text) (token : Option Text) (k : ℕ)
      → r.next_id + 1 < 2 ^ 64
      → lookup k (launch c d r app token).0.sessions ≡ (
          if r.next_id + 1 == k
          then some (record { app_id = app; state = starting; bridge_token = token })
          else lookup k (prune r.sessions))
  unfolding launch
  lookup-launch r app token k h =
      let e : (r.next_id + 1) % 2 ^ 64 ≡ r.next_id + 1 = omega arith in
      rw e (lookup-insert k (r.next_id + 1) _ (prune r.sessions))

  length-stopped_ids-launch :
      (r : Registry c d) (app : Text) (token : Option Text)
      → length (stopped_ids (launch c d r app token).0.sessions) ≤ kept_stopped
  unfolding launch
  length-stopped_ids-launch r app token =
      le_trans
        (stopped_ids-insert ((r.next_id + 1) % 2 ^ 64)
          (record { app_id = app; state = starting; bridge_token = token }) (prune r.sessions) refl)
        (length-stopped_ids-prune r.sessions)

  abort_senders-launch :
      (r : Registry c d) (app : Text) (token : Option Text)
      → (launch c d r app token).0.abort_senders ≡ r.abort_senders
  unfolding launch
  abort_senders-launch r app token = refl

  sessions-launch-NodupKeys :
      (r : Registry c d) (app : Text) (token : Option Text)
      → NodupKeys r.sessions
      → NodupKeys (launch c d r app token).0.sessions
  unfolding launch
  sessions-launch-NodupKeys r app token u =
      insert-NodupKeys ((r.next_id + 1) % 2 ^ 64) _ (prune r.sessions)
        (prune-NodupKeys r.sessions u)

  pub next_id-registry :
      (r : Registry c d) (app : Text) (token : Option Text)
      → (launch c d r app token).0.next_id ≡ (launch c d r app token).1
  unfolding launch
  next_id-registry r app token = refl

  -- A launch registers the app, starting and with its token, under an id that no session had; every
  -- other session that has not stopped is as it was; and at most `KEPT_STOPPED` stopped ones stay.
  pub launch_registers :
      (r : Registry c d) (app : Text) (token : Option Text)
      → IsValid r
      → r.next_id + 1 < 2 ^ 64
      → let (r', id) = launch c d r app token in
        (lookup id r.sessions ≡ none)
        × (lookup id r'.sessions
            ≡ some (record { app_id = app; state = starting; bridge_token = token }))
        × ((k : ℕ)
            → k ≢ id
            → live_at (lookup k r.sessions) ≡ true
            → lookup k r'.sessions ≡ lookup k r.sessions)
        × (length (stopped_ids r'.sessions) ≤ kept_stopped)
        × (r'.abort_senders ≡ r.abort_senders)
  launch_registers r app token v h = rw (next_id-launch r app token h) (
    fresh_id r v (r.next_id + 1) (omega arith),
    ground (arith, lookup-launch r app token (r.next_id + 1) h),
    λ k ne live. ground (
      arith,
      lookup-launch r app token k h,
      lookup-prune_live r.sessions k v.nodup,
      stopped_not_live (lookup k r.sessions),
    ),
    length-stopped_ids-launch r app token,
    abort_senders-launch r app token,
  )

  pub launch-IsValid :
      (r : Registry c d) (app : Text) (token : Option Text)
      → IsValid r
      → r.next_id + 1 < 2 ^ 64
      → IsValid (launch c d r app token).0
  launch-IsValid r app token v h = record {
    nodup = sessions-launch-NodupKeys r app token v.nodup;
    given = λ k known. ground (
      arith,
      next_id-registry r app token,
      next_id-launch r app token h,
      lookup-launch r app token k h,
      prune_subset r.sessions k,
      v.given k,
    );
    stoppable = λ k s asked. ground (
      arith,
      abort_senders-launch r app token,
      lookup-launch r app token k h,
      v.stoppable k s,
      lookup-prune_live r.sessions k v.nodup,
      stopped_not_live (lookup k r.sessions),
    );
  }
