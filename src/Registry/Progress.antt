-- ===== src/Registry/Progress.antt =====
-- A session only moves forward: starting, running, stopping, stopped, forgotten.
use weft_os.Base.{
  ℕ, ◌+◌, ◌^◌, ◌≤◌, ◌<◌, ◌≡◌, refl, Bool, true, false, ◌||◌, Option, none, some, Text, arith, ◌==◌,
  if◌then◌else◌, Bool-cases, ==_iff, inl, inr, subst,
}
use weft_os.Base.Map.{contains, lookup, remove, lookup-remove, map_option}
use weft_os.Channel.{Channels}
use weft_os.Registry.{
  AppStateKind, starting, running, stopping, stopped, not_found, Stop, SessionEntry, is_stopping,
  Registry, launch, launch_app, state, state_of, set_state, terminate, queue, settled,
  stop_unstarted, ready, begin_settle, pruned_ids,
}
use weft_os.Registry.Sessions.{live_at, IsValid, lookup-launch}
use weft_os.Registry.Prune.{lookup-prune}
use weft_os.Registry.Lifecycle.{terminate_cases, lookup-set_state}

-- No entry holds `not_found`: it is what `state` reports for an id that is not registered.
abbrev pub rank : AppStateKind → ℕ
rank starting = 0
rank running = 1
rank stopping = 2
rank stopped = 3
rank not_found = 0

-- What one id may become: no session comes from nothing, and one that stays keeps its app and its
-- token and does not go back.
abbrev pub Forward : Option SessionEntry → Option SessionEntry → Type 0
Forward none none = Unit
Forward none (some e') = ⊥
Forward (some e) none = Unit
Forward (some e) (some e') =
    (rank e.state ≤ rank e'.state) × (e.app_id ≡ e'.app_id) × (e.bridge_token ≡ e'.bridge_token)

pub Forward-refl : (o : Option SessionEntry) → Forward o o
Forward-refl none = tt
Forward-refl (some e) = (omega arith, refl, refl)

pub Forward-trans : (o p q : Option SessionEntry) → Forward o p → Forward p q → Forward o q
Forward-trans none none none h k = tt
Forward-trans none none (some e) h k = k
Forward-trans none (some e) q h k = absurd h
Forward-trans (some e) p none h k = tt
Forward-trans (some e) none (some f) h k = absurd k
Forward-trans (some e) (some f) (some g) h k = (omega arith, cc, cc)

-- The state to which a session is set is not behind the one that it has.
abbrev Allows : Option SessionEntry → AppStateKind → Type 0
Allows none s = Unit
Allows (some e) s = rank e.state ≤ rank s

Forward-set :
    (o : Option SessionEntry) (s : AppStateKind)
    → Allows o s
    → Forward o (map_option (λ (e : SessionEntry). record e { state = s }) o)
Forward-set none s h = tt
Forward-set (some e) s h = (h, refl, refl)

-- `is_stopped` false and not stopping: at most running
Allows-running :
    (o : Option SessionEntry)
    → live_at o ≡ true
    → is_stopping (state_of o) ≡ false
    → Allows o running
unfolding state_of
Allows-running none h k = cc
Allows-running (some e) h k = ground arith

Allows-stopping : (o : Option SessionEntry) → live_at o ≡ true → Allows o stopping
Allows-stopping none h = cc
Allows-stopping (some e) h = ground arith

Allows-stopped : (o : Option SessionEntry) → Allows o stopped
Allows-stopped none = tt
Allows-stopped (some e) = ground arith

Forward-gone : (b : Bool) (o : Option SessionEntry) → Forward o (if b then none else o)
Forward-gone true none = tt
Forward-gone true (some e) = tt
Forward-gone false o = Forward-refl o

module _ (c : Channels Stop) (d : Channels Text) (r : Registry c d) where
  Forward-set_state :
      (id : ℕ) (s : AppStateKind)
      → Allows (lookup id r.sessions) s
      → (k : ℕ) → Forward (lookup k r.sessions) (lookup k (set_state c d r id s).sessions)
  Forward-set_state id s h k = rw (lookup-set_state c d r id s k) (elim (Bool-cases (id == k)) [
    | inl e ↦ rw e (
        Forward-set (lookup k r.sessions) s
          (subst (λ j. Allows (lookup j r.sessions) s) ((==_iff id k).0 e) h))
    | inr e ↦ rw e (Forward-refl (lookup k r.sessions))
  ])

  Forward-forget : (id k : ℕ) → Forward (lookup k r.sessions) (lookup k (remove id r.sessions))
  Forward-forget id k =
      rw (lookup-remove k id r.sessions) (Forward-gone (id == k) (lookup k r.sessions))

  sessions-launch_app :
      (app : Text) (token : Option Text)
      → (launch_app c d r app token).0.sessions ≡ (launch c d r app token).0.sessions
  unfolding launch_app
  sessions-launch_app app token = refl

  pub Forward-launch :
      (app : Text) (token : Option Text)
      → r.next_id + 1 < 2 ^ 64
      → (k : ℕ) → k ≤ r.next_id
      → Forward (lookup k r.sessions) (lookup k (launch_app c d r app token).0.sessions)
  Forward-launch app token h k given =
      let other : (r.next_id + 1 == k) ≡ false = ground arith in
      rw
        (
          sessions-launch_app app token,
          lookup-launch c d r app token k h,
          other,
          lookup-prune r.sessions k,
        )
        (Forward-gone (contains (pruned_ids r.sessions) k) (lookup k r.sessions))

  not_stopping :
      (id : ℕ) (asked : Bool)
      → (is_stopping (state c d r id) || asked) ≡ false
      → is_stopping (state_of (lookup id r.sessions)) ≡ false
  unfolding state
  not_stopping id asked h = ground arith

  pub Forward-ready :
      (id : ℕ) (asked : Bool)
      → live_at (lookup id r.sessions) ≡ true
      → (k : ℕ) → Forward (lookup k r.sessions) (lookup k (ready c d r id asked).0.sessions)
  unfolding ready
  Forward-ready id asked live k = elim (Bool-cases (is_stopping (state c d r id) || asked)) [
    | inl e ↦ rw e (Forward-refl (lookup k r.sessions))
    | inr e ↦ rw e (
        Forward-set_state id running
          (Allows-running (lookup id r.sessions) live (not_stopping id asked e)) k)
  ]

  pub Forward-begin_settle :
      (id : ℕ)
      → live_at (lookup id r.sessions) ≡ true
      → (k : ℕ) → Forward (lookup k r.sessions) (lookup k (begin_settle c d r id).sessions)
  unfolding begin_settle
  Forward-begin_settle id live k = elim (Bool-cases (is_stopping (state c d r id))) [
    | inl e ↦ rw e (Forward-refl (lookup k r.sessions))
    | inr e ↦ rw e (Forward-set_state id stopping (Allows-stopping (lookup id r.sessions) live) k)
  ]

  pub Forward-settled :
      (id k : ℕ) → Forward (lookup k r.sessions) (lookup k (settled c d r id).sessions)
  unfolding settled
  Forward-settled id k =
      unfold set_state in Forward-set_state id stopped (Allows-stopped (lookup id r.sessions)) k

  pub Forward-stop_unstarted :
      (id k : ℕ) → Forward (lookup k r.sessions) (lookup k (stop_unstarted c d r id).sessions)
  unfolding stop_unstarted
  Forward-stop_unstarted id k =
      unfold set_state in Forward-set_state id stopped (Allows-stopped (lookup id r.sessions)) k

  pub next_id-terminate :
      (id : ℕ) (forced : Bool) → (terminate c d r id forced).0.next_id ≡ r.next_id
  next_id-terminate id forced =
      terminate_cases c d r id (λ s. s.next_id ≡ r.next_id) forced refl
        (λ s asked. unfold queue in refl) (λ s asked. unfold queue set_state in refl) (λ idle. refl)

  pub Forward-terminate :
      (id : ℕ) (forced : Bool)
      → IsValid c d r
      → (k : ℕ) → Forward (lookup k r.sessions) (lookup k (terminate c d r id forced).0.sessions)
  Forward-terminate id forced v k =
      terminate_cases c d r id (λ s. Forward (lookup k r.sessions) (lookup k s.sessions)) forced
        (Forward-refl (lookup k r.sessions))
        (λ s asked. unfold queue in Forward-refl (lookup k r.sessions))
        (λ s asked.
          unfold queue set_state in
          Forward-set_state id stopping
            (Allows-stopping (lookup id r.sessions) (v.stoppable id s asked)) k)
        (λ idle. Forward-forget id k)

-- Every id that was given out moves forward, and no id is given out twice.
pub record Later (c : Channels Stop) (d : Channels Text) (r s : Registry c d) : Type 0 where
  pub issued : r.next_id ≤ s.next_id
  pub forward : (k : ℕ) → k ≤ r.next_id → Forward (lookup k r.sessions) (lookup k s.sessions)
