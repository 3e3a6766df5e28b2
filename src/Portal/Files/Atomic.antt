-- ===== src/Portal/Files/Atomic.antt =====
-- Replacing a file leaves it with its old or with its new content.
use weft_os.Base.{
  ◌≡◌, ◌≢◌, refl, ◌∙◌, ap, ℕ, List, [], ◌++◌, Option, none, some, Text, Result, ok, err, inl, inr,
  ◌⊎◌, Bool-cases, ltb, length,
}
use weft_os.Portal.{max_file, temporary_prefix, Response, Root}
use weft_os.Portal.Kernel.{Errno, as_directory, Kernel, Observation, Same, SameBut, Lawful}
use weft_os.Portal.Files.{
  abandon, after_rename, after_sync, after_write, after_create, mode_for, replace, open_beneath,
  split_last, too_large, write_under, write_in, write,
}

module _ {ℓ} {S Fd : Type ℓ} (k : Kernel S Fd) (errno_text : Errno → Text)
    (o : Observation S Fd) where
  abbrev bytes_of : S → Option Fd → Option Text
  bytes_of s none = none
  bytes_of s (some f) = some (o.bytes s f)

  -- What a name in a directory holds.
  abbrev pub content : S → Fd → Text → Option Text
  content s dir name = bytes_of s (o.entry s dir name)

  -- What a write of `b` as `name` may leave: on success the new content, on failure the old one,
  -- and every other name as it was.
  abbrev pub Replaced : Fd → Text → Text → Text → S → S × Result Response Response → Type 0
  Replaced dir temporary name b s (s', ok r) =
      (content s' dir name ≡ some b)
      × ((n : Text) → n ≢ temporary → n ≢ name → content s' dir n ≡ content s dir n)
  Replaced dir temporary name b s (s', err r) =
      (content s' dir name ≡ content s dir name)
      × ((n : Text) → n ≢ temporary → n ≢ name → content s' dir n ≡ content s dir n)

  bytes_of-same :
      (f : Fd) (s s' : S) (e : Option Fd)
      → ((g : Fd) → g ≢ f → o.bytes s' g ≡ o.bytes s g)
      → e ≢ some f
      → bytes_of s' e ≡ bytes_of s e
  bytes_of-same f s s' none keeps other = refl
  bytes_of-same f s s' (some g) keeps other = rw (keeps g (λ h. other (ap some h))) refl

  bytes-Same :
      (s s' : S)
      → ((g : Fd) → o.bytes s' g ≡ o.bytes s g)
      → (e : Option Fd) → bytes_of s' e ≡ bytes_of s e
  bytes-Same s s' keeps none = refl
  bytes-Same s s' keeps (some g) = rw (keeps g) refl

  content-same :
      (f dir : Fd) (n : Text) (s s' : S)
      → o.entry s' dir n ≡ o.entry s dir n
      → ((g : Fd) → g ≢ f → o.bytes s' g ≡ o.bytes s g)
      → o.entry s dir n ≢ some f
      → content s' dir n ≡ content s dir n
  content-same f dir n s s' e keeps other =
      rw e (bytes_of-same f s s' (o.entry s dir n) keeps other)

  module _ (laws : Lawful k o) (dir : Fd) (temporary name b : Text) (apart : name ≢ temporary)
      (s : S) where
    -- The new file `f` is there under the temporary name only, and nothing else has changed.
    record Pending (f : Fd) (t : S) : Type ℓ where
      pub is_there : o.entry t dir temporary ≡ some f
      pub entries : (n : Text) → n ≢ temporary → o.entry t dir n ≡ o.entry s dir n
      pub others : (g : Fd) → g ≢ f → o.bytes t g ≡ o.bytes s g
      pub is_new : (n : Text) → o.entry s dir n ≢ some f

    abandon-Replaced :
        (f : Fd) (t : S) (e : Errno)
        → Pending f t
        → Replaced dir temporary name b s (abandon k errno_text dir temporary t e)
    unfolding abandon
    abandon-Replaced f t e p =
        let gone = laws.unlinkat-SameEntriesBut t dir temporary in
        let keep : ((n : Text)
            → n ≢ temporary
            → content (k.unlinkat t dir temporary) dir n ≡ content s dir n) =
          λ n h.
            content-same f dir n s (k.unlinkat t dir temporary) (gone.0 n h ∙ p.entries n h)
              (λ g other. gone.1 g ∙ p.others g other) (p.is_new n) in
        (keep name apart, λ n h h'. keep n h)

    Pending-Same : (f : Fd) (t u : S) → Pending f t → Same k o t u → Pending f u
    Pending-Same f t u p same = record {
      is_there = same.0 dir temporary ∙ p.is_there;
      entries = λ n h. same.0 dir n ∙ p.entries n h;
      others = λ g other. same.1 g ∙ p.others g other;
      is_new = p.is_new;
    }

    Pending-SameBut : (f : Fd) (t u : S) → Pending f t → SameBut k o f t u → Pending f u
    Pending-SameBut f t u p same = record {
      is_there = same.0 dir temporary ∙ p.is_there;
      entries = λ n h. same.0 dir n ∙ p.entries n h;
      others = λ g other. same.1 g other ∙ p.others g other;
      is_new = p.is_new;
    }

    -- The content is written, and the name still to be given.
    after_rename-Replaced :
        (f : Fd) (t : S) (r : S × Result Errno (Unit {0}))
        → k.renameat t dir temporary name ≡ r
        → Pending f t
        → o.bytes t f ≡ b
        → Replaced dir temporary name b s (after_rename k errno_text dir temporary r)
    unfolding after_rename
    after_rename-Replaced f t (u, ok x) h p full =
        let done_ = rw h at (laws.renameat-ok t dir temporary name (ap (λ z. z.1) h)) in
        let kept = laws.fsync-Same u dir in
        let there : o.entry (k.fsync u dir) dir name ≡ some f =
          kept.0 dir name ∙ done_.0 ∙ p.is_there in
        (
          rw there (ap some (kept.1 f ∙ done_.2 f ∙ full)),
          λ n h h'.
              content-same f dir n s (k.fsync u dir) (kept.0 dir n ∙ done_.1 n h h' ∙ p.entries n h)
                (λ g other. kept.1 g ∙ done_.2 g ∙ p.others g other) (p.is_new n),
        )
    after_rename-Replaced f t (u, err e) h p full =
        let same = rw h at (laws.renameat-err t dir temporary name e (ap (λ z. z.1) h)) in
        abandon-Replaced f u e (Pending-Same f t u p same)

    after_sync-Replaced :
        (f : Fd) (t : S) (r : S × Result Errno (Unit {0}))
        → k.sync_all t f ≡ r
        → Pending f t
        → o.bytes t f ≡ b
        → Replaced dir temporary name b s (after_sync k errno_text dir temporary name r)
    unfolding after_sync
    after_sync-Replaced f t (u, ok x) h p full =
        let same = rw h at (laws.sync_all-Same t f) in
        after_rename-Replaced f u (k.renameat u dir temporary name) refl (Pending-Same f t u p same)
          (same.1 f ∙ full)
    after_sync-Replaced f t (u, err e) h p full =
        abandon-Replaced f u e (Pending-Same f t u p (rw h at (laws.sync_all-Same t f)))

    after_write-Replaced :
        (f : Fd) (t : S) (r : S × Result Errno (Unit {0}))
        → k.write_all t f b ≡ r
        → Pending f t
        → o.bytes t f ≡ []
        → Replaced dir temporary name b s (after_write k errno_text dir temporary name f r)
    unfolding after_write
    after_write-Replaced f t (u, ok x) h p fresh =
        let same = rw h at (laws.write_all-SameBut t f b) in
        let full = rw h at (laws.write_all-ok t f b (ap (λ z. z.1) h)) in
        after_sync-Replaced f u (k.sync_all u f) refl (Pending-SameBut f t u p same)
          (full ∙ ap (λ c. c ++ b) fresh)
    after_write-Replaced f t (u, err e) h p fresh =
        abandon-Replaced f u e (Pending-SameBut f t u p (rw h at (laws.write_all-SameBut t f b)))

    after_create-Replaced :
        (mode : ℕ) (r : S × Result Errno Fd)
        → k.create_new s dir temporary ≡ r
        → Replaced dir temporary name b s (after_create k errno_text dir temporary name mode b r)
    unfolding after_create
    after_create-Replaced mode (t, err e) h =
        let same = rw h at (laws.create_new-err s dir temporary e (ap (λ z. z.1) h)) in
        let keep : ((n : Text) → content t dir n ≡ content s dir n) =
          λ n. rw (same.0 dir n) (bytes-Same s t same.1 (o.entry s dir n)) in
        (keep name, λ n h h'. keep n)
    after_create-Replaced mode (t, ok f) h =
        let made = rw h at (laws.create_new-entry s dir temporary f (ap (λ z. z.1) h)) in
        let blank = rw h at (laws.create_new-bytes s dir temporary f (ap (λ z. z.1) h)) in
        let moded = laws.fchmod-Same t f mode in
        let start : Pending f t = record {
          is_there = made.0;
          entries = made.1;
          others = blank.1;
          is_new = made.2;
        } in
        after_write-Replaced f (k.fchmod t f mode) (k.write_all (k.fchmod t f mode) f b) refl
          (Pending-Same f t (k.fchmod t f mode) start moded) (moded.1 f ∙ blank.0)

  -- When the calls behave as documented, replacing a file as `name` leaves that name, on success,
  -- with the new content and, on any failure, with the content it had, and leaves every other name
  -- in the directory but the temporary one with its content.
  pub replace-Replaced :
      (laws : Lawful k o) (s : S) (dir : Fd) (temporary name b : Text)
      → name ≢ temporary
      → Replaced dir temporary name b s (replace k errno_text s dir temporary name b)
  unfolding replace
  replace-Replaced laws s dir temporary name b apart =
      after_create-Replaced laws dir temporary name b apart s
        (mode_for k errno_text (k.mode_of s dir name)) (k.create_new s dir temporary) refl

  -- A write as the name `place` ends in: it changes nothing and is refused, or the directory above
  -- the name was opened, and `Replaced` holds there.
  abbrev pub Wrote :
      (ℕ → Text)
      → S × ℕ
      → Root Fd
      → Option (List Text × Text)
      → Text
      → (S × ℕ) × Result Response Response
      → Type ℓ
  Wrote stamp st root place b z =
      ((z.0 ≡ st) × ((r : Response) × (z.1 ≡ err r)))
      ⊎ ((above : List Text) × (name : Text) × (parent : Fd) × (place ≡ some (above, name))
          × (open_beneath k errno_text st.0 root above as_directory ≡ ok parent)
          × Replaced parent (temporary_prefix ++ stamp st.1) name b st.0 (z.0.0, z.1))

  module _ (laws : Lawful k o) (stamp : ℕ → Text) (st : S × ℕ) (root : Root Fd) (b : Text) where
    write_under-Wrote :
        (above : List Text) (name : Text) (r : Result Response Fd)
        → open_beneath k errno_text st.0 root above as_directory ≡ r
        → name ≢ temporary_prefix ++ stamp st.1
        → Wrote stamp st root (some (above, name)) b (write_under k errno_text stamp st b name r)
    unfolding write_under
    write_under-Wrote above name (err e) h apart = inl (refl, (e, refl))
    write_under-Wrote above name (ok parent) h apart = inr (
      above,
      name,
      parent,
      refl,
      h,
      replace-Replaced laws st.0 parent (temporary_prefix ++ stamp st.1) name b apart,
    )

    write_in-Wrote :
        (place : Option (List Text × Text))
        → ((above : List Text) (name : Text)
            → place ≡ some (above, name)
            → name ≢ temporary_prefix ++ stamp st.1)
        → Wrote stamp st root place b (write_in k errno_text stamp st root b place)
    unfolding write_in
    write_in-Wrote none apart = inl (refl, (_, refl))
    write_in-Wrote (some (above, name)) apart =
        write_under-Wrote above name (open_beneath k errno_text st.0 root above as_directory) refl
          (apart above name refl)

    -- When the calls behave as documented and the name is not the temporary one, a write either
    -- changes nothing and is refused, or it opened the directory above the name and left the name
    -- with the new content on success and with its old content on failure, and every other name
    -- there but the temporary one as it was.
    pub write-Wrote :
        (names : List Text)
        → ((above : List Text) (name : Text)
            → split_last names ≡ some (above, name)
            → name ≢ temporary_prefix ++ stamp st.1)
        → Wrote stamp st root (split_last names) b (write k errno_text stamp st root names b)
    unfolding write
    write-Wrote names apart = elim (Bool-cases (ltb max_file (length b))) [
      | inl large ↦ rw large (inl (refl, (too_large, refl)))
      | inr fits ↦ rw fits (write_in-Wrote (split_last names) apart)
    ]
