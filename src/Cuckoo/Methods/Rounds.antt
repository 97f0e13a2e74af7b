-- ===== src/Cuckoo/Methods/Rounds.antt =====
-- The public `insert` of Cuckoo.hpp, run by one thread.
use concurrent_computing.Prelude.{
  ℕ, suc, ◌<◌, ◌≡◌, ◌≢◌, refl, sym, ap, ◌∙◌, arith, Bool, true, false, ◌||◌, not, Option, none,
  some, List, [], ◌∷◌, ◌==◌, Bool-cases, ==→eq, inl, inr,
}
use concurrent_computing.Cuckoo.Table.{width}
use concurrent_computing.Cuckoo.State.{Cuckoo, pure, global_unlock, hash1, hash2, ◌>>=◌, ◌>>◌}
use concurrent_computing.Cuckoo.Locks.Runs.{holding, unlock_two_run}
use concurrent_computing.Cuckoo.Search.{Side, left, right, table_of, home}
use concurrent_computing.Cuckoo.Insert.{
  Result, needs_resize, retry, duplicate, success, element, put_at,
}
use concurrent_computing.Cuckoo.Resize.{resize}
use concurrent_computing.Cuckoo.Ops.{insert_round}
use concurrent_computing.Cuckoo.Contents.{member}
use concurrent_computing.Cuckoo.Placement.{IsValid, IsValid-congr}
use concurrent_computing.Cuckoo.Edits.{put-IsValid, member-put}
use concurrent_computing.Cuckoo.Methods.{Idle, holding-Idle, reading, read_lock_run}
use concurrent_computing.Cuckoo.Methods.Displace.{Keeps, Grants}
use concurrent_computing.Cuckoo.Methods.Insertion.{Granted, insert_at-Grants}

-- No spin lock, and `n` readers of the global lock.
abbrev closed : Cuckoo → ℕ → Cuckoo
closed x n = record x { held = λ i. false; readers = n }

table_of-closed : (x : Cuckoo) (n : ℕ) (s : Side) → table_of (closed x n) s ≡ table_of x s
table_of-closed x n left = refl
table_of-closed x n right = refl

closed-IsValid : (x : Cuckoo) (n : ℕ) → IsValid x → IsValid (closed x n)
closed-IsValid x n valid = IsValid-congr x (closed x n) refl (table_of-closed x n) valid

member-closed : (x : Cuckoo) (n w : ℕ) → member (closed x n) w ≡ member x w
unfolding member
member-closed x n w = refl

unlock_closed :
    (x : Cuckoo) (n : ℕ)
    → x.writer ≡ false
    → x.readers ≡ suc n
    → global_unlock (holding x []) ≡ some (tt, closed x n)
unfolding global_unlock
unlock_closed x n h e = ground arith

table_of-reading : (c : Cuckoo) (s : Side) → table_of (reading c) s ≡ table_of c s
table_of-reading c left = refl
table_of-reading c right = refl

-- What `insert` leaves behind when it is done.
pub record Added (c : Cuckoo) (v : ℕ) (d : Cuckoo) : Type 0 where
  pub idle : Idle d
  pub valid : IsValid d
  pub contents : (w : ℕ) → w ≢ 0 → member d w ≡ (member c w || (w == v))

-- One round of `insert` ends in one of three ways.
pub data Round (c : Cuckoo) (v : ℕ) (run : Option (Option Bool × Cuckoo)) : Type 0 where
  done : (d : Cuckoo) → run ≡ some (some (not (member c v)), d) → Added c v d → Round c v run
  again : (x : Cuckoo) → run ≡ some (none, x) → Idle x → Keeps c x → Round c v run
  resizes : (x : Cuckoo) → run ≡ (resize >> pure none) x → Idle x → Keeps c x → Round c v run

put_at-holding :
    (x : Cuckoo) (s : Side) (i j v : ℕ) (is : List ℕ)
    → put_at s i j v (holding x is) ≡ holding (put_at s i j v x) is
unfolding put_at
put_at-holding x left i j v is = refl
put_at-holding x right i j v is = refl

put_at-frame :
    (x : Cuckoo) (s : Side) (i j v : ℕ)
    → ((put_at s i j v x).writer ≡ x.writer) × ((put_at s i j v x).readers ≡ x.readers)
unfolding put_at
put_at-frame x left i j v = (refl, refl)
put_at-frame x right i j v = (refl, refl)

pub member-reading : (c : Cuckoo) (w : ℕ) → member (reading c) w ≡ member c w
unfolding member
member-reading c w = refl

module _ (c : Cuckoo) (v : ℕ) (idle : Idle c) (some_value : v ≢ 0) where
  module _ {r : Result} {d : Cuckoo} (g : Grants (reading c) v r d) where
    pub base_unlocked : g.base.writer ≡ false
    base_unlocked = g.keeps.writer ∙ idle.unlocked

    closed-Idle : Idle (closed g.base c.readers)
    closed-Idle = record { free = λ i. refl; unlocked = base_unlocked }

    closed-contents : (w : ℕ) → w ≢ 0 → member (closed g.base c.readers) w ≡ member c w
    closed-contents w h =
        member-closed g.base c.readers w ∙ g.keeps.contents w h ∙ member-reading c w

    closed-Keeps : Keeps c (closed g.base c.readers)
    closed-Keeps = record {
      buckets = g.keeps.buckets;
      readers = refl;
      writer = g.keeps.writer;
      valid = closed-IsValid g.base c.readers g.keeps.valid;
      contents = closed-contents;
    }

  present_already : member c v ≡ true → (w : ℕ) → member c w ≡ (member c w || (w == v))
  present_already e w = elim (Bool-cases (w == v)) [
    | inl same ↦ let e' : member c w ≡ true = rw (==→eq w v same) e in rw e'
    | inr differs ↦ rw differs (ground arith)
  ]

  stored :
      (x : Cuckoo) (s : Side) (j : ℕ)
      → Keeps (reading c) x
      → x.writer ≡ false
      → j < width
      → element x s (home x.buckets s v) j ≡ 0
      → member c v ≡ false
      → Added c v (closed (put_at s (home x.buckets s v) j v x) c.readers)
  stored x s j k unlocked lt vacant absent =
      let y = put_at s (home x.buckets s v) j v x in
      let frame = put_at-frame x s (home x.buckets s v) j v in
      let fresh : member x v ≡ false = k.contents v some_value ∙ member-reading c v ∙ absent in
      record {
        idle = record { free = λ i. refl; unlocked = frame.0 ∙ unlocked };
        valid = closed-IsValid y c.readers (put-IsValid x s j v k.valid lt vacant fresh some_value);
        contents = λ w h.
            member-closed y c.readers w
            ∙ member-put x s j v k.valid lt vacant fresh w h
            ∙ ap (λ (b : Bool). b || (w == v)) (k.contents w h ∙ member-reading c w);
      }

  -- A round that ends the loop.
  pub record Done (run : Option (Option Bool × Cuckoo)) : Type 0 where
    pub final : Cuckoo
    pub ends : run ≡ some (some (not (member c v)), final)
    pub added : Added c v final

  pub ended_duplicate :
      Granted (reading c) v duplicate
      → Done (insert_round v (hash1 c.buckets v) (hash2 c.buckets v) (holding c []))
  unfolding insert_round
  ended_duplicate g =
      let base = g.grants.base in
      let e = sym (member-reading c v) ∙ g.answer in
      record {
        final = closed base c.readers;
        ends = rw (
          read_lock_run (holding c []) idle.unlocked,
          ◌>>=◌,
          g.run,
          g.grants.state,
          unlock_closed base c.readers (base_unlocked g.grants) g.grants.keeps.readers,
          e,
        );
        added = record {
          idle = closed-Idle g.grants;
          valid = closed-IsValid base c.readers g.grants.keeps.valid;
          contents = λ w h. closed-contents g.grants w h ∙ present_already e w;
        };
      }

  pub ended_success :
      (s : Side) (i j : ℕ)
      → Granted (reading c) v (success s i j)
      → Done (insert_round v (hash1 c.buckets v) (hash2 c.buckets v) (holding c []))
  unfolding insert_round
  ended_success s i j g =
      let x = g.grants.base in
      let y = put_at s i j v x in
      let frame = put_at-frame x s i j v in
      let e = sym (member-reading c v) ∙ g.answer in
      let vacancy = g.grants.vacancy in
      record {
        final = closed y c.readers;
        ends = rw (
          read_lock_run (holding c []) idle.unlocked,
          ◌>>=◌,
          g.run,
          g.grants.state,
          put_at-holding x s i j v (hash1 c.buckets v ∷ hash2 c.buckets v ∷ []),
          unlock_two_run y (hash1 c.buckets v) (hash2 c.buckets v),
          unlock_closed y c.readers (frame.0 ∙ base_unlocked g.grants)
              (frame.1 ∙ g.grants.keeps.readers),
          e,
        );
        added = rw vacancy.0 (
            stored x s j g.grants.keeps (base_unlocked g.grants) vacancy.1
              (rw vacancy.0 at vacancy.2) e);
      }

  concluded : {run : Option (Option Bool × Cuckoo)} → Done run → Round c v run
  concluded d = done d.final d.ends d.added

  conclude :
      (r : Result)
      → Granted (reading c) v r
      → Round c v (insert_round v (hash1 c.buckets v) (hash2 c.buckets v) (holding c []))
  unfolding insert_round
  conclude duplicate g = concluded (ended_duplicate g)
  conclude (success s i j) g = concluded (ended_success s i j g)
  conclude retry g =
      let base = g.grants.base in
      again (closed base c.readers)
        (rw (
          read_lock_run (holding c []) idle.unlocked,
          ◌>>=◌,
          g.run,
          g.grants.state,
          unlock_closed base c.readers (base_unlocked g.grants) g.grants.keeps.readers,
        ))
        (closed-Idle g.grants) (closed-Keeps g.grants)
  conclude needs_resize g =
      let base = g.grants.base in
      resizes (closed base c.readers)
        (rw (
          read_lock_run (holding c []) idle.unlocked,
          ◌>>=◌,
          g.run,
          g.grants.state,
          unlock_closed base c.readers (base_unlocked g.grants) g.grants.keeps.readers,
        ))
        (closed-Idle g.grants) (closed-Keeps g.grants)

  pub reading-IsValid : IsValid c → IsValid (reading c)
  reading-IsValid valid = IsValid-congr c (reading c) refl (table_of-reading c) valid

  run-Round :
      IsValid c → Round c v (insert_round v (hash1 c.buckets v) (hash2 c.buckets v) (holding c []))
  run-Round valid =
      let (r, granted) = insert_at-Grants (reading c) v some_value (reading-IsValid valid) in
      conclude r granted

  -- From a well-formed set in which no lock is held, and with a value other than 0, a round of
  -- `insert` returns or calls `resize` on the same set. When it returns an answer, that is whether
  -- the value was new, and the set has the value and what it had before; when it retries, the set
  -- is the same. No lock is held then, and the set is well formed.
  pub insert_round-Round :
      IsValid c → Round c v (insert_round v (hash1 c.buckets v) (hash2 c.buckets v) c)
  insert_round-Round valid = rw (holding-Idle c idle) at (run-Round valid)
