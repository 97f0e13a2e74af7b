-- ===== src/Replica/Methods/Rounds.antt =====
-- The public `insert` of ReplicatedKeyValueStoreRDMA/Persistence/KeyValueStore/Cuckoo.hpp: one round
-- of its loop, run by one thread.
use concurrent_computing.Prelude.{
  ℕ, ◌<◌, ◌≡◌, ◌≢◌, ◌↔◌, ◌⊎◌, refl, sym, ap, ◌∙◌, fun_ext, Bool, false, Option, none, some, [], inl,
  inr,
}
use concurrent_computing.Cuckoo.Search.{Side}
use concurrent_computing.Replica.Table.{Node, offset}
use concurrent_computing.Replica.State.{Cuckoo, hash1, hash2, ◌>>=◌}
use concurrent_computing.Replica.Locks.Runs.{holding, unlock_two_run}
use concurrent_computing.Replica.Insert.{
  InsertResult, resize, retry, duplicate, success, put_at, insert_at,
}
use concurrent_computing.Replica.Ops.{Result, is_true, dup, abort_failure, insert_round}
use concurrent_computing.Replica.Contents.{
  Holds, IsValid, Near, Near-lt, key_at, cells, put_at-with_cell,
}
use concurrent_computing.Replica.Edits.{written-IsValid, written_self, written_only, written_others}
use concurrent_computing.Replica.Methods.Displace.{Keeps, Grants, both}
use concurrent_computing.Replica.Methods.Insertion.{Absent, Present, Answer, insert_at-Grants}

-- No spin lock is held.
abbrev pub Idle : Cuckoo → Type 0
Idle c = (i : ℕ) → c.held i ≡ false

pub holding-Idle : (c : Cuckoo) → Idle c → holding c [] ≡ c
holding-Idle c idle = ap (λ (h : ℕ → Bool). record c { held = h }) (fun_ext (λ i. sym (idle i)))

-- What `insert` leaves behind: the element's key has its value, and every other key has the value
-- that it had.
pub record Stored (c : Cuckoo) (e : Node) (d : Cuckoo) : Type 0 where
  pub idle : Idle d
  pub valid : IsValid d
  pub stored : Holds d e.key e.val
  pub only : (x : ℕ) → Holds d e.key x → x ≡ e.val
  pub others : (w x : ℕ) → w ≢ 0 → w ≢ e.key → Holds d w x ↔ Holds c w x

-- What the two answers of an insert that stores its element say of the store before.
abbrev pub Answered : Result → Cuckoo → ℕ → Type 0
Answered dup c k = Present c k
Answered is_true c k = Absent c k
Answered _ c k = ⊥

-- A call that stores the element.
abbrev pub Ends : Cuckoo → Node → Option (Option Result × Cuckoo) → Type 0
Ends c e run =
    (r : Result) × (d : Cuckoo) × (run ≡ some (some r, d)) × Answered r c e.key × Stored c e d

-- What one round comes to.
pub data Outcome (c : Cuckoo) (e : Node) (run : Option (Option Result × Cuckoo)) : Type 0 where
  done :
      (r : Result) (d : Cuckoo)
      → run ≡ some (some r, d)
      → Answered r c e.key
      → Stored c e d
      → Outcome c e run
  aborted :
      (x : Cuckoo)
      → run ≡ some (some abort_failure, x)
      → Absent c e.key
      → Idle x
      → Keeps c x
      → Outcome c e run
  again :
      (x : Cuckoo) → run ≡ some (none, x) → Absent c e.key → Idle x → Keeps c x → Outcome c e run

module _ (c : Cuckoo) (e : Node) (some_key : e.key ≢ 0) where
  -- The element written into a slot of one of its buckets, in a store with the same contents.
  written_at :
      (x : Cuckoo) (i j : ℕ)
      → Keeps c x
      → Near x.buckets e.key (offset i j)
      → (key_at x (offset i j) ≡ 0) ⊎ (key_at x (offset i j) ≡ e.key)
      → ((m : ℕ) → m < cells x → key_at x m ≡ e.key → m ≡ offset i j)
      → Stored c e (holding (put_at i j e x) [])
  written_at x i j keeps near free only =
      let inside = Near-lt x.buckets e.key (offset i j) keeps.valid.roomy near in
      let valid = written-IsValid x keeps.valid (offset i j) inside e some_key near only in
      rw (put_at-with_cell i j e x) (record {
        idle = λ l. refl;
        valid = record { roomy = valid.roomy; placed = valid.placed; distinct = valid.distinct };
        stored = written_self x keeps.valid (offset i j) inside e some_key near only;
        only = written_only x keeps.valid (offset i j) inside e some_key near only;
        others = λ w v h h'.
            let (f, g) =
              written_others x keeps.valid (offset i j) inside e some_key near only free w v h h' in
            let (f', g') = keeps.contents w v h in (λ q. f' (f q), λ q. g (g' q));
      })

  only_cell :
      (x : Cuckoo) (n : ℕ)
      → Keeps c x
      → Absent c e.key
      → (m : ℕ) → m < cells x
      → key_at x m ≡ e.key
      → m ≡ n
  only_cell x n keeps absent m lt h = absurd (
      absent (x.table.elements m).val (
        (keeps.contents e.key (x.table.elements m).val some_key).0
          (m, rw h at (keeps.valid.placed m lt (rw h some_key)), h, refl)))

  write_run :
      (x : Cuckoo) (i j : ℕ)
      → put_at i j e (holding x (both c.buckets e.key))
        ≡ holding (put_at i j e x) (both c.buckets e.key)
  unfolding put_at
  write_run x i j = refl

  unheld : {x : Cuckoo} → Keeps c x → Keeps c (holding x [])
  unheld keeps = record {
    buckets = keeps.buckets;
    valid = record {
      roomy = keeps.valid.roomy;
      placed = keeps.valid.placed;
      distinct = keeps.valid.distinct;
    };
    contents = keeps.contents;
  }

  -- A round that gets a slot with the locks of both buckets stores the element there.
  pub ended_duplicate :
      (s : Side) (i j : ℕ) (d : Cuckoo)
      → insert_at e.key (hash1 c.buckets e.key) (hash2 c.buckets e.key) (holding c [])
        ≡ some (duplicate s i j, d)
      → Grants c e.key (duplicate s i j) d
      → Present c e.key
      → Ends c e (insert_round e (hash1 c.buckets e.key) (hash2 c.buckets e.key) (holding c []))
  unfolding insert_round
  ended_duplicate s i j d run g a = (
    dup,
    holding (put_at i j e g.base) [],
    rw (
      run,
      ◌>>=◌,
      g.state,
      write_run g.base i j,
      unlock_two_run (put_at i j e g.base) (hash1 c.buckets e.key) (hash2 c.buckets e.key),
    ),
    a,
    written_at g.base i j g.keeps g.vacancy.1 (inr g.vacancy.2) (λ m lt h.
        g.keeps.valid.distinct m (offset i j) lt
          (Near-lt g.base.buckets e.key (offset i j) g.keeps.valid.roomy g.vacancy.1)
          (rw h some_key) (h ∙ sym g.vacancy.2)),
  )

  pub ended_success :
      (s : Side) (i j : ℕ) (d : Cuckoo)
      → insert_at e.key (hash1 c.buckets e.key) (hash2 c.buckets e.key) (holding c [])
        ≡ some (success s i j, d)
      → Grants c e.key (success s i j) d
      → Absent c e.key
      → Ends c e (insert_round e (hash1 c.buckets e.key) (hash2 c.buckets e.key) (holding c []))
  unfolding insert_round
  ended_success s i j d run g a = (
    is_true,
    holding (put_at i j e g.base) [],
    rw (
      run,
      ◌>>=◌,
      g.state,
      write_run g.base i j,
      unlock_two_run (put_at i j e g.base) (hash1 c.buckets e.key) (hash2 c.buckets e.key),
    ),
    a,
    written_at g.base i j g.keeps g.vacancy.1 (inl g.vacancy.2)
        (only_cell g.base (offset i j) g.keeps a),
  )

  concluded : {run : Option (Option Result × Cuckoo)} → Ends c e run → Outcome c e run
  concluded (r, d, run, a, st) = done r d run a st

  conclude :
      (r : InsertResult) (d : Cuckoo)
      → insert_at e.key (hash1 c.buckets e.key) (hash2 c.buckets e.key) (holding c []) ≡ some (r, d)
      → Grants c e.key r d
      → Answer c e.key r
      → Outcome c e (insert_round e (hash1 c.buckets e.key) (hash2 c.buckets e.key) (holding c []))
  unfolding insert_round
  conclude resize d run g a =
      aborted (holding g.base []) (rw (run, ◌>>=◌, g.state)) a (λ i. refl) (unheld g.keeps)
  conclude retry d run g a =
      again (holding g.base []) (rw (run, ◌>>=◌, g.state)) a (λ i. refl) (unheld g.keeps)
  conclude (duplicate s i j) d run g a = concluded (ended_duplicate s i j d run g a)
  conclude (success s i j) d run g a = concluded (ended_success s i j d run g a)

  run-Outcome :
      IsValid c
      → Outcome c e (insert_round e (hash1 c.buckets e.key) (hash2 c.buckets e.key) (holding c []))
  run-Outcome valid =
      let (r, d, run, g, a) = insert_at-Grants c e.key valid some_key in conclude r d run g a

  -- From a well-formed store in which no spin lock is held, and with a key other than 0, a round of
  -- `insert` returns, and no spin lock is held then. If it answers DUP or TRUE the key was there or
  -- not, the key has the element's value, and every other key the value that it had. If it answers
  -- ABORT_FAILURE, or has to be repeated, the key was not there and the contents are the same. The
  -- store is well formed in each case.
  pub insert_round-Outcome :
      IsValid c
      → Idle c
      → Outcome c e (insert_round e (hash1 c.buckets e.key) (hash2 c.buckets e.key) c)
  insert_round-Outcome valid idle = rw (holding-Idle c idle) at (run-Outcome valid)
