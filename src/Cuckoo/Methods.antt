-- ===== src/Cuckoo/Methods.antt =====
-- The public methods `contains` and `remove` of Cuckoo.hpp, run by one thread.
pub mod Displace
pub mod Paths
pub mod Decode
pub mod Insertion
pub mod Rounds
pub mod Construct
pub mod Found
pub mod Room
use concurrent_computing.Prelude.{
  ℕ, suc, ◌-◌, ◌<◌, ◌≡◌, ◌≢◌, refl, ap, ◌∙◌, fun_ext, arith, Bool, true, false, ◌||◌, ◌&&◌, not,
  Option, none, some, [], ◌∷◌, ◌==◌, Option-cases, Bool-cases, ==→eq, sym, ◌⊎◌, inl, inr,
}
use concurrent_computing.Cuckoo.Table.{width, find_slot, first}
use concurrent_computing.Cuckoo.State.{
  Cuckoo, M, acquire, release, read_lock, global_unlock, hash1, hash2, ◌>>=◌,
}
use concurrent_computing.Cuckoo.Locks.{lock_two, unlock_two}
use concurrent_computing.Cuckoo.Locks.Runs.{only, holding, lock_two_run, unlock_two_run}
use concurrent_computing.Cuckoo.Search.{Side, left, right, home}
use concurrent_computing.Cuckoo.Insert.{put_at}
use concurrent_computing.Cuckoo.Ops.{contains, remove}
use concurrent_computing.Cuckoo.Contents.{member, find_slot-some, find_slot-none}
use concurrent_computing.Cuckoo.Placement.{IsValid}
use concurrent_computing.Cuckoo.Edits.{erase-IsValid, member-erase}

-- The thread holds no spin lock, and nobody holds the global lock to write.
pub record Idle (c : Cuckoo) : Type 0 where
  pub free : (i : ℕ) → c.held i ≡ false
  pub unlocked : c.writer ≡ false

pub holding-Idle : (c : Cuckoo) → Idle c → holding c [] ≡ c
holding-Idle c idle =
    ap (λ (h : ℕ → Bool). record c { held = h }) (fun_ext (λ i. ground (arith, idle.free i)))

-- One round trip through the global lock.
abbrev pub reading : Cuckoo → Cuckoo
reading c = record c { readers = suc c.readers }

pub read_lock_run : (c : Cuckoo) → c.writer ≡ false → read_lock c ≡ some (tt, reading c)
unfolding read_lock
read_lock_run c h = rw h

pub global_unlock_run : (c : Cuckoo) → c.writer ≡ false → global_unlock (reading c) ≡ some (tt, c)
unfolding global_unlock
global_unlock_run c h = ground arith

contains_run :
    (c : Cuckoo) (v : ℕ)
    → c.writer ≡ false
    → contains v (holding c []) ≡ some (member c v, holding c [])
unfolding contains member
contains_run c v h = rw (
  read_lock_run (holding c []) h,
  ◌>>=◌,
  lock_two_run (reading c) (hash1 c.buckets v) (hash2 c.buckets v),
  unlock_two_run (reading c) (hash1 c.buckets v) (hash2 c.buckets v),
  global_unlock_run (holding c []) h,
)

-- When no lock is held `contains` returns, with the answer that the value is in one of the slots of
-- its two buckets, and leaves every lock and every slot as it was.
pub contains-member : (c : Cuckoo) (v : ℕ) → Idle c → contains v c ≡ some (member c v, c)
unfolding member
contains-member c v idle = rw (← holding-Idle c idle) (contains_run c v idle.unlocked)

-- What `remove` leaves behind.
pub record Removed (c : Cuckoo) (v : ℕ) (d : Cuckoo) : Type 0 where
  pub idle : Idle d
  pub valid : IsValid d
  pub contents : (w : ℕ) → w ≢ 0 → member d w ≡ (member c w && not (w == v))

module _ (c : Cuckoo) (v : ℕ) (idle : Idle c) where
  remove_left :
      (j : ℕ)
      → find_slot c.table1 v (hash1 c.buckets v) ≡ some j
      → remove v (holding c []) ≡ some (true, holding (put_at left (hash1 c.buckets v) j 0 c) [])
  unfolding remove
  remove_left j e =
      let d = put_at left (hash1 c.buckets v) j 0 c in
      rw
        (
          read_lock_run (holding c []) idle.unlocked,
          ◌>>=◌,
          lock_two_run (reading c) (hash1 c.buckets v) (hash2 c.buckets v),
          e,
        )
        (rw (
          unlock_two_run (reading d) (hash1 c.buckets v) (hash2 c.buckets v),
          ◌>>=◌,
          global_unlock_run (holding d []) idle.unlocked,
        ))

  remove_right :
      (j : ℕ)
      → find_slot c.table1 v (hash1 c.buckets v) ≡ none
      → find_slot c.table2 v (hash2 c.buckets v) ≡ some j
      → remove v (holding c []) ≡ some (true, holding (put_at right (hash2 c.buckets v) j 0 c) [])
  unfolding remove
  remove_right j e e' =
      let d = put_at right (hash2 c.buckets v) j 0 c in
      rw
        (
          read_lock_run (holding c []) idle.unlocked,
          ◌>>=◌,
          lock_two_run (reading c) (hash1 c.buckets v) (hash2 c.buckets v),
          e,
          e',
        )
        (rw (
          unlock_two_run (reading d) (hash1 c.buckets v) (hash2 c.buckets v),
          ◌>>=◌,
          global_unlock_run (holding d []) idle.unlocked,
        ))

  remove_absent :
      find_slot c.table1 v (hash1 c.buckets v) ≡ none
      → find_slot c.table2 v (hash2 c.buckets v) ≡ none
      → remove v (holding c []) ≡ some (false, holding c [])
  unfolding remove
  remove_absent e e' =
      rw
        (
          read_lock_run (holding c []) idle.unlocked,
          ◌>>=◌,
          lock_two_run (reading c) (hash1 c.buckets v) (hash2 c.buckets v),
          e,
          e',
        )
        (rw (
          unlock_two_run (reading c) (hash1 c.buckets v) (hash2 c.buckets v),
          ◌>>=◌,
          global_unlock_run (holding c []) idle.unlocked,
        ))

  answered :
      (d : Cuckoo) (b : Bool)
      → remove v (holding c []) ≡ some (b, holding d [])
      → member c v ≡ b
      → Removed c v d
      → (d : Cuckoo) × (remove v c ≡ some (member c v, d)) × Removed c v d
  answered d b run e r = (
    d,
    ap (remove v) (sym (holding-Idle c idle))
        ∙ run
        ∙ ap (λ (x : Cuckoo). some (b, x)) (holding-Idle d r.idle)
        ∙ ap (λ (x : Bool). some (x, d)) (sym e),
    r,
  )

  unchanged : (w : ℕ) → member c v ≡ false → member c w ≡ (member c w && not (w == v))
  unchanged w gone = elim (Bool-cases (w == v)) [
    | inl same ↦ let e : member c w ≡ false = rw (==→eq w v same) gone in rw e
    | inr differs ↦ rw differs (ground arith)
  ]

  put_at-Idle : (s : Side) (i j w : ℕ) → Idle (put_at s i j w c)
  unfolding put_at
  put_at-Idle left i j w = record { free = idle.free; unlocked = idle.unlocked }
  put_at-Idle right i j w = record { free = idle.free; unlocked = idle.unlocked }

  -- From a well-formed set in which no lock is held `remove` returns, and its answer is whether the
  -- set had the value. Afterwards no lock is held, the tables are well formed, and of the values
  -- other than 0 the set has those that it had, without the one removed.
  pub remove-Removed :
      IsValid c → (d : Cuckoo) × (remove v c ≡ some (member c v, d)) × Removed c v d
  unfolding home
  remove-Removed valid = elim (Option-cases (find_slot c.table1 v (hash1 c.buckets v))) [
    | inr (j, e) ↦
        let (lt, stands, found) = find_slot-some c.table1 v (hash1 c.buckets v) j e in
        answered (put_at left (hash1 c.buckets v) j 0 c) true (remove_left j e)
          (unfold member in rw found)
          (record {
            idle = put_at-Idle left (hash1 c.buckets v) j 0;
            valid = erase-IsValid c left (hash1 c.buckets v) j valid;
            contents = member-erase c left j v valid lt stands;
          })
    | inl e ↦ elim (Option-cases (find_slot c.table2 v (hash2 c.buckets v))) [
      | inr (j, e') ↦
          let (lt, stands, found) = find_slot-some c.table2 v (hash2 c.buckets v) j e' in
          answered (put_at right (hash2 c.buckets v) j 0 c) true (remove_right j e e')
            (unfold member in rw (find_slot-none c.table1 v (hash1 c.buckets v) e, found))
            (record {
              idle = put_at-Idle right (hash2 c.buckets v) j 0;
              valid = erase-IsValid c right (hash2 c.buckets v) j valid;
              contents = member-erase c right j v valid lt stands;
            })
      | inl e' ↦
          let gone : member c v ≡ false =
            unfold member in rw (find_slot-none c.table1 v _ e, find_slot-none c.table2 v _ e') in
          answered c false (remove_absent e e') gone
            (record { idle = idle; valid = valid; contents = λ w h. unchanged w gone })
    ]
  ]
