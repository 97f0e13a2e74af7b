-- ===== src/Replica/Server/Handling.antt =====
-- The store after a message of ReplicatedKeyValueStoreRDMA/Persistence/Server.cpp was handled.
use concurrent_computing.Prelude.{
  ℕ, zero, suc, ◌<◌, ◌≡◌, ◌≢◌, ◌↔◌, refl, sym, ap, ◌∙◌, arith, Bool, true, false, ◌&&◌, Option,
  none, some, List, [], ◌∷◌, ◌==◌, if◌then◌else◌, Bool-cases, Option-cases, ==→eq, ==_refl, inl,
  inr,
}
use concurrent_computing.Replica.Table.{Node}
use concurrent_computing.Replica.State.{Cuckoo, hash1, hash2, ◌>>=◌}
use concurrent_computing.Replica.Ops.{
  Result, is_true, is_false, dup, abort_failure, insert_round, insert_loop, insert,
}
use concurrent_computing.Replica.Contents.{Holds, IsValid}
use concurrent_computing.Replica.Methods.Displace.{Keeps, Keeps-refl, Keeps-trans}
use concurrent_computing.Replica.Methods.Rounds.{
  Idle, Answered, Stored, Outcome, done, aborted, again, insert_round-Outcome,
}
use concurrent_computing.Replica.Methods.Insertion.{Present}
use concurrent_computing.Replica.Methods.Room.{insert-updates}
use concurrent_computing.Replica.Server.{handle, put_first}

-- The answers of an insert that stored its element.
abbrev pub is_stored : Option Result → Bool
is_stored (some is_true) = true
is_stored (some dup) = true
is_stored _ = false

abbrev pub all_stored : List Result → Bool
all_stored [] = true
all_stored (a ∷ rest) = is_stored (some a) && all_stored rest

-- The message is worked off, and each insert stored its element.
abbrev pub all_worked : Option (List Result) → Bool
all_worked none = false
all_worked (some results) = all_stored results

all_worked-put_first :
    (r : Result) (answers : Option (List Result))
    → all_worked (put_first r answers) ≡ (is_stored (some r) && all_worked answers)
all_worked-put_first r none = ground arith
all_worked-put_first r (some results) = refl

-- What an insert with bounded retries comes to.
record Tried (c : Cuckoo) (e : Node) (run : Option (Option Result × Cuckoo)) : Type 0 where
  answer : Option Result
  after : Cuckoo
  returns : run ≡ some (answer, after)
  idle : Idle after
  valid : IsValid after
  stored : is_stored answer ≡ true → Stored c e after
  kept : is_stored answer ≡ false → Keeps c after

Stored-kept :
    {c x : Cuckoo} {e : Node} {d : Cuckoo} → e.key ≢ 0 → Keeps c x → Stored x e d → Stored c e d
Stored-kept some_key keeps st = record {
  idle = st.idle;
  valid = st.valid;
  stored = st.stored;
  only = st.only;
  others = λ w v h h'. (
    λ q. (keeps.contents w v h).0 ((st.others w v h h').0 q),
    λ q. (st.others w v h h').1 ((keeps.contents w v h).1 q),
  );
}

module _ (e : Node) (some_key : e.key ≢ 0) where
  ended :
      (c : Cuckoo) (fuel : ℕ)
      → ((x : Cuckoo)
          → IsValid x
          → Idle x
          → (i j : ℕ) → i ≡ hash1 x.buckets e.key
          → j ≡ hash2 x.buckets e.key
          → Tried x e (insert_loop fuel e i j x))
      → Outcome c e (insert_round e (hash1 c.buckets e.key) (hash2 c.buckets e.key) c)
      → Tried c e (insert_loop (suc fuel) e (hash1 c.buckets e.key) (hash2 c.buckets e.key) c)
  unfolding insert_loop
  ended c fuel more (done is_true d run a st) = record {
    answer = some is_true;
    after = d;
    returns = rw (run, ◌>>=◌) refl;
    idle = st.idle;
    valid = st.valid;
    stored = λ h. st;
    kept = λ h. cc;
  }
  ended c fuel more (done dup d run a st) = record {
    answer = some dup;
    after = d;
    returns = rw (run, ◌>>=◌) refl;
    idle = st.idle;
    valid = st.valid;
    stored = λ h. st;
    kept = λ h. cc;
  }
  ended c fuel more (done is_false d run a st) = absurd a
  ended c fuel more (done abort_failure d run a st) = absurd a
  ended c fuel more (aborted x run a idle keeps) = record {
    answer = some abort_failure;
    after = x;
    returns = rw (run, ◌>>=◌) refl;
    idle = idle;
    valid = keeps.valid;
    stored = λ h. cc;
    kept = λ h. keeps;
  }
  ended c fuel more (again x run a idle keeps) =
      let t =
        more x keeps.valid idle (hash1 c.buckets e.key) (hash2 c.buckets e.key)
          (ap (λ (b : ℕ). hash1 b e.key) (sym keeps.buckets))
          (ap (λ (b : ℕ). hash2 b e.key) (sym keeps.buckets)) in
      record {
        answer = t.answer;
        after = t.after;
        returns = rw (run, ◌>>=◌) t.returns;
        idle = t.idle;
        valid = t.valid;
        stored = λ h. Stored-kept some_key keeps (t.stored h);
        kept = λ h. Keeps-trans keeps (t.kept h);
      }

  out_of_fuel : (c : Cuckoo) (i j : ℕ) → IsValid c → Idle c → Tried c e (insert_loop zero e i j c)
  unfolding insert_loop
  out_of_fuel c i j valid idle = record {
    answer = none;
    after = c;
    returns = refl;
    idle = idle;
    valid = valid;
    stored = λ h. cc;
    kept = λ h. Keeps-refl valid;
  }

  insert_loop-Tried :
      (fuel : ℕ) (c : Cuckoo)
      → IsValid c
      → Idle c
      → (i j : ℕ) → i ≡ hash1 c.buckets e.key
      → j ≡ hash2 c.buckets e.key
      → Tried c e (insert_loop fuel e i j c)
  insert_loop-Tried zero c valid idle i j at1 at2 = out_of_fuel c i j valid idle
  insert_loop-Tried (suc fuel) c valid idle i j at1 at2 =
      rw (at1, at2)
        (ended c fuel (insert_loop-Tried fuel) (insert_round-Outcome c e some_key valid idle))

  insert-Tried : (fuel : ℕ) (c : Cuckoo) → IsValid c → Idle c → Tried c e (insert fuel e c)
  unfolding insert
  insert-Tried fuel c valid idle =
      insert_loop-Tried fuel c valid idle (hash1 c.buckets e.key) (hash2 c.buckets e.key) refl refl

-- Each key is one that can be stored.
abbrev pub AreKeys : List Node → Type 0
AreKeys [] = Unit
AreKeys (e ∷ es) = (e.key ≢ 0) × AreKeys es

-- The value of the last element with the key.
unfoldable pub last_value : List Node → ℕ → Option ℕ
last_value [] w = none
last_value (e ∷ es) w = elim (last_value es w) [
  | some v ↦ some v
  | none ↦ if w == e.key then some e.val else none
]

-- The key has the value given, or what it had.
abbrev pub After : Option ℕ → Cuckoo → ℕ → ℕ → Type 0
After (some v) c w x = x ≡ v
After none c w x = Holds c w x

-- Each key is in the store.
abbrev pub ArePresent : Cuckoo → List Node → Type 0
ArePresent c [] = Unit
ArePresent c (e ∷ es) = Present c e.key × ArePresent c es

-- What handling a message comes to.
pub record Handled (fuel : ℕ) (c : Cuckoo) (es : List Node)
    (run : Option (Option (List Result) × Cuckoo)) : Type 0 where
  pub answers : Option (List Result)
  pub after : Cuckoo
  pub returns : run ≡ some (answers, after)
  pub idle : Idle after
  pub valid : IsValid after
  pub contents :
      all_worked answers ≡ true
      → (w x : ℕ) → w ≢ 0
      → Holds after w x ↔ After (last_value es w) c w x
  pub ends : 0 < fuel → ArePresent c es → all_worked answers ≡ true

one_more :
    (c c1 : Cuckoo) (e : Node) (es : List Node)
    → e.key ≢ 0
    → Stored c e c1
    → (w x : ℕ) → w ≢ 0
    → After (last_value es w) c1 w x ↔ After (last_value (e ∷ es) w) c w x
unfolding last_value
one_more c c1 e es some_key st w x h = elim (Option-cases (last_value es w)) [
  | inr (v, q) ↦ rw q (λ a. a, λ a. a)
  | inl q ↦ elim (Bool-cases (w == e.key)) [
    | inl same ↦
        let eq = ==→eq w e.key same in
        rw (q, same) (λ a. st.only x (rw eq at a), λ a. rw (eq, a) st.stored)
    | inr differs ↦ rw (q, differs) (st.others w x h (λ eq. cc (rw eq at differs, ==_refl e.key)))
  ]
]

-- An insert that stores its element loses no key.
still_present :
    (c d : Cuckoo) (e : Node) (es : List Node)
    → AreKeys es
    → Stored c e d
    → ArePresent c es
    → ArePresent d es
still_present c d e [] keys st there = tt
still_present c d e (f ∷ es) keys st there = (
  elim (Bool-cases (f.key == e.key)) [
    | inl same ↦ (e.val, rw (==→eq f.key e.key same) st.stored)
    | inr differs ↦ (
      there.0.0,
      (st.others f.key there.0.0 keys.0 (λ eq. cc (rw eq at differs, ==_refl e.key))).1 there.0.1,
    )
  ],
  still_present c d e es keys.1 st there.1,
)

stored_answer : (r : Result) (c : Cuckoo) (k : ℕ) → Answered r c k → is_stored (some r) ≡ true
stored_answer is_true c k a = refl
stored_answer dup c k a = refl
stored_answer is_false c k a = absurd a
stored_answer abort_failure c k a = absurd a

-- An insert for a key that is there ends and stores its element.
updated :
    (e : Node) (some_key : e.key ≢ 0) (fuel : ℕ) (c : Cuckoo)
    → IsValid c
    → Idle c
    → 0 < fuel
    → Present c e.key
    → (r : Result) × (d : Cuckoo) × (insert fuel e c ≡ some (some r, d))
      × (is_stored (some r) ≡ true)
updated e some_key zero c valid idle pos there = absurd (omega arith)
updated e some_key (suc fuel) c valid idle pos there =
    let (r, d, run, a, st) = insert-updates c e some_key fuel valid idle there in
    (r, d, run, stored_answer r c e.key a)

Tried-updated :
    (e : Node) (fuel : ℕ) (c : Cuckoo)
    → e.key ≢ 0
    → IsValid c
    → Idle c
    → 0 < fuel
    → Present c e.key
    → (t : Tried c e (insert fuel e c)) → is_stored t.answer ≡ true
Tried-updated e fuel c some_key valid idle pos there t =
    let (r, d, run, fine) = updated e some_key fuel c valid idle pos there in
    let same : some (t.answer, t.after) ≡ some (some r, d) = sym t.returns ∙ run in
    ap (λ (o : Option (Option Result × Cuckoo)). stored_of o) same ∙ fine
  where
    stored_of : Option (Option Result × Cuckoo) → Bool
    stored_of none = false
    stored_of (some (a, d)) = is_stored a

one_insert :
    (fuel : ℕ) (e : Node) (es : List Node) (c : Cuckoo)
    → e.key ≢ 0
    → AreKeys es
    → IsValid c
    → Idle c
    → (t : Tried c e (insert fuel e c)) → Handled fuel t.after es (handle fuel es t.after)
    → Handled fuel c (e ∷ es) (handle fuel (e ∷ es) c)
unfolding handle last_value
one_insert fuel e es c some_key keys valid idle t r = elim (Option-cases t.answer) [
  | inl q ↦ record {
    answers = none;
    after = t.after;
    returns = rw (t.returns, ◌>>=◌, q) refl;
    idle = t.idle;
    valid = t.valid;
    contents = λ all w x h. cc;
    ends = λ pos there.
        absurd (cc (rw q at (Tried-updated e fuel c some_key valid idle pos there.0 t)));
  }
  | inr (result, q) ↦ record {
    answers = put_first result r.answers;
    after = r.after;
    returns = rw (t.returns, ◌>>=◌, q) (rw (r.returns, ◌>>=◌) refl);
    idle = r.idle;
    valid = r.valid;
    contents = λ all w x h.
        let split = all_worked-put_first result r.answers in
        let fine : is_stored t.answer ≡ true = rw q (ground (arith, split, all)) in
        let (f, g) = r.contents (ground (arith, split, all)) w x h in
        let (f', g') = one_more c t.after e es some_key (t.stored fine) w x h in
        (λ a. f' (f a), λ a. g (g' a));
    ends = λ pos there.
        let fine = Tried-updated e fuel c some_key valid idle pos there.0 t in
        let later = r.ends pos (still_present c t.after e es keys (t.stored fine) there.1) in
        let stored : is_stored (some result) ≡ true = rw q at fine in
        ground (arith, all_worked-put_first result r.answers, stored, later);
  }
]

-- From a well-formed store in which no spin lock is held, and for a message of elements with keys
-- other than 0: the handler works the message off, or an insert is still repeating its rounds when
-- those that it may take are used up. The store is then well formed and no spin lock is held. If the
-- message is worked off and each insert answered TRUE or DUP, every key of the message has the value
-- of its last element there, and every other key the value that it had. If the keys of the message
-- are all in the store, one round for each insert suffices, and each answers so.
pub handle-Handled :
    (fuel : ℕ) (es : List Node) (c : Cuckoo)
    → AreKeys es
    → IsValid c
    → Idle c
    → Handled fuel c es (handle fuel es c)
unfolding handle last_value
handle-Handled fuel [] c keys valid idle = record {
  answers = some [];
  after = c;
  returns = refl;
  idle = idle;
  valid = valid;
  contents = λ all w x h. (λ a. a, λ a. a);
  ends = λ pos there. refl;
}
handle-Handled fuel (e ∷ es) c keys valid idle =
    let t = insert-Tried e keys.0 fuel c valid idle in
    one_insert fuel e es c keys.0 keys.1 valid idle t
      (handle-Handled fuel es t.after keys.1 t.valid t.idle)
