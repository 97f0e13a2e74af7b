-- ===== src/Store/Connection/Streams.antt =====
-- What `stream_data` (Connection.cpp) sends.
use concurrent_computing.Prelude.{
  ℕ, zero, suc, ◌≤◌, ◌≡◌, refl, ap, ◌∙◌, arith, Bool, true, false, some, List, [], ◌∷◌, ◌++◌,
  length, transport, Option-cases, inl, inr,
}
use concurrent_computing.Store.Connection.{
  Write, took, write_interrupted, write_failed, take, drop, stream_data,
}

pub append_assoc : (xs ys zs : List ℕ) → (xs ++ ys) ++ zs ≡ xs ++ (ys ++ zs)
append_assoc [] ys zs = refl
append_assoc (x ∷ xs) ys zs = ap (λ (ws : List ℕ). x ∷ ws) (append_assoc xs ys zs)

take-drop : (n : ℕ) (xs : List ℕ) → take n xs ++ drop n xs ≡ xs
unfolding take drop
take-drop zero xs = refl
take-drop (suc n) [] = refl
take-drop (suc n) (x ∷ xs) = ap (λ (ys : List ℕ). x ∷ ys) (take-drop n xs)

-- The bytes sent come first in the data, and they are all of it if the answer is 0.
unfoldable pub IsSent : List ℕ → Bool × List ℕ → Type 0
IsSent xs (true, sent) = sent ≡ xs
IsSent xs (false, sent) = (rest : List ℕ) × (sent ++ rest ≡ xs)

IsSent-append :
    (front xs sent : List ℕ) (ok : Bool)
    → IsSent xs (ok, sent)
    → IsSent (front ++ xs) (ok, front ++ sent)
unfolding IsSent
IsSent-append front xs sent true e = ap (λ (ys : List ℕ). front ++ ys) e
IsSent-append front xs sent false (rest, e) =
    (rest, append_assoc front sent rest ∙ ap (λ (ys : List ℕ). front ++ ys) e)

-- However `write` cuts the data and however often it is interrupted: when `stream_data` returns 0
-- all of the data was sent, in its order and once; when it returns -1 a first part of it was.
pub stream_data-IsSent :
    (xs : List ℕ) (calls : List Write) (out : Bool × List ℕ)
    → stream_data xs calls ≡ some out
    → IsSent xs out
unfolding stream_data
stream_data-IsSent [] calls out run =
    let e : (true, []) ≡ out = cc in transport (λ i. IsSent [] (e i)) (unfold IsSent in refl)
stream_data-IsSent (x ∷ xs) [] out run = cc
stream_data-IsSent (x ∷ xs) (write_failed ∷ calls) out run =
    let e : (false, []) ≡ out = cc in
    transport (λ i. IsSent (x ∷ xs) (e i)) (unfold IsSent in (x ∷ xs, refl))
stream_data-IsSent (x ∷ xs) (write_interrupted ∷ calls) out run =
    stream_data-IsSent (x ∷ xs) calls out run
stream_data-IsSent (x ∷ xs) (took n ∷ calls) out run =
    let front = take (suc n) (x ∷ xs) in
    let back = drop (suc n) (x ∷ xs) in
    elim (Option-cases (stream_data back calls)) [
      | inl e ↦ cc (rw (e, stream_data) at run)
      | inr ((ok, sent), e) ↦
          let same : (ok, front ++ sent) ≡ out = cc (rw (e, stream_data) at run) in
          transport (λ i. IsSent (x ∷ xs) (same i))
            (rw (take-drop (suc n) (x ∷ xs)) at
              (IsSent-append front back sent ok (stream_data-IsSent back calls (ok, sent) e)))
    ]

-- No call fails.
abbrev pub takes : List Write → Bool
takes [] = true
takes (took n ∷ calls) = takes calls
takes (write_interrupted ∷ calls) = takes calls
takes (write_failed ∷ calls) = false

-- The calls that take something.
abbrev pub takers : List Write → ℕ
takers [] = 0
takers (took n ∷ calls) = suc (takers calls)
takers (write_interrupted ∷ calls) = takers calls
takers (write_failed ∷ calls) = takers calls

length-drop : (n : ℕ) (x : ℕ) (xs : List ℕ) → length (drop (suc n) (x ∷ xs)) ≤ length xs
unfolding drop
length-drop zero x xs = omega arith
length-drop (suc n) x [] = omega arith
length-drop (suc n) x (y ∷ ys) = omega (arith, length-drop n y ys)

-- When no call of `write` fails and as many calls as there are bytes take at least one byte,
-- `stream_data` returns 0.
pub stream_data-returns :
    (xs : List ℕ) (calls : List Write)
    → takes calls ≡ true
    → length xs ≤ takers calls
    → stream_data xs calls ≡ some (true, xs)
unfolding stream_data
stream_data-returns [] calls fine enough = refl
stream_data-returns (x ∷ xs) [] fine enough = absurd (omega arith)
stream_data-returns (x ∷ xs) (write_failed ∷ calls) fine enough = cc
stream_data-returns (x ∷ xs) (write_interrupted ∷ calls) fine enough =
    stream_data-returns (x ∷ xs) calls fine enough
stream_data-returns (x ∷ xs) (took n ∷ calls) fine enough =
    let rest =
      stream_data-returns (drop (suc n) (x ∷ xs)) calls fine (omega (arith, length-drop n x xs)) in
    rw (rest, stream_data) (ap (λ (ys : List ℕ). some (true, ys)) (take-drop (suc n) (x ∷ xs)))
