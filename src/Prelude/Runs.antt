-- ===== src/Prelude/Runs.antt =====
-- Code that reads and changes a state, and that may fault.
use mathlib.Core.Option.{Option, none, some}

abbrev pub Run : Type 0 → Type 0 → Type 0
Run S A = S → Option (A × S)

abbrev pub pure : {S A : Type 0} → A → Run S A
pure a s = some (a, s)

infixl 5 ◌>>=◌ ◌>>◌
abbrev pub ◌>>=◌ : {S A B : Type 0} → Run S A → (A → Run S B) → Run S B
◌>>=◌ m f s = elim (m s) [ none ↦ none | some (a, s') ↦ f a s' ]

abbrev pub ◌>>◌ : {S B : Type 0} → Run S (Unit {0}) → Run S B → Run S B
m >> k = m >>= λ _. k

abbrev pub fault : {S A : Type 0} → Run S A
fault s = none

abbrev pub get : {S : Type 0} → Run S S
get s = some (s, s)

abbrev pub modify : {S : Type 0} → (S → S) → Run S (Unit {0})
modify f s = some (tt, f s)
