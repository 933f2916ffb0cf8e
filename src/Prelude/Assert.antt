-- ===== src/Prelude/Assert.antt =====
-- What a call does: it comes back, or an ASSERT fails and the program stops.
use mathlib.Core.Bool.{Bool, true, false}

pub data Result {ℓ} (A : Type ℓ) : Type ℓ where
  abort : Result A
  ok : A → Result A

-- The code after a call, with and without what the call gave.
infixl 5 ◌>>=◌ ◌>>◌
abbrev pub ◌>>=◌ {ℓ κ} : {A : Type ℓ} {B : Type κ} → Result A → (A → Result B) → Result B
abort >>= rest = abort
ok x >>= rest = rest x

abbrev pub ◌>>◌ {ℓ κ} : {A : Type ℓ} {B : Type κ} → Result A → Result B → Result B
abort >> rest = abort
ok x >> rest = rest

-- The macro ASSERT of lib/debug.h.
abbrev pub assert : Bool → Result (Unit {0})
assert false = abort
assert true = ok tt
