-- ===== src/Exceptions/Decimal.antt =====
-- Handle_PrintNum of code/userprog/exception.cc: the decimal digits of an int.
pub mod Laws
use nachos.Prelude.{
  ℕ, zero, suc, ◌+◌, ◌-◌, ◌*◌, ◌/◌, ◌%◌, ◌^◌, ◌≤◌, ◌<◌, ◌≡◌, refl, ap, ◌∙◌, Bool, true, false, List,
  [], ◌∷◌, ◌++◌, map, ◌==◌, leb, length, length-append, if◌then◌else◌, ℤ, pos, negsuc, Result, ok,
  abort, ◌>>=◌, ◌>>◌, assert, arith,
}
use nachos.Machine.Word.{is_neg, neg32, signed}

-- number % 10 and number / 10 go towards 0.
abbrev pub rem10 : ℤ → ℤ
rem10 (pos n) = pos (n % 10)
rem10 (negsuc n) = if suc n % 10 == 0 then pos 0 else negsuc (suc n % 10 - 1)

abbrev pub quot10 : ℤ → ℤ
quot10 (pos n) = pos (n / 10)
quot10 (negsuc n) = if suc n / 10 == 0 then pos 0 else negsuc (suc n / 10 - 1)

abbrev pub is_zero : ℤ → Bool
is_zero (pos n) = n == 0
is_zero (negsuc n) = false

-- The do-while loop: what it puts into `temp`, which has room for as many as the fuel.
unfoldable pub digits_of : ℕ → ℤ → Result (List ℤ)
digits_of zero number = abort
digits_of (suc room) number = elim (is_zero (quot10 number)) [
  | true ↦ ok (rem10 number ∷ [])
  | false ↦ digits_of room (quot10 number) >>= λ rest. ok (rem10 number ∷ rest)
]

-- '0' + (char) digit
abbrev pub char_of : ℤ → ℕ
char_of (pos d) = 48 + d
char_of (negsuc d) = 48 - suc d

-- The second loop goes from the last digit to the first.
abbrev pub from_last : List ℤ → List ℕ
from_last [] = []
from_last (d ∷ ds) = from_last ds ++ char_of d ∷ []

-- num_buffer, with its 11 characters.
unfoldable pub number_text : ℕ → Result (List ℕ)
unfolding digits_of
number_text number = do
  let sign = if is_neg number then b'-' ∷ [] else []
  temp ← digits_of 11 (signed (if is_neg number then neg32 number else number))
  let text = sign ++ from_last temp
  assert (leb (length text) 11) >> ok text
