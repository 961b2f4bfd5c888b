-- ===== src/Daemon/SuggestedFee.antt =====
-- `parse_suggested_fee` of cw-orch-daemon/src/tx_broadcaster.rs, over logs of ASCII text: the
-- numeric characters are the digits, the white space is that of ASCII.
use Prim.Native.Char.{Char, code}
use Prim.Native.String
use Prim.Native.String.{String}
use cw_orchestrator.Common.{
  ℕ, zero, suc, ◌+◌, ◌-◌, ◌*◌, ◌^◌, ◌≡◌, refl, Bool, true, false, ◌&&◌, ◌||◌, Option, none, some,
  List, [], ◌∷◌, leb, ltb, eqb, if◌then◌else◌,
}
use cw_orchestrator.Common.Text.{starts_with, is_empty}

unfoldable pub is_numeric : Char → Bool
is_numeric c = leb 48 (code c) && leb (code c) 57

is_whitespace : Char → Bool
is_whitespace c = eqb (code c) 32 || leb 9 (code c) && leb (code c) 13

abbrev chars : String → ℕ
chars String.[] = 0
chars (String.◌∷◌ c s) = suc (chars s)

abbrev push : String → Char → String
push s c = String.◌++◌ s (String.◌∷◌ c String.[])

-- The loop of `s.split(p)` at a text `p` that is not empty: `skip` characters of a match are still to
-- be passed over, `cur` is the piece at hand.
split_from : String → ℕ → String → String → List String
split_from p skip cur String.[] = cur ∷ []
split_from p (suc skip) cur (String.◌∷◌ c s) = split_from p skip cur s
split_from p zero cur (String.◌∷◌ c s) = elim (starts_with (String.◌∷◌ c s) p) [
  | true ↦ cur ∷ split_from p (chars p - 1) String.[] s
  | false ↦ split_from p zero (push cur c) s
]

unfoldable pub split : String → String → List String
unfolding split_from starts_with
split s p = split_from p zero String.[] s

-- `s.split_whitespace().last()`
last_word_from : String → Option String → String → Option String
last_word_from cur found String.[] = if is_empty cur then found else some cur
last_word_from cur found (String.◌∷◌ c s) = elim (is_whitespace c) [
  | true ↦ last_word_from String.[] (if is_empty cur then found else some cur) s
  | false ↦ last_word_from (push cur c) found s
]

last_word : String → Option String
unfolding last_word_from is_whitespace
last_word s = last_word_from String.[] none s

-- The rest of a text from its first, and from its last, character that is not numeric.
from_first_non_numeric : String → Option String
from_first_non_numeric String.[] = none
from_first_non_numeric (String.◌∷◌ c s) =
    let rest = from_first_non_numeric s in if is_numeric c then rest else some (String.◌∷◌ c s)

from_last_non_numeric : String → Option String
from_last_non_numeric String.[] = none
from_last_non_numeric (String.◌∷◌ c s) = elim (from_last_non_numeric s) [
  | some t ↦ some t
  | none ↦ if is_numeric c then none else some (String.◌∷◌ c s)
]

-- `str::parse::<u128>`: an optional sign `+`, then digits, below 2 ^ 128
digits_from : ℕ → String → Option ℕ
digits_from n String.[] = if ltb n (2 ^ 128) then some n else none
digits_from n (String.◌∷◌ c s) =
    let rest = digits_from (n * 10 + (code c - 48)) s in if is_numeric c then rest else none

unsigned : String → Option ℕ
unfolding digits_from
unsigned String.[] = none
unsigned (String.◌∷◌ c s) = digits_from 0 (String.◌∷◌ c s)

parse_u128 : String → Option ℕ
unfolding unsigned
parse_u128 String.[] = none
parse_u128 (String.◌∷◌ c s) = if eqb (code c) 43 then unsigned s else unsigned (String.◌∷◌ c s)

abbrev or_option : Option ℕ → Option ℕ → Option ℕ
or_option none o = o
or_option (some n) o = some n

-- `suggested_fee.parse().ok().or(suggested_fee[1..].parse().ok())`
parse_or_tail : String → Option ℕ
unfolding parse_u128
parse_or_tail String.[] = none
parse_or_tail (String.◌∷◌ c s) = or_option (parse_u128 (String.◌∷◌ c s)) (parse_u128 s)

infixl 5 ◌>>=◌
abbrev ◌>>=◌ : {A B : Type 0} → Option A → (A → Option B) → Option B
none >>= f = none
some a >>= f = f a

abbrev head_or_empty : List String → String
head_or_empty [] = String.[]
head_or_empty (s ∷ l) = s

-- The denomination of the fee that was paid, the last word before "required: ".
unfoldable pub paid_denomination : String → Option String
unfolding last_word from_first_non_numeric
paid_denomination got = last_word got >>= from_first_non_numeric

-- Step 3, over the part behind "required: "
unfoldable pub required_fee : String → String → Option ℕ
unfolding split from_last_non_numeric parse_or_tail is_numeric
required_fee required denomination =
    from_last_non_numeric (head_or_empty (split required denomination)) >>= parse_or_tail

fee_of_parts : List String → Option ℕ
unfolding paid_denomination required_fee
fee_of_parts (got ∷ required ∷ []) = paid_denomination got >>= required_fee required
fee_of_parts _ = none

unfoldable pub parse_suggested_fee : String → Option ℕ
unfolding split fee_of_parts
parse_suggested_fee raw_log = fee_of_parts (split raw_log "required: ")

abbrev pub IsNumeric : String → Type 0
IsNumeric String.[] = Unit
IsNumeric (String.◌∷◌ c s) = (is_numeric c ≡ true) × IsNumeric s

from_last-none : (s : String) → IsNumeric s → from_last_non_numeric s ≡ none
unfolding from_last_non_numeric
from_last-none String.[] h = refl
from_last-none (String.◌∷◌ c s) h = rw (from_last-none s h.1) (rw h.0)

-- If the part of the log behind "required: " has nothing but digits before the paid denomination, as
-- where the node names a single required fee, then no fee is found.
pub parse_suggested_fee-none :
    (raw_log got required denomination : String)
    → split raw_log "required: " ≡ got ∷ required ∷ []
    → paid_denomination got ≡ some denomination
    → IsNumeric (head_or_empty (split required denomination))
    → parse_suggested_fee raw_log ≡ none
unfolding parse_suggested_fee
parse_suggested_fee-none raw_log got required denomination parts paid numeric =
    rw parts (rw paid (rw (from_last-none _ numeric)))
