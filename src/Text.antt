-- ===== src/Text.antt =====
-- What the program uses of Go's strconv and fmt on numbers: decimal texts both ways. Numbers are read
-- over the code points of a text.
pub mod Decimal
pub mod Scan
use Prim.Native.Char.{Char, code}
use Prim.Native.String.append
use monitoring_tool.Prelude.{
  ℕ, zero, suc, ◌+◌, ◌-◌, ◌*◌, ◌/◌, ◌%◌, ◌^◌, ◌≤◌, ◌<◌, ◌≡◌, refl, ◌∙◌, ap, Bool, true, false, ◌&&◌,
  String, ◌<>◌, List, [], ◌∷◌, ◌++◌, Option, none, some, arith, leb, ltb, ◌==◌, if◌then◌else◌, ℤ,
  pos, negsuc, neg_ℕ,
}

unfoldable pub codes : String → List ℕ
codes String.[] = []
codes (String.◌∷◌ c s) = code c ∷ codes s

pub codes-<> : (s t : String) → codes (s <> t) ≡ codes s ++ codes t
unfolding codes
codes-<> String.[] t = rw append.nil refl
codes-<> (String.◌∷◌ c s) t = rw append.cons (ap (◌∷◌ (code c)) (codes-<> s t))

abbrev pub is_digit : ℕ → Bool
is_digit c = leb b'0' c && leb c b'9'

-- The value of digits, from the left, and `none` at anything else.
unfoldable pub digits_value : ℕ → List ℕ → Option ℕ
digits_value n [] = some n
digits_value n (c ∷ cs) =
    let rest = digits_value (n * 10 + (c - b'0')) cs in if is_digit c then rest else none

abbrev pub some_digits : List ℕ → Option ℕ
some_digits [] = none
some_digits (c ∷ cs) = digits_value 0 (c ∷ cs)

-- `int` has 64 bits.
abbrev pub int_max : ℕ
int_max = 2 ^ 63 - 1

abbrev pub non_negative : Option ℕ → Option ℤ
non_negative none = none
non_negative (some n) = if leb n int_max then some (pos n) else none

abbrev pub negative : Option ℕ → Option ℤ
negative none = none
negative (some n) = if leb n (2 ^ 63) then some (neg_ℕ n) else none

abbrev pub signed : List ℕ → Option ℤ
signed [] = none
signed (c ∷ cs) =
    if c == b'-'
    then negative (some_digits cs)
    else if c == b'+'
    then non_negative (some_digits cs)
    else non_negative (some_digits (c ∷ cs))

-- `strconv.Atoi`; `none` is any of its errors.
unfoldable pub atoi : String → Option ℤ
unfolding codes digits_value
atoi s = signed (codes s)

unfoldable pub digit_text : ℕ → String
digit_text zero = "0"
digit_text (suc zero) = "1"
digit_text (suc (suc zero)) = "2"
digit_text (suc (suc (suc zero))) = "3"
digit_text (suc (suc (suc (suc zero)))) = "4"
digit_text (suc (suc (suc (suc (suc zero))))) = "5"
digit_text (suc (suc (suc (suc (suc (suc zero)))))) = "6"
digit_text (suc (suc (suc (suc (suc (suc (suc zero))))))) = "7"
digit_text (suc (suc (suc (suc (suc (suc (suc (suc zero)))))))) = "8"
digit_text _ = "9"

-- `%d` of a number that is not negative, on fuel.
unfoldable pub show_fuel : ℕ → ℕ → String
unfolding digit_text
show_fuel zero n = ""
show_fuel (suc fuel) n =
    let front = show_fuel fuel (n / 10) in
    if ltb n 10 then digit_text n else front <> digit_text (n % 10)

unfoldable pub show_ℕ : ℕ → String
unfolding show_fuel
show_ℕ n = show_fuel (suc n) n

-- `%d` of an `int` and, from its bit pattern, of an `int32`.
unfoldable pub show_ℤ : ℤ → String
unfolding show_ℕ
show_ℤ (pos n) = show_ℕ n
show_ℤ (negsuc n) = "-" <> show_ℕ (n + 1)

unfoldable pub show_int32 : ℕ → String
unfolding show_ℕ
show_int32 n = if ltb n (2 ^ 31) then show_ℕ n else "-" <> show_ℕ (2 ^ 32 - n)
