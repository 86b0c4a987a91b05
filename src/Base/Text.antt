-- ===== src/Base/Text.antt =====
-- Rust's `str` functions that the daemon uses, over the native `String`.
use Prim.Native.Nat.{ℕ, zero, suc, ◌+◌, ◌/◌, ◌%◌, ◌-◌}
use Prim.Native.Char.{code}
use Prim.Native.String.{String, ◌++◌ as append_text}
use mathlib.Core.List.{List, [], ◌∷◌}
use mathlib.Core.Bool.{Bool, true, false, ◌&&◌, ◌||◌}
use mathlib.Core.Path.{◌≡◌, refl}
use subspace_daemon.Base.Tests.{ltb, leb, eqb, if◌then◌else◌}

-- `char::is_whitespace`: the code points with the property White_Space
pub is_whitespace : ℕ → Bool
is_whitespace c =
    leb 0x9 c && leb c 0xd
    || eqb c 0x20
    || eqb c 0x85
    || eqb c 0xa0
    || eqb c 0x1680
    || leb 0x2000 c && leb c 0x200a
    || eqb c 0x2028
    || eqb c 0x2029
    || eqb c 0x202f
    || eqb c 0x205f
    || eqb c 0x3000

abbrev pub is_empty_text : String → Bool
is_empty_text String.[] = true
is_empty_text (String.◌∷◌ c s) = false

pub trim_start : String → String
unfolding is_whitespace
trim_start String.[] = ""
trim_start (String.◌∷◌ c s) =
    let rest = trim_start s in if is_whitespace (code c) then rest else String.◌∷◌ c s

pub trim_end : String → String
unfolding is_whitespace
trim_end String.[] = ""
trim_end (String.◌∷◌ c s) =
    let rest = trim_end s in
    if is_whitespace (code c) && is_empty_text rest then "" else String.◌∷◌ c rest

-- `str::trim`
unfoldable pub trim : String → String
unfolding trim_start trim_end
trim s = trim_end (trim_start s)

-- `<` on `str` orders by bytes; in UTF-8 that is the order of the code points.
unfoldable pub text_lt : String → String → Bool
text_lt s String.[] = false
text_lt String.[] (String.◌∷◌ d t) = true
text_lt (String.◌∷◌ c s) (String.◌∷◌ d t) =
    let rest = text_lt s t in
    if ltb (code c) (code d) then true else if eqb (code c) (code d) then rest else false

trim_both : trim "  a b\n" ≡ "a b"
unfolding trim
trim_both = refl

text_lt_prefix : text_lt "ab" "abc" ≡ true
unfolding text_lt
text_lt_prefix = refl

abbrev pub digit : ℕ → String
digit zero = "0"
digit (suc zero) = "1"
digit (suc (suc zero)) = "2"
digit (suc (suc (suc zero))) = "3"
digit (suc (suc (suc (suc zero)))) = "4"
digit (suc (suc (suc (suc (suc zero))))) = "5"
digit (suc (suc (suc (suc (suc (suc zero)))))) = "6"
digit (suc (suc (suc (suc (suc (suc (suc zero))))))) = "7"
digit (suc (suc (suc (suc (suc (suc (suc (suc zero)))))))) = "8"
digit _ = "9"

-- `format!("{n}")`; the fuel `n + 1` is more than the digits of `n`.
unfoldable pub decimal_fuel : ℕ → ℕ → String
decimal_fuel zero n = ""
decimal_fuel (suc f) n =
    let front = append_text (decimal_fuel f (n / 10)) (digit (n % 10)) in
    if ltb n 10 then digit n else front

unfoldable pub decimal : ℕ → String
unfolding decimal_fuel
decimal n = decimal_fuel (n + 1) n

decimal_runs : decimal 1205 ≡ "1205"
unfolding decimal
decimal_runs = refl

abbrev pub text_length : String → ℕ
text_length String.[] = 0
text_length (String.◌∷◌ c s) = suc (text_length s)

-- `str::starts_with`
abbrev pub starts_with : String → String → Bool
starts_with s String.[] = true
starts_with String.[] (String.◌∷◌ d t) = false
starts_with (String.◌∷◌ c s) (String.◌∷◌ d t) = eqb (code c) (code d) && starts_with s t

-- `str::contains`
abbrev pub has_text : String → String → Bool
has_text t String.[] = starts_with String.[] t
has_text t (String.◌∷◌ c s) = starts_with (String.◌∷◌ c s) t || has_text t s

-- The first `skip` characters of the text are those that the last match took.
replace_from : String → String → ℕ → String → String
replace_from old fresh skip String.[] = ""
replace_from old fresh (suc skip) (String.◌∷◌ c s) = replace_from old fresh skip s
replace_from old fresh zero (String.◌∷◌ c s) = elim (starts_with (String.◌∷◌ c s) old) [
  | true ↦ append_text fresh (replace_from old fresh (text_length old - 1) s)
  | false ↦ String.◌∷◌ c (replace_from old fresh zero s)
]

-- `str::replace`, of a text that is not empty
unfoldable pub replace : String → String → String → String
unfolding replace_from
replace old fresh s = replace_from old fresh 0 s

replace_runs : replace "{{a}}" "x" "-{{a}}{{a}{{a}}" ≡ "-x{{a}x"
unfolding replace
replace_runs = refl

-- `slice::join`
unfoldable pub join : String → List String → String
join separator [] = ""
join separator (s ∷ []) = s
join separator (s ∷ t ∷ ts) = append_text s (append_text separator (join separator (t ∷ ts)))
