-- ===== src/Prelude/Text.antt =====
-- Texts as the source builds them: `+`, `join`, and the last part of a dotted name.
use Prim.Native.String
use Prim.Native.Char.{Char, code}
use Prim.Native.String.{String}
use Prim.Native.Nat.{ℕ, zero, suc, compare, Ordering}
use mathlib.Core.Bool.{Bool, true, false, ◌||◌}
use mathlib.Core.Path.{◌≡◌, refl}
use mathlib.Core.List.{List, [], ◌∷◌}
use mathlib.Core.Option.{Option, none, some}

infixr 65 ◌<>◌
abbrev pub ◌<>◌ : String → String → String
s <> t = String.◌++◌ s t

-- `xs.join(sep)`
abbrev pub join_rest : String → List String → String
join_rest sep [] = ""
join_rest sep (s ∷ t) = sep <> (s <> join_rest sep t)

abbrev pub join : String → List String → String
join sep [] = ""
join sep (s ∷ t) = s <> join_rest sep t

abbrev is_point : Char → Bool
is_point c = elim (compare (code c) 46) [ Ordering.eq ↦ true | _ ↦ false ]

-- What follows the last point, if there is one.
abbrev after_point : String → Option String
after_point String.[] = none
after_point (String.◌∷◌ c s) = elim (after_point s) [
  | some part ↦ some part
  | none ↦ elim (is_point c) [ true ↦ some s | false ↦ none ]
]

-- `s.split('.').pop()`
abbrev pub last_part : String → String
last_part s = elim (after_point s) [ some part ↦ part | none ↦ s ]

-- `${value}` of a text that may be null.
abbrev pub text_or_null : Option String → String
text_or_null none = "null"
text_or_null (some s) = s

abbrev pub starts_with : String → String → Bool
starts_with String.[] s = true
starts_with (String.◌∷◌ c p) String.[] = false
starts_with (String.◌∷◌ c p) (String.◌∷◌ d s) =
    let rest = starts_with p s in
    elim (compare (code c) (code d)) [ Ordering.eq ↦ rest | _ ↦ false ]

-- `s.indexOf(p) !== -1`
abbrev pub contains : String → String → Bool
contains p String.[] = starts_with p String.[]
contains p (String.◌∷◌ c s) = starts_with p (String.◌∷◌ c s) || contains p s

abbrev strip_prefix : String → String → Option String
strip_prefix String.[] s = some s
strip_prefix (String.◌∷◌ c p) String.[] = none
strip_prefix (String.◌∷◌ c p) (String.◌∷◌ d s) =
    let rest = strip_prefix p s in
    elim (compare (code c) (code d)) [ Ordering.eq ↦ rest | _ ↦ none ]

-- `s.replace(p, r)`: the first place where `p` stands gets `r`.
abbrev pub replace_first : String → String → String → String
replace_first p r String.[] = elim (strip_prefix p "") [ none ↦ "" | some rest ↦ r <> rest ]
replace_first p r (String.◌∷◌ c s) = elim (strip_prefix p (String.◌∷◌ c s)) [
  | some rest ↦ r <> rest
  | none ↦ String.◌∷◌ c (replace_first p r s)
]

-- `s.substring(0, n)`
abbrev pub prefix : ℕ → String → String
prefix zero s = ""
prefix (suc n) String.[] = ""
prefix (suc n) (String.◌∷◌ c s) = String.◌∷◌ c (prefix n s)

abbrev is_char : ℕ → Char → Bool
is_char k c = elim (compare (code c) k) [ Ordering.eq ↦ true | _ ↦ false ]

-- What stands before the first character of the given code, if there is one, or else the whole text.
abbrev before_char : ℕ → String → String
before_char k String.[] = ""
before_char k (String.◌∷◌ c s) =
    let rest = String.◌∷◌ c (before_char k s) in elim (is_char k c) [ true ↦ "" | false ↦ rest ]

-- What follows the first character of the given code, if there is one.
abbrev after_char : ℕ → String → Option String
after_char k String.[] = none
after_char k (String.◌∷◌ c s) =
    let rest = after_char k s in elim (is_char k c) [ true ↦ some s | false ↦ rest ]

-- `s.split(' ')[1]`
abbrev pub second_word : String → Option String
second_word s = elim (after_char 32 s) [ none ↦ none | some rest ↦ some (before_char 32 rest) ]

-- `s.substring(0, s.indexOf('('))`, which is empty without a parenthesis.
abbrev pub before_parenthesis : String → String
before_parenthesis s = elim (after_char 40 s) [ none ↦ "" | some _ ↦ before_char 40 s ]

second_word_test :
    (second_word "function transfer(address,uint256) public" ≡ some "transfer(address,uint256)")
    × (before_parenthesis "transfer(address,uint256)" ≡ "transfer")
    × (second_word "transfer" ≡ none)
second_word_test = (refl, refl, refl)

replace_first_test : replace_first "://" "/" "ipfs://a://b" ≡ "ipfs/a://b"
replace_first_test = refl

contains_test : (contains "ibc" "uaura" ≡ false) × (contains "ibc" "an ibc/1" ≡ true)
contains_test = (refl, refl)

last_part_test : (last_part "/a.b.MsgSend" ≡ "MsgSend") × (last_part "x" ≡ "x")
last_part_test = (refl, refl)
