-- ===== src/NameTag/Format.antt =====
-- The regular expressions NAME_TAG and URL of REGEX_PARTERN in src/shared/constants/common.ts, as
-- functions on the code points of a text.
use Prim.Native.Char.{code}
use aura_explorer_api.Prelude.{
  ℕ, String, Bool, true, false, not, ◌&&◌, ◌||◌, ◌==◌, nat_eq, leb, List, [], ◌∷◌, ◌≡◌, refl,
}

abbrev pub codes : String → List ℕ
codes String.[] = []
codes (String.◌∷◌ c s) = code c ∷ codes s

abbrev between : ℕ → ℕ → ℕ → Bool
between lo hi c = leb lo c && leb c hi

-- `\s`
unfoldable pub is_space : ℕ → Bool
is_space c =
    between 9 13 c
    || c == 32
    || c == 160
    || c == 5760
    || between 8192 8202 c
    || c == 8232
    || c == 8233
    || c == 8239
    || c == 8287
    || c == 12288
    || c == 65279

-- `[a-zA-Z0-9._-\s]`
unfoldable pub is_tag_char : ℕ → Bool
unfolding is_space
is_tag_char c =
    between b'a' b'z' c
    || between b'A' b'Z' c
    || between b'0' b'9' c
    || c == b'.'
    || c == b'_'
    || c == b'-'
    || is_space c

unfoldable pub all_codes : (ℕ → Bool) → List ℕ → Bool
all_codes p [] = true
all_codes p (c ∷ cs) = p c && all_codes p cs

some_codes : (ℕ → Bool) → List ℕ → Bool
unfolding all_codes
some_codes p [] = false
some_codes p (c ∷ cs) = p c && all_codes p cs

-- `/^[a-zA-Z0-9._-\s]+$/`
unfoldable pub matches_name_tag : String → Bool
unfolding some_codes is_tag_char
matches_name_tag s = some_codes is_tag_char (codes s)

-- A character that `.` matches, and one of `[^\s/$.?#]`.
abbrev is_dot : ℕ → Bool
is_dot c = not (c == 10 || c == 13 || c == 8232 || c == 8233)

is_host_start : ℕ → Bool
unfolding is_space
is_host_start c = not (is_space c || c == b'/' || c == b'$' || c == b'.' || c == b'?' || c == b'#')

matches_rest : List ℕ → Bool
unfolding is_host_start all_codes is_space
matches_rest (h ∷ d ∷ cs) = is_host_start h && is_dot d && all_codes (λ c. not (is_space c)) cs
matches_rest _ = false

-- What follows the text `p` in `cs` satisfies `k`.
after_prefix : List ℕ → (List ℕ → Bool) → List ℕ → Bool
after_prefix [] k cs = k cs
after_prefix (p ∷ ps) k [] = false
after_prefix (p ∷ ps) k (c ∷ cs) = p == c && after_prefix ps k cs

-- `/^(https?|ftp):\/\/[^\s/$.?#].[^\s]*$/`
unfoldable pub matches_url : String → Bool
unfolding after_prefix matches_rest
matches_url s =
    after_prefix (codes "https://") matches_rest (codes s)
    || after_prefix (codes "http://") matches_rest (codes s)
    || after_prefix (codes "ftp://") matches_rest (codes s)

name_tag_tests :
    (matches_name_tag "My tag_1.0-x" ≡ true)
    × (matches_name_tag "" ≡ false)
    × (matches_name_tag "a/b" ≡ false)
unfolding matches_name_tag
name_tag_tests = (refl, refl, refl)

url_tests :
    (matches_url "https://aura.network" ≡ true)
    × (matches_url "aura.network" ≡ false)
    × (matches_url "http://.x" ≡ false)
unfolding matches_url
url_tests = (refl, refl, refl)
