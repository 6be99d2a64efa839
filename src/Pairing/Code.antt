-- ===== src/Pairing/Code.antt =====
-- pc-service/src/wol_unlock/pairing.py: the pairing code, and the cleaning of what a phone sends.
use pc_helper_ios.Prelude.{
  ℕ, zero, suc, ◌||◌, List, [], ◌∷◌, ◌++◌, map, ◌==◌, if◌then◌else◌, length, take, drop, keep, Text,
  codes,
}
use pc_helper_ios.Unicode.{Unicode, to_upper, to_lower, words_from, unwords, utf8}

-- "0123456789ABCDEFGHJKMNPQRSTVWXYZ"
abbrev pub code_alphabet : Text
code_alphabet = codes "0123456789ABCDEFGHJKMNPQRSTVWXYZ"

abbrev pub code_length : ℕ
code_length = 8

-- `s[i]`, for an index in range
abbrev pub char_at : Text → ℕ → ℕ
char_at [] i = 0
char_at (c ∷ s) zero = c
char_at (c ∷ s) (suc i) = char_at s i

-- one `secrets.choice` for each character: the draws are indices below 32
unfoldable pub generate_code : List ℕ → Text
generate_code [] = []
generate_code (d ∷ draws) = char_at code_alphabet d ∷ generate_code draws

-- `_FOLD`
unfoldable pub fold : ℕ → ℕ
fold c =
    if c == b'I' || c == b'L'
    then b'1'
    else if c == b'O'
    then b'0'
    else if c == b'U'
    then b'V'
    else c

module _ (u : Unicode) where
  unfoldable pub normalize_code : Text → Text
  unfolding fold
  normalize_code value = map fold (keep u.is_alnum (to_upper u value))

  -- `" ".join(value.split())[:64] or "Unnamed device"`
  unfoldable pub clean_name : Text → Text
  unfolding words_from unwords
  clean_name value =
      let name = take 64 (unwords (words_from u.is_space [] value)) in
      if length name == 0 then codes "Unnamed device" else name

  unfoldable pub clean_platform : Text → Text
  clean_platform value =
      take 16 (keep (λ c. u.is_alnum c || c == b'-' || c == b'_') (to_lower u value))

unfoldable pub format_code : Text → Text
format_code code = if length code == code_length then take 4 code ++ b'-' ∷ drop 4 code else code

-- `sha256(f"wol-unlock/v1/code\n{code}\n".encode())`
unfoldable pub hash_code : (Text → Text) → Text → Text
unfolding utf8
hash_code sha256 code = sha256 (utf8 (codes "wol-unlock/v1/code" ++ 10 ∷ (code ++ 10 ∷ [])))
