-- ===== src/Tests/Data.antt =====
-- The data of the runs: a digest that is the text itself, padded or cut to 32 bytes, and a verifier
-- that accepts the signature of 64 zeros.
use pc_helper_ios.Prelude.{ℕ, zero, suc, [], ◌∷◌, ◌++◌, take, Text, text_eq}
use pc_helper_ios.Crypto.Verify.{Primitives}

abbrev pub zeros : ℕ → Text
zeros zero = []
zeros (suc n) = 0 ∷ zeros n

abbrev pub letters : ℕ → Text
letters zero = []
letters (suc n) = 65 ∷ letters n

abbrev pub toy : Primitives
toy = record {
  sha256 = λ s. take 32 (s ++ zeros 32);
  verifies = λ key signature message. text_eq signature (zeros 64);
}

-- the encodings of 16 and of 64 zeros
abbrev pub zero_id : Text
zero_id = letters 22

abbrev pub zero_signature : Text
zero_signature = letters 86
