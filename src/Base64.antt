-- ===== src/Base64.antt =====
-- Go's encoding/base64, as far as the program calls it: the standard and the URL alphabet, padded.
use nebari_infrastructure_co.Prelude.{
  ℕ, zero, suc, ◌+◌, ◌*◌, ◌/◌, ◌%◌, code, String, ◌<>◌, ◌≡◌, refl, List, [], ◌∷◌, ◌++◌, ltb,
  if◌then◌else◌,
}

abbrev std_alphabet : String
std_alphabet = "ABCDEFGHIJKLMNOPQRSTUVWXYZabcdefghijklmnopqrstuvwxyz0123456789+/"

abbrev url_alphabet : String
url_alphabet = "ABCDEFGHIJKLMNOPQRSTUVWXYZabcdefghijklmnopqrstuvwxyz0123456789-_"

-- The six-bit digits of the bytes, each group of three giving four.
unfoldable pub sextets : List ℕ → List ℕ
sextets [] = []
sextets (a ∷ []) = a / 4 ∷ a % 4 * 16 ∷ []
sextets (a ∷ b ∷ []) = a / 4 ∷ (a % 4 * 16 + b / 16) ∷ b % 16 * 4 ∷ []
sextets (a ∷ b ∷ c ∷ r) = a / 4 ∷ (a % 4 * 16 + b / 16) ∷ (b % 16 * 4 + c / 64) ∷ c % 64 ∷ sextets r

-- The text at a digit of the alphabet, one character long; past its end, none.
abbrev pub digit : String → ℕ → String
digit String.[] n = ""
digit (String.◌∷◌ c s) zero = String.◌∷◌ c ""
digit (String.◌∷◌ c s) (suc n) = digit s n

unfoldable pub write_digits : String → List ℕ → String
write_digits alphabet [] = ""
write_digits alphabet (d ∷ ds) = digit alphabet d <> write_digits alphabet ds

abbrev pub padding : List ℕ → String
padding [] = ""
padding (a ∷ []) = "=="
padding (a ∷ b ∷ []) = "="
padding (a ∷ b ∷ c ∷ r) = padding r

-- `base64.StdEncoding.EncodeToString`.
unfoldable pub encode_std : List ℕ → String
unfolding sextets write_digits
encode_std bytes = write_digits std_alphabet (sextets bytes) <> padding bytes

-- `base64.URLEncoding.EncodeToString`.
unfoldable pub encode_url : List ℕ → String
unfolding sextets write_digits
encode_url bytes = write_digits url_alphabet (sextets bytes) <> padding bytes

-- The UTF-8 bytes of a text.
abbrev pub utf8 : ℕ → List ℕ
utf8 n =
    if ltb n 0x80
    then n ∷ []
    else if ltb n 0x800
    then (0xC0 + n / 64) ∷ (0x80 + n % 64) ∷ []
    else if ltb n 0x10000
    then (0xE0 + n / 4096) ∷ (0x80 + n / 64 % 64) ∷ (0x80 + n % 64) ∷ []
    else (0xF0 + n / 262144) ∷ (0x80 + n / 4096 % 64) ∷ (0x80 + n / 64 % 64) ∷ (0x80 + n % 64) ∷ []

unfoldable pub bytes_of : String → List ℕ
bytes_of String.[] = []
bytes_of (String.◌∷◌ c s) = utf8 (code c) ++ bytes_of s

tests :
    (encode_std (bytes_of "Man") ≡ "TWFu")
    × (encode_std (bytes_of "Ma") ≡ "TWE=")
    × (encode_std (bytes_of "é?") ≡ "w6k/")
    × (encode_url (bytes_of "é?") ≡ "w6k_")
unfolding encode_std encode_url bytes_of
tests = (refl, refl, refl, refl)
