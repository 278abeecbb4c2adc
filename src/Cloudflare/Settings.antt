-- ===== src/Cloudflare/Settings.antt =====
-- `extractCloudflareConfig` of pkg/providers/dns/cloudflare/provider.go, by way of the JSON text
-- that encoding/json writes and reads.
use nebari_infrastructure_co.Prelude.{
  ℕ, ◌+◌, String, ◌<>◌, ◌≡◌, refl, Bool, true, false, not, ◌&&◌, Option, none, some, List, [], ◌∷◌,
  ◌==◌, leb, nat_eq, if◌then◌else◌, Result, ok, err, ◌>>=◌, ◌>>◌, fail_if,
}
use Prim.Native.String.{compare}
use text.Mathlib.Text.{is_lt}
use nebari_infrastructure_co.Prelude.Text.{codes, has_suffix}
use nebari_infrastructure_co.Config.Value.{
  Value, null, word, plain, not_finite, sequence, mapping, Items, end_sequence, item, Fields,
  end_mapping, field,
}

pub record CloudflareConfig : Type 0 where
  pub zone_name : String

pub data SettingsError : Type 0 where
  missing : SettingsError
  not_json : SettingsError
  bad_zone_name : SettingsError
  zone_name_missing : SettingsError
  outside_zone : String → String → SettingsError

-- `json.Marshal` fails at a number that JSON cannot write.
abbrev mutual
  writable : Value → Bool
  writable null = true
  writable (word s) = true
  writable (plain s) = true
  writable not_finite = false
  writable (sequence xs) = writable_items xs
  writable (mapping fs) = writable_fields fs

  writable_items : Items → Bool
  writable_items end_sequence = true
  writable_items (item v xs) = writable v && writable_items xs

  writable_fields : Fields → Bool
  writable_fields end_mapping = true
  writable_fields (field k v fs) = writable v && writable_fields fs

abbrev lower : ℕ → ℕ
lower c = if leb b'A' c && leb c b'Z' then c + 32 else c

abbrev same_codes : List ℕ → List ℕ → Bool
same_codes [] [] = true
same_codes (c ∷ s) (d ∷ t) = nat_eq (lower c) d && same_codes s t
same_codes _ _ = false

-- The decoder takes a key for the field `zone_name` in any case.
abbrev is_zone_key : String → Bool
is_zone_key key = same_codes (codes key) (codes "zone_name")

-- Keys are written in byte order and a later one overrides an earlier.
abbrev override : String → String → Option (String × String) → Option (String × String)
override key v none = some (key, v)
override key v (some (k, w)) = if is_lt (compare k key) then some (key, v) else some (k, w)

abbrev take_zone :
    String → Value → Option (String × String) → Result SettingsError (Option (String × String))
take_zone key null best = ok best
take_zone key (word v) best = ok (override key v best)
take_zone key _ best = err bad_zone_name

unfoldable pub find_zone :
    Fields → Option (String × String) → Result SettingsError (Option (String × String))
find_zone end_mapping best = ok best
find_zone (field key v fs) best =
    if is_zone_key key then (take_zone key v best >>= λ b. find_zone fs b) else find_zone fs best

abbrev zone_text : Option (String × String) → String
zone_text none = ""
zone_text (some (key, v)) = v

unfoldable pub extract_cloudflare_config :
    String → Option Fields → Result SettingsError CloudflareConfig
unfolding find_zone
extract_cloudflare_config domain none = err missing
extract_cloudflare_config domain (some fs) = do
  fail_if (not (writable_fields fs)) not_json
  found ← find_zone fs none
  let zone = zone_text found
  fail_if (zone == "") zone_name_missing
  fail_if (not (domain == "") && not (domain == zone) && not (has_suffix ("." <> zone) domain))
      (outside_zone domain zone)
  ok (record { zone_name = zone })

zone_test :
    extract_cloudflare_config "a.x.org"
      (some (field "ttl" (plain "5") (field "zone_name" (word "x.org") end_mapping)))
    ≡ ok (record { zone_name = "x.org" })
unfolding extract_cloudflare_config has_suffix
zone_test = refl

sibling_test :
    extract_cloudflare_config "notx.org" (some (field "zone_name" (word "x.org") end_mapping))
    ≡ err (outside_zone "notx.org" "x.org")
unfolding extract_cloudflare_config has_suffix
sibling_test = refl
