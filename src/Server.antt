-- ===== src/Server.antt =====
-- cmd/server/main.go: the environment of the gateway and how a value is read from it. A call of
-- log.Fatalf is an error of its own.
pub mod Senders
pub mod Start
pub mod Shutdown
pub mod Decimal
mod Tests
use atproto_push_gateway.Base.{
  ℕ, ◌-◌, ◌^◌, ◌==◌, Text, Bytes, Bool, true, false, not, ◌&&◌, ◌||◌, List, [], ◌∷◌, Option, none,
  some, lit, leb, ltb, nat_eq, if◌then◌else◌, some_of, map, horner, Result, ok, err,
}

-- Where log.Fatalf is called, with the key of a variable that is no positive integer.
pub data Fatal : Type 0 where
  bad_did bad_store bad_apns_base64 bad_apns_sender bad_fcm_base64 bad_fcm_sender : Fatal
  relay_wants_data_only : Fatal
  bad_integer : (key : Text) → Fatal

-- The variables of the environment ("" where one is not set), os.ReadFile, the two decoders of
-- encoding/base64, and what the two senders' constructors call.
pub record Platform : Type 0 where
  pub getenv : Text → Text
  pub read_file : Text → Option Bytes
  pub decode_std : Text → Option Bytes
  pub decode_raw_std : Text → Option Bytes
  pub is_ecdsa_key : Bytes → Bool
  pub project_id : Bytes → Option Text
  pub has_credentials : Bytes → Bool

abbrev pub max_int64 : ℕ
max_int64 = 2 ^ 63 - 1

unfoldable pub is_digit : ℕ → Bool
is_digit c = leb b'0' c && leb c b'9'

unfoldable pub digits_value : Text → Option ℕ
unfolding is_digit
digits_value s =
    if s == [] || some_of (λ c. not (is_digit c)) s
    then none
    else some (horner 10 0 (map (λ c. c - b'0') s))

-- strconv.ParseInt in base 10, for 64 bits, and the test n <= 0: a number with a minus fails it.
unfoldable pub parse_positive : Text → Option ℕ
unfolding digits_value
parse_positive s = elim (digits_value (after_plus s)) [
  | none ↦ none
  | some n ↦ if ltb max_int64 n || nat_eq n 0 then none else some n
]
  where
    after_plus : Text → Text
    after_plus [] = []
    after_plus (c ∷ rest) = if nat_eq c b'+' then rest else c ∷ rest

module _ (p : Platform) where
  unfoldable pub get_env : (key fallback : Text) → Text
  get_env key fallback = if not (p.getenv key == []) then p.getenv key else fallback

  unfoldable pub get_env_int64 : (key : Text) → (fallback : ℕ) → Result Fatal ℕ
  unfolding parse_positive
  get_env_int64 key fallback =
      if p.getenv key == []
      then ok fallback
      else elim (parse_positive (p.getenv key)) [ none ↦ err (bad_integer key) | some n ↦ ok n ]

  -- getEnv(key, fallback) == "true"
  unfoldable pub is_true : (key fallback : Text) → Bool
  unfolding get_env
  is_true key fallback = get_env key fallback == lit "true"
