-- ===== src/Session.antt =====
-- server/internal/auth/session.go: session tokens. SHA-256, HMAC and base64 are the standard library's
-- and a parameter (Crypto); times are nanoseconds since 1970, and requests are what is read of them.
pub mod Tokens
mod Tests
use mathlib.Core.Option
use breckr.Base.{
  Text, codes, ℕ, zero, suc, ◌+◌, ◌*◌, ◌/◌, ◌%◌, ◌^◌, Bool, true, false, ◌&&◌, ◌||◌, not, Option,
  none, some, Result, ok, err, List, [], ◌∷◌, ◌++◌, length, ltb, nat_eq, is_empty, if◌then◌else◌,
  ◌==◌, Text_eq, ◌≡◌, ◌≢◌, All,
}
use breckr.Store.Database.{Error}

pub record Crypto : Type 0 where
  pub sha256 : Text → Text
  pub hmac : Text → Text → Text
  -- `hkdf.Key` over SHA-256, of the master key, a salt and an info, for 32 bytes.
  pub hkdf : Text → Text → Text → Result Error Text
  pub encode : Text → Text
  pub decode : Text → Option Text
  -- Unpadded URL-safe base64 decodes to what it encodes, in letters, digits, `-` and `_`.
  pub decode-encode : (raw : Text) → decode (encode raw) ≡ some raw
  pub no_dot : (raw : Text) → All (λ c. c ≢ 46) (encode raw)

pub data CookieSecure : Type 0 where
  auto secure_always secure_never : CookieSecure

pub record Sessions : Type 0 where
  pub password : Text
  pub signing_key : Text
  -- Nanoseconds.
  pub ttl : ℕ
  pub secure : CookieSecure

abbrev pub token_context : Text
token_context = codes "breckr.session.v1|"

abbrev pub hkdf_info : Text
hkdf_info = codes "breckr session cookie v1"

abbrev pub nonce_size : ℕ
nonce_size = 16

abbrev pub second : ℕ
second = 1000000000

-- `binary.BigEndian.PutUint64`, for any number of bytes.
unfoldable pub big_endian : ℕ → ℕ → Text
big_endian zero n = []
big_endian (suc k) n = big_endian k (n / 256) ++ n % 256 ∷ []

-- `binary.BigEndian.Uint64`, from what the bytes before have given.
unfoldable pub big_endian_value : ℕ → Text → ℕ
big_endian_value acc [] = acc
big_endian_value acc (b ∷ bs) = big_endian_value (acc * 256 + b) bs

-- `raw[:n]`.
unfoldable pub take : ℕ → Text → Text
take zero s = []
take (suc n) [] = []
take (suc n) (c ∷ s) = c ∷ take n s

-- `strings.Cut(token, ".")`.
unfoldable pub cut : Text → Option (Text × Text)
cut [] = none
cut (c ∷ s) =
    let rest = cut s in
    if nat_eq c 46 then some ([], s) else elim rest [ none ↦ none | some p ↦ some (c ∷ p.0, p.1) ]

module _ (x : Crypto) where
  -- `NewSessions`: the password salts the signing key.
  unfoldable pub new_sessions : Text → Text → ℕ → CookieSecure → Result Error Sessions
  new_sessions master_key password ttl secure =
      elim (x.hkdf master_key (x.sha256 password) hkdf_info) [
        | err e ↦ err e
        | ok key ↦
            ok (record { password = password; signing_key = key; ttl = ttl; secure = secure })
      ]

  unfoldable pub sign : Sessions → Text → Text
  sign s payload = x.encode (x.hmac s.signing_key (token_context ++ payload))

  -- `mint`, for the nonce that was read, or none if none could be.
  unfoldable pub mint : Sessions → ℕ → Option Text → Option Text
  unfolding sign big_endian
  mint s expiry none = none
  mint s expiry (some nonce) =
      let payload = x.encode (big_endian 8 (expiry / second % 2 ^ 64) ++ nonce) in
      some (payload ++ 46 ∷ sign s payload)

  -- The end of `verify`: a second from 2^63 on is negative as an int64, and lies before 1970.
  unfoldable pub is_live : ℕ → Option Text → Bool
  unfolding big_endian_value take
  is_live now none = false
  is_live now (some raw) =
      let expiry = big_endian_value 0 (take 8 raw) in
      nat_eq (length raw) (8 + nonce_size) && ltb expiry (2 ^ 63) && ltb now (expiry * second)

  unfoldable pub verify : Sessions → ℕ → Text → Bool
  unfolding cut sign is_live
  verify s now token = elim (cut token) [
    | none ↦ false
    | some p ↦ p.1 == sign s p.0 && is_live now (x.decode p.0)
  ]

  -- `Authenticated`, for the cookie of the request.
  unfoldable pub authenticated : Sessions → ℕ → Option Text → Bool
  unfolding verify
  authenticated s now cookie =
      if is_empty s.password
      then true
      else elim cookie [ none ↦ false | some token ↦ verify s now token ]

  -- The token of `Issue`.
  unfoldable pub issue : Sessions → ℕ → Option Text → Option Text
  unfolding mint
  issue s now nonce = mint s (now + s.ttl) nonce

  unfoldable pub password_matches : Sessions → Text → Bool
  password_matches s submitted = x.sha256 s.password == x.sha256 submitted

-- `secureFor`, for a request over TLS or not, and whether its X-Forwarded-Proto says https.
unfoldable pub secure_for : Sessions → Bool → Bool → Bool
secure_for s tls forwarded_https = elim s.secure [
  | secure_always ↦ true
  | secure_never ↦ false
  | auto ↦ tls || forwarded_https
]
