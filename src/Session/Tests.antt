-- ===== src/Session/Tests.antt =====
-- A stand-in for the cryptography that meets the laws, and a token.
use breckr.Base.{
  ok, text_beq, Text, codes, ◌+◌, ◌-◌, ◌*◌, true, some, [], ◌∷◌, ◌++◌, ◌≡◌, ◌≢◌, All, refl, arith,
  ap,
}
use breckr.Session.{
  big_endian, new_sessions, verify, cut, is_live, hkdf_info, token_context, Crypto, Sessions, auto,
  issue, authenticated, second, sign,
}
use breckr.Session.Tokens.{token, issue-authenticated, authenticated_twice}

abbrev plain_encode : Text → Text
plain_encode [] = []
plain_encode (c ∷ s) = (c + 47) ∷ plain_encode s

abbrev plain_decode : Text → Text
plain_decode [] = []
plain_decode (c ∷ s) = (c - 47) ∷ plain_decode s

plain_decode-plain_encode : (s : Text) → plain_decode (plain_encode s) ≡ s
plain_decode-plain_encode [] = refl
plain_decode-plain_encode (c ∷ s) =
    let first : c + 47 - 47 ≡ c = omega arith in
    rw first (ap (λ t. c ∷ t) (plain_decode-plain_encode s))

plain_no_dot : (s : Text) → All (λ c. c ≢ 46) (plain_encode s)
plain_no_dot [] = tt
plain_no_dot (c ∷ s) = (λ e. omega arith, plain_no_dot s)

abbrev plain : Crypto
plain = record {
  sha256 = λ s. s;
  hmac = λ key s. key ++ s;
  hkdf = λ master salt info. ok master;
  encode = plain_encode;
  decode = λ s. some (plain_decode s);
  decode-encode = λ s. ap some (plain_decode-plain_encode s);
  no_dot = plain_no_dot;
}

abbrev some_nonce : Text
some_nonce = 1 ∷ 2 ∷ 3 ∷ 4 ∷ 5 ∷ 6 ∷ 7 ∷ 8 ∷ 9 ∷ 10 ∷ 11 ∷ 12 ∷ 13 ∷ 14 ∷ 15 ∷ 16 ∷ []

abbrev sessions_with : Text → Sessions
sessions_with key = record {
  password = codes "secret";
  signing_key = key;
  ttl = 60 * second;
  secure = auto;
}

-- Issued in the second 1000 for a minute, brought back in the second 1059.
issue-authenticated_example :
    (t : Text) × (issue plain (sessions_with (1 ∷ [])) (1000 * second) (some some_nonce) ≡ some t)
    × (authenticated plain (sessions_with (1 ∷ [])) (1059 * second) (some t) ≡ true)
issue-authenticated_example =
    issue-authenticated plain (sessions_with (1 ∷ [])) (1000 * second) (1059 * second) some_nonce
      refl (omega arith)

abbrev made_with : Text → Sessions
made_with password = record {
  password = password;
  signing_key = 1 ∷ [];
  ttl = 60 * second;
  secure = auto;
}

-- A key derivation that forgets the password: one token is good under two.
authenticated_twice_example :
    (key key' payload : Text) × (plain.hkdf (1 ∷ []) (codes "old") hkdf_info ≡ ok key)
    × (plain.hkdf (1 ∷ []) (codes "new") hkdf_info ≡ ok key')
    × (token plain (made_with (codes "old")) 0 0 some_nonce
        ≡ payload ++ 46 ∷ plain.encode (plain.hmac key (token_context ++ payload)))
    × (plain.hmac key (token_context ++ payload) ≡ plain.hmac key' (token_context ++ payload))
unfolding new_sessions authenticated verify cut sign is_live big_endian text_beq
authenticated_twice_example =
    authenticated_twice plain (1 ∷ []) (codes "old") (codes "new")
      (token plain (made_with (codes "old")) 0 0 some_nonce) (60 * second) (60 * second) 5 6 auto
      auto (made_with (codes "old")) (made_with (codes "new")) refl refl refl refl refl refl
