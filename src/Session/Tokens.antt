-- ===== src/Session/Tokens.antt =====
-- What a token that was issued says when it comes back.
use breckr.Base.{
  subst, nat_eq, nat_eq_iff, ok_injective, Result, ok, err, true, Option-cases, Text, ℕ, zero, suc,
  ◌+◌, ◌*◌, ◌/◌, ◌%◌, ◌^◌, ◌<◌, false, ◌&&◌, ◌||◌, some, [], ◌∷◌, ◌++◌, length, length-append, ltb,
  is_empty, ◌==◌, Text_eq, ==_refl, ◌≡◌, ◌≢◌, All, refl, ◌∙◌, ap, sym, arith, Bool-cases, inl, inr,
}
use breckr.Store.Database.{Error}
use breckr.Session.{
  CookieSecure, new_sessions, hkdf_info, token_context, Crypto, Sessions, nonce_size, second,
  big_endian, big_endian_value, take, cut, sign, mint, is_live, verify, authenticated, issue,
}

-- One more than the largest number of k bytes.
abbrev capacity : ℕ → ℕ
capacity zero = 1
capacity (suc k) = capacity k * 256

big_endian_value-append :
    (acc : ℕ) (s : Text) (b : ℕ)
    → big_endian_value acc (s ++ b ∷ []) ≡ big_endian_value acc s * 256 + b
unfolding big_endian_value
big_endian_value-append acc [] b = refl
big_endian_value-append acc (c ∷ s) b = big_endian_value-append (acc * 256 + c) s b

big_endian_value-big_endian : (k n : ℕ) → n < capacity k → big_endian_value 0 (big_endian k n) ≡ n
unfolding big_endian_value big_endian
big_endian_value-big_endian zero n h = omega arith
big_endian_value-big_endian (suc k) n h =
    let rest = big_endian_value-big_endian k (n / 256) (omega arith) in
    big_endian_value-append 0 (big_endian k (n / 256)) (n % 256) ∙ omega (arith, rest)

length-big_endian : (k n : ℕ) → length (big_endian k n) ≡ k
unfolding big_endian
length-big_endian zero n = refl
length-big_endian (suc k) n =
    omega
      (arith, length-append (big_endian k (n / 256)) (n % 256 ∷ []), length-big_endian k (n / 256))

take-append : (s t : Text) → take (length s) (s ++ t) ≡ s
unfolding take
take-append [] t = refl
take-append (c ∷ s) t = ap (λ r. c ∷ r) (take-append s t)

cut-append : (s t : Text) → All (λ c. c ≢ 46) s → cut (s ++ 46 ∷ t) ≡ some (s, t)
unfolding cut
cut-append [] t h = refl
cut-append (c ∷ s) t (h, hs) = ground (arith, h, cut-append s t hs)

==-false : (a b : Text) → b ≢ a → (a == b) ≡ false
==-false a b h = elim (Bool-cases (a == b)) [
  | inl e ↦ absurd (h (sym ((Text_eq.beq_iff a b).0 e)))
  | inr e ↦ e
]

module _ (x : Crypto) where
  is_live-mint :
      (now at : ℕ) (nonce : Text)
      → at < 2 ^ 63
      → length nonce ≡ nonce_size
      → is_live x now (some (big_endian 8 at ++ nonce)) ≡ ltb now (at * second)
  unfolding is_live
  is_live-mint now at nonce small sized =
      let value : big_endian_value 0 (take 8 (big_endian 8 at ++ nonce)) ≡ at =
        ap (λ n. big_endian_value 0 (take n (big_endian 8 at ++ nonce)))
          (sym (length-big_endian 8 at))
        ∙ ap (big_endian_value 0) (take-append (big_endian 8 at) nonce)
        ∙ big_endian_value-big_endian 8 at (omega arith) in
      let whole : length (big_endian 8 at ++ nonce) ≡ 24 =
        omega (arith, length-append (big_endian 8 at) nonce, length-big_endian 8 at) in
      rw value (ground (arith, whole, small))

  -- A token that was made for a payload, read by sessions with this key.
  verify-token :
      (s s' : Sessions) (now : ℕ) (raw : Text)
      → verify x s' now (x.encode raw ++ 46 ∷ sign x s (x.encode raw))
        ≡ (sign x s (x.encode raw) == sign x s' (x.encode raw) && is_live x now (some raw))
  unfolding verify
  verify-token s s' now raw =
      rw (cut-append (x.encode raw) (sign x s (x.encode raw)) (x.no_dot raw), verify)
        (rw (x.decode-encode raw) refl)

  module _ (s : Sessions) (now later : ℕ) (nonce : Text) where
    -- The token that `issue` gives.
    abbrev pub token : Text
    token =
        let payload = x.encode (big_endian 8 ((now + s.ttl) / second % 2 ^ 64) ++ nonce) in
        payload ++ 46 ∷ sign x s payload

    -- With a nonce of the right size and an expiry below 2^63 seconds, Issue gives a token, and a
    -- request that brings it back is authenticated exactly until the lifetime has passed, to the
    -- second, or if there is no password.
    pub issue-authenticated :
        length nonce ≡ nonce_size
        → (now + s.ttl) / second < 2 ^ 63
        → (t : Text) × (issue x s now (some nonce) ≡ some t)
          × (authenticated x s later (some t)
              ≡ (is_empty s.password || ltb later ((now + s.ttl) / second * second)))
    unfolding issue mint authenticated
    issue-authenticated sized small =
        let at = (now + s.ttl) / second in
        let same : at % 2 ^ 64 ≡ at = omega arith in
        let live : is_live x later (some (big_endian 8 (at % 2 ^ 64) ++ nonce))
            ≡ ltb later (at * second) =
          ap (λ n. is_live x later (some (big_endian 8 n ++ nonce))) same
          ∙ is_live-mint later at nonce small sized in
        let raw = big_endian 8 (at % 2 ^ 64) ++ nonce in
        let verified : verify x s later token ≡ ltb later (at * second) =
          verify-token s s later raw ∙ rw (==_refl (sign x s (x.encode raw))) live in
        (
          token,
          refl,
          elim (Bool-cases (is_empty s.password)) [ inl e ↦ rw e refl | inr e ↦ rw e verified ],
        )

cut-inverse : (s : Text) (q : Text × Text) → cut s ≡ some q → s ≡ q.0 ++ 46 ∷ q.1
unfolding cut
cut-inverse [] q h = cc h
cut-inverse (c ∷ s) q h = elim (Bool-cases (nat_eq c 46)) [
  | inl e ↦
      let is : ([], s) ≡ q = cc (rw (cut, e) at h) in
      subst (λ (p : Text × Text). c ∷ s ≡ p.0 ++ 46 ∷ p.1) is
        (ap (λ d. d ∷ s) ((nat_eq_iff c 46).0 e))
  | inr e ↦ elim (Option-cases (cut s)) [
    | inl f ↦ cc (rw (cut, e, f) at h)
    | inr (p, f) ↦
        let is : (c ∷ p.0, p.1) ≡ q = cc (rw (cut, e, f) at h) in
        subst (λ (r : Text × Text). c ∷ s ≡ r.0 ++ 46 ∷ r.1) is
          (ap (λ t. c ∷ t) (cut-inverse s p f))
  ]
]

module _ (x : Crypto) where
  -- A token that is accepted is a payload and its signature.
  verify-signed :
      (s : Sessions) (now : ℕ) (t : Text)
      → verify x s now t ≡ true
      → (q : Text × Text) × (cut t ≡ some q) × (q.1 ≡ sign x s q.0)
  unfolding verify
  verify-signed s now t h = elim (Option-cases (cut t)) [
    | inl e ↦ cc (rw (verify, e) at h)
    | inr (q, e) ↦
        (q, e, (Text_eq.beq_iff q.1 (sign x s q.0)).0 (ground (arith, rw (verify, e) at h)))
  ]

  encode-injective : (a b : Text) → x.encode a ≡ x.encode b → a ≡ b
  encode-injective a b h = cc (sym (x.decode-encode a) ∙ ap x.decode h ∙ x.decode-encode b)

  new_sessions-key :
      (master_key password : Text) (ttl : ℕ) (c : CookieSecure) (s : Sessions)
      → new_sessions x master_key password ttl c ≡ ok s
      → (key : Text) × (x.hkdf master_key (x.sha256 password) hkdf_info ≡ ok key)
        × (s.password ≡ password)
        × (s.signing_key ≡ key)
  unfolding new_sessions
  new_sessions-key master_key password ttl c s h =
      go (x.hkdf master_key (x.sha256 password) hkdf_info) refl
    where
      made : Text → Sessions
      made key = record { password = password; signing_key = key; ttl = ttl; secure = c }

      go :
          (r : Result Error Text)
          → x.hkdf master_key (x.sha256 password) hkdf_info ≡ r
          → (key : Text) × (x.hkdf master_key (x.sha256 password) hkdf_info ≡ ok key)
            × (s.password ≡ password)
            × (s.signing_key ≡ key)
      go (err e) q = cc (rw (new_sessions, q) at h)
      go (ok key) q =
          let is : made key ≡ s = ok_injective (rw (new_sessions, q) at h) in
          (
            key,
            q,
            ap (λ (y : Sessions). y.password) (sym is),
            ap (λ (y : Sessions). y.signing_key) (sym is),
          )

  guarded :
      (s : Sessions) (now : ℕ) (t : Text)
      → is_empty s.password ≡ false
      → authenticated x s now (some t) ≡ true
      → verify x s now t ≡ true
  unfolding authenticated
  guarded s now t e a = rw (authenticated, e) at a

  sign-key :
      (s : Sessions) (payload : Text)
      → sign x s payload ≡ x.encode (x.hmac s.signing_key (token_context ++ payload))
  unfolding sign
  sign-key s payload = refl

  -- A token that the sessions of one password accept, and those of another password under the
  -- same master key accept too, is a payload and its signature, and HMAC agrees on the payload
  -- under the two keys that are derived from the passwords.
  pub authenticated_twice :
      (master_key password password' t : Text) (ttl ttl' now now' : ℕ) (c c' : CookieSecure)
      (s s' : Sessions)
      → new_sessions x master_key password ttl c ≡ ok s
      → new_sessions x master_key password' ttl' c' ≡ ok s'
      → is_empty password ≡ false
      → is_empty password' ≡ false
      → authenticated x s now (some t) ≡ true
      → authenticated x s' now' (some t) ≡ true
      → (key key' payload : Text) × (x.hkdf master_key (x.sha256 password) hkdf_info ≡ ok key)
        × (x.hkdf master_key (x.sha256 password') hkdf_info ≡ ok key')
        × (t ≡ payload ++ 46 ∷ x.encode (x.hmac key (token_context ++ payload)))
        × (x.hmac key (token_context ++ payload) ≡ x.hmac key' (token_context ++ payload))
  authenticated_twice master_key password password' t ttl ttl' now now' c c' s s' m m' g g' a a' =
      let (key, k, p, is) = new_sessions-key master_key password ttl c s m in
      let (key', k', p', is') = new_sessions-key master_key password' ttl' c' s' m' in
      let (q, e, mac) = verify-signed s now t (guarded s now t (ap is_empty p ∙ g) a) in
      let (q', e', mac') = verify-signed s' now' t (guarded s' now' t (ap is_empty p' ∙ g') a') in
      let same : q ≡ q' = cc (e, e') in
      let signed = λ (n : Text). x.encode (x.hmac n (token_context ++ q.0)) in
      let first : q.1 ≡ signed key = mac ∙ sign-key s q.0 ∙ ap signed is in
      let second : q.1 ≡ signed key' =
        ap (λ (r : Text × Text). r.1) same
        ∙ mac'
        ∙ ap (λ (r : Text × Text). sign x s' r.0) (sym same)
        ∙ sign-key s' q.0
        ∙ ap signed is' in
      (
        key,
        key',
        q.0,
        k,
        k',
        cut-inverse t q e ∙ ap (λ n. q.0 ++ 46 ∷ n) first,
        encode-injective _ _ (sym first ∙ second),
      )
