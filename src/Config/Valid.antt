-- ===== src/Config/Valid.antt =====
-- What a configuration that src/config.rs accepts guarantees.
use aperip_nomos.Prelude.{
  ℕ, zero, suc, ◌≤◌, ◌≡◌, refl, false, true, [], ◌∷◌, some, arith, ◌==◌, length, take, all, inl,
  inr, Bool-cases, Option-cases,
}
use aperip_nomos.Prelude.Result.{Result-cases, reject_if, ok, ok_or, >>=-eq-ok}
use aperip_nomos.Text.{Text, byte_len, trim}
use aperip_nomos.Text.Utf8.{Bytes, as_bytes, from_utf8}
use aperip_nomos.Config.{
  ConfigValues, Platform, ServiceConfig, parse_address, decode_secret, read_secret, read_page_key,
  read_admin_token, from_values, is_visible, min_admin_token_bytes, max_admin_token_bytes,
  max_secret_file_bytes,
}

-- a list that the limit does not cut
take_all : (n : ℕ) (s : Bytes) → length (take (suc n) s) ≤ n → (take (suc n) s ≡ s) × (length s ≤ n)
take_all n [] l = (refl, omega arith)
take_all zero (b ∷ s) l = absurd (omega arith)
take_all (suc n) (b ∷ s) l =
    let rest = take_all n s (omega (arith, l)) in (rw (rest.0) refl, omega (arith, rest.1))

module _ (p : Platform) where
  -- a secret is the trimmed text of a file of 1024 bytes at most
  pub record IsSecret (path secret : Text) : Type 0 where
    pub contents : Bytes
    pub decoded : Text
    pub stored : p.read path ≡ ok contents
    pub small : length contents ≤ max_secret_file_bytes
    pub readable : from_utf8 contents ≡ some decoded
    pub trimmed : secret ≡ trim decoded

  decode_secret-eq-ok :
      (path secret : Text) (bytes : Bytes)
      → decode_secret p path bytes ≡ ok secret
      → (length bytes ≤ max_secret_file_bytes)
        × ((decoded : Text) × (from_utf8 bytes ≡ some decoded) × (secret ≡ trim decoded))
  unfolding decode_secret
  decode_secret-eq-ok path secret bytes h = elim (Option-cases (from_utf8 bytes)) [
    | inl bad ↦ absurd (ground arith)
    | inr (decoded, readable) ↦ (ground arith, (decoded, readable, ground arith))
  ]

  read_secret-IsSecret :
      (path secret : Text) → read_secret p path ≡ ok secret → IsSecret path secret
  unfolding read_secret
  read_secret-IsSecret path secret h = elim (Result-cases (p.read path)) [
    | inr (e, failed) ↦ absurd (let k = rw failed at h in cc k)
    | inl (contents, stored) ↦
        let made = rw stored at h in
        let (cut, (decoded, readable, trimmed)) =
          decode_secret-eq-ok path secret (take (suc max_secret_file_bytes) contents) made in
        let all_read = take_all max_secret_file_bytes contents cut in
        record {
          contents = contents;
          decoded = decoded;
          stored = stored;
          small = all_read.1;
          readable = rw (all_read.0) at readable;
          trimmed = trimmed;
        }
  ]

  pub record IsValidConfig (values : ConfigValues) (config : ServiceConfig p) : Type 0 where
    pub public_parsed : p.parse values.public_bind_addr ≡ some config.public_bind_addr
    pub admin_parsed : p.parse values.admin_bind_addr ≡ some config.admin_bind_addr
    pub ports_differ : (p.port config.public_bind_addr == p.port config.admin_bind_addr) ≡ false
    pub same_path : config.database_path ≡ values.database_path
    pub key_length : length config.page_key ≡ 32
    pub key_secret :
        (secret : Text) × IsSecret values.page_key_file secret
        × (p.hex_decode secret ≡ some config.page_key)
    pub token_secret : IsSecret values.admin_token_file config.admin_token
    pub token_long : min_admin_token_bytes ≤ byte_len config.admin_token
    pub token_short : byte_len config.admin_token ≤ max_admin_token_bytes
    pub token_visible : all (is_visible p) (as_bytes config.admin_token) ≡ true

  read_page_key-eq-ok :
      (path : Text) (key : Bytes)
      → read_page_key p path ≡ ok key
      → (length key ≡ 32)
        × ((secret : Text) × IsSecret path secret × (p.hex_decode secret ≡ some key))
  unfolding read_page_key
  read_page_key-eq-ok path key h =
      let (secret, kept, h₁) = >>=-eq-ok (read_secret p path) _ h in
      elim (Option-cases (p.hex_decode secret)) [
        | inl bad ↦ absurd (ground arith)
        | inr (bytes, decoded) ↦ elim (Bool-cases (length bytes == 32)) [
          | inr wrong ↦ absurd (ground arith)
          | inl right ↦
              let same : bytes ≡ key = ground arith in
              (ground arith, (secret, read_secret-IsSecret path secret kept, rw same at decoded))
        ]
      ]

  read_admin_token-eq-ok :
      (path token : Text)
      → read_admin_token p path ≡ ok token
      → IsSecret path token
        × (min_admin_token_bytes ≤ byte_len token)
        × (byte_len token ≤ max_admin_token_bytes)
        × (all (is_visible p) (as_bytes token) ≡ true)
  unfolding read_admin_token
  read_admin_token-eq-ok path token h =
      let (secret, kept, h₁) = >>=-eq-ok (read_secret p path) _ h in
      let same : secret ≡ token = ground arith in
      (read_secret-IsSecret path token (rw same at kept), ground arith, ground arith, ground arith)

  -- An accepted configuration has two listeners on different ports, a key of 32 bytes, decoded from its
  -- file, and a token of 32 to 256 visible ASCII characters; both files have 1024 bytes at most.
  pub from_values-IsValidConfig :
      (values : ConfigValues) (config : ServiceConfig p)
      → from_values p values ≡ ok config
      → IsValidConfig values config
  unfolding from_values parse_address
  from_values-IsValidConfig values config h =
      let (public, h_public, h₁) = >>=-eq-ok (ok_or (p.parse values.public_bind_addr) _) _ h in
      let (admin, h_admin, h₂) = >>=-eq-ok (ok_or (p.parse values.admin_bind_addr) _) _ h₁ in
      let (u, h_ports, h₃) = >>=-eq-ok (reject_if (p.port public == p.port admin) _) _ h₂ in
      let (key, h_key, h₄) = >>=-eq-ok (read_page_key p values.page_key_file) _ h₃ in
      let (token, h_token, h₅) = >>=-eq-ok (read_admin_token p values.admin_token_file) _ h₄ in
      let same : record {
        public_bind_addr = public;
        admin_bind_addr = admin;
        database_path = values.database_path;
        page_key = key;
        admin_token = token;
      }
          ≡ config =
        cc in
      let k = read_page_key-eq-ok values.page_key_file key h_key in
      let t = read_admin_token-eq-ok values.admin_token_file token h_token in
      rw (← same) (record {
        public_parsed = ground arith;
        admin_parsed = ground arith;
        ports_differ = ground arith;
        same_path = refl;
        key_length = k.0;
        key_secret = k.1;
        token_secret = t.0;
        token_long = t.1;
        token_short = t.2;
        token_visible = t.3;
      })
