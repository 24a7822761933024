-- ===== src/Binding/Report.antt =====
-- Report data, version 2, of cathedral/common.py ties nonce, hotkey and channel.
use cathedral_compute.Base.{
  ℕ, ◌/◌, ◌%◌, ◌≡◌, refl, sym, ◌∙◌, String, ◌||◌, not, [], ◌∷◌, ◌++◌, length, ltb, nat_beq, arith,
  Result, err, ok, ◌>>=◌, raise_if->>, Bool-cases, inl, inr, ◌≢◌,
}
use cathedral_compute.Base.Text.{utf8, Bytes}
use cathedral_compute.Binding.{
  BindingError, bad_nonce_size, hotkey_out_of_bounds, ChannelBindingType, tls_spki_sha256,
  application_key_sha256, ChannelBinding, binding_name, pack_short, field_bytes, report_field,
  report_data_v2_domain, report_data_v2,
}

append-injective : (v w r s : Bytes) → length v ≡ length w → v ++ r ≡ w ++ s → (v ≡ w) × (r ≡ s)
append-injective [] [] r s l e = (refl, e)
append-injective [] (y ∷ w) r s l e = ground arith
append-injective (x ∷ v) [] r s l e = ground arith
append-injective (x ∷ v) (y ∷ w) r s l e =
    let heads : x ≡ y = cc in
    let tails : v ++ r ≡ w ++ s = cc in
    let rest = append-injective v w r s (omega arith) tails in (rw (heads, rest.0) refl, rest.1)

-- A field that carries its length can be read off the front of what it starts.
field_bytes-injective :
    (tag : ℕ) (v w r s : Bytes)
    → field_bytes tag v ++ r ≡ field_bytes tag w ++ s
    → (v ≡ w) × (r ≡ s)
field_bytes-injective tag v w r s e =
    let high : length v / 256 ≡ length w / 256 = cc in
    let low : length v % 256 ≡ length w % 256 = cc in
    let rest : v ++ r ≡ w ++ s = cc in append-injective v w r s (omega arith) rest

abbrev after_hotkey : ChannelBinding → Bytes
after_hotkey b = field_bytes 3 (binding_name b.binding_type) ++ field_bytes 4 b.digest

abbrev after_nonce : String → ChannelBinding → Bytes
after_nonce hotkey b = field_bytes 2 (utf8 hotkey) ++ after_hotkey b

-- The bytes that are hashed.
abbrev pub payload : Bytes → String → ChannelBinding → Bytes
payload nonce hotkey b =
    report_data_v2_domain
    ++ (pack_short 2
        ++ (field_bytes 1 nonce
            ++ (field_bytes 2 (utf8 hotkey)
                ++ (field_bytes 3 (binding_name b.binding_type) ++ field_bytes 4 b.digest))))

err-ne-ok : {x : BindingError} {d : Bytes} → ◌≢◌ {A = Result BindingError Bytes} (err x) (ok d)
err-ne-ok e = cc

ok-injective : (x y : Bytes) → ◌≡◌ {A = Result BindingError Bytes} (ok x) (ok y) → x ≡ y
ok-injective x y e = cc

report_field->>= :
    (tag : ℕ) (v d : Bytes) (next : Bytes → Result BindingError Bytes)
    → (report_field tag v >>= next) ≡ ok d
    → next (field_bytes tag v) ≡ ok d
unfolding report_field
report_field->>= tag v d next h = elim (Bool-cases (ltb 255 tag || ltb 65535 (length v))) [
  | inl fails ↦ elim (err-ne-ok (rw fails at h)) [ ]
  | inr fits ↦ rw fits at h
]

pub report_data_v2-payload :
    (sha512 : Bytes → Bytes) (nonce : Bytes) (hotkey : String) (b : ChannelBinding) (d : Bytes)
    → report_data_v2 sha512 nonce hotkey b ≡ ok d
    → d ≡ sha512 (payload nonce hotkey b)
unfolding report_data_v2
report_data_v2-payload sha512 nonce hotkey b d h =
    let (sized, h1) = raise_if->> (not (nat_beq (length nonce) 32)) bad_nonce_size _ h in
    let (named, h2) =
      raise_if->> (nat_beq (length (utf8 hotkey)) 0 || ltb 512 (length (utf8 hotkey)))
        hotkey_out_of_bounds _ h1 in
    let h3 = report_field->>= 1 nonce d _ h2 in
    let h4 = report_field->>= 2 (utf8 hotkey) d _ h3 in
    let h5 = report_field->>= 3 (binding_name b.binding_type) d _ h4 in
    let h6 = report_field->>= 4 b.digest d _ h5 in sym (ok-injective _ d h6)

binding_name-injective : (s t : ChannelBindingType) → binding_name s ≡ binding_name t → s ≡ t
binding_name-injective tls_spki_sha256 tls_spki_sha256 e = refl
binding_name-injective tls_spki_sha256 application_key_sha256 e = cc
binding_name-injective application_key_sha256 tls_spki_sha256 e = cc
binding_name-injective application_key_sha256 application_key_sha256 e = refl

pub payload-injective :
    (m n : Bytes) (h k : String) (b c : ChannelBinding)
    → payload m h b ≡ payload n k c
    → (m ≡ n) × (utf8 h ≡ utf8 k) × (b ≡ c)
payload-injective m n h k b c e =
    let bodies =
      (append-injective (report_data_v2_domain ++ pack_short 2)
        (report_data_v2_domain ++ pack_short 2) (field_bytes 1 m ++ after_nonce h b)
        (field_bytes 1 n ++ after_nonce k c) refl e).1 in
    let nonces = field_bytes-injective 1 m n (after_nonce h b) (after_nonce k c) bodies in
    let hotkeys =
      field_bytes-injective 2 (utf8 h) (utf8 k) (after_hotkey b) (after_hotkey c) nonces.1 in
    let types =
      field_bytes-injective 3 (binding_name b.binding_type) (binding_name c.binding_type)
        (field_bytes 4 b.digest) (field_bytes 4 c.digest) hotkeys.1 in
    let digests : b.digest ≡ c.digest = let last = types.1 in cc in
    let kinds = binding_name-injective b.binding_type c.binding_type types.0 in
    (nonces.0, hotkeys.0, λ i. record { binding_type = kinds i; digest = digests i })

-- Equal report data, whose hashed bytes do not collide, come from the same nonce, the same hotkey
-- bytes and the same channel binding.
pub report_data_v2-injective :
    (sha512 : Bytes → Bytes) (m n : Bytes) (h k : String) (b c : ChannelBinding) (d : Bytes)
    → (sha512 (payload m h b) ≡ sha512 (payload n k c) → payload m h b ≡ payload n k c)
    → report_data_v2 sha512 m h b ≡ ok d
    → report_data_v2 sha512 n k c ≡ ok d
    → (m ≡ n) × (utf8 h ≡ utf8 k) × (b ≡ c)
report_data_v2-injective sha512 m n h k b c d no_collision first second =
    payload-injective m n h k b c (
      no_collision (
        sym (report_data_v2-payload sha512 m h b d first)
        ∙ report_data_v2-payload sha512 n k c d second))
