-- ===== src/Binding/Examples.antt =====
-- A channel binding written and read, and the report data of two calls.
use cathedral_compute.Base.{◌≡◌, refl, replicate, ok, String}
use cathedral_compute.Base.Text.{utf8, utf8_codes, Bytes}
use cathedral_compute.Binding.{
  ChannelBinding, tls_spki_sha256, canonical_bytes, channel_binding_from_canonical, report_field,
  report_data_v2,
}
use cathedral_compute.Binding.Report.{payload, report_data_v2-injective}
use cathedral_compute.Binding.Canonical.{channel_binding_from_canonical-canonical_bytes}

abbrev binding : ChannelBinding
binding = record { binding_type = tls_spki_sha256; digest = replicate 32 7 }

channel_binding_from_canonical-canonical_bytes_example :
    channel_binding_from_canonical (canonical_bytes binding) ≡ ok binding
channel_binding_from_canonical-canonical_bytes_example =
    channel_binding_from_canonical-canonical_bytes binding refl

-- A stand-in for SHA-512 that does not collide.
abbrev digest : Bytes → Bytes
digest bytes = bytes

abbrev nonce : Bytes
nonce = replicate 32 1

abbrev hotkey : String
hotkey = "miner-a"

computed : report_data_v2 digest nonce hotkey binding ≡ ok (payload nonce hotkey binding)
unfolding report_data_v2 report_field utf8_codes
computed = refl

report_data_v2-injective_example :
    (nonce ≡ nonce) × (utf8 hotkey ≡ utf8 hotkey) × (binding ≡ binding)
report_data_v2-injective_example =
    report_data_v2-injective digest nonce nonce hotkey hotkey binding binding
      (payload nonce hotkey binding) (λ e. e) computed computed
