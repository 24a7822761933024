-- ===== src/Binding.antt =====
-- The report data that ties a quote to a nonce, a hotkey and a channel: `ChannelBinding`,
-- `Evidence` and the report data functions of cathedral/common.py, and the reader of channel
-- bindings of cathedral/replay.py. SHA-512 is a parameter.
pub mod Report
pub mod Canonical
mod Examples
use cathedral_compute.Base.{
  ℕ, ◌+◌, ◌/◌, ◌%◌, String, Bool, true, false, not, ◌&&◌, ◌||◌, List, [], ◌∷◌, ◌++◌, Option, none,
  some, length, take, drop, ltb, leb, nat_beq, text_eq, ◌==◌, Result, err, ok, ◌>>=◌, ◌>>◌,
  raise_if, if◌then◌else◌,
}
use cathedral_compute.Base.Text.{codes, utf8, from_bytes_big, Bytes}
use cathedral_compute.Base.Slices.{slice}

pub data ChannelBindingType : Type 0 where
  tls_spki_sha256 application_key_sha256 : ChannelBindingType

abbrev pub binding_name : ChannelBindingType → Bytes
binding_name tls_spki_sha256 = codes "tls_spki_sha256"
binding_name application_key_sha256 = codes "application_key_sha256"

pub record ChannelBinding : Type 0 where
  pub binding_type : ChannelBindingType
  pub digest : Bytes

pub data BindingError : Type 0 where
  bad_digest_size bad_nonce_size hotkey_out_of_bounds field_out_of_bounds : BindingError
  binding_missing malformed bad_digest unknown_type no_round_trip : BindingError
  unsupported_version legacy_with_binding v2_without_binding : BindingError

-- `ChannelBinding.__post_init__`
unfoldable pub check_binding : ChannelBinding → Result BindingError ChannelBinding
check_binding b = do raise_if (not (nat_beq (length b.digest) 32)) bad_digest_size; ok b

-- `struct.pack(">H", n)`, for n below 2 ** 16
abbrev pub pack_short : ℕ → Bytes
pack_short n = n / 256 ∷ n % 256 ∷ []

abbrev pub binding_prefix : Bytes
binding_prefix = codes "cathedral.channel-binding" ++ (0 ∷ [])

-- `ChannelBinding.canonical_bytes`
unfoldable pub canonical_bytes : ChannelBinding → Bytes
canonical_bytes b =
    let name = binding_name b.binding_type in
    binding_prefix ++ (pack_short (length name) ++ (name ++ b.digest))

abbrev pub field_bytes : ℕ → Bytes → Bytes
field_bytes tag value = tag ∷ (pack_short (length value) ++ value)

-- `_report_field(tag, value)`
unfoldable pub report_field : ℕ → Bytes → Result BindingError Bytes
report_field tag value = do
  raise_if (ltb 255 tag || ltb 65535 (length value)) field_out_of_bounds
  ok (field_bytes tag value)

abbrev pub report_data_v2_domain : Bytes
report_data_v2_domain = codes "cathedral.report-data" ++ (0 ∷ [])

unfoldable pub report_data_v2 :
    (Bytes → Bytes) → Bytes → String → ChannelBinding → Result BindingError Bytes
unfolding report_field
report_data_v2 sha512 nonce miner_hotkey b = do
  raise_if (not (nat_beq (length nonce) 32)) bad_nonce_size
  let hotkey = utf8 miner_hotkey
  raise_if (nat_beq (length hotkey) 0 || ltb 512 (length hotkey)) hotkey_out_of_bounds
  nonce_field ← report_field 1 nonce
  hotkey_field ← report_field 2 hotkey
  type_field ← report_field 3 (binding_name b.binding_type)
  digest_field ← report_field 4 b.digest
  ok (
      sha512 (
        report_data_v2_domain
        ++ (pack_short 2 ++ (nonce_field ++ (hotkey_field ++ (type_field ++ digest_field))))))

abbrev or_empty : Option Bytes → Bytes
or_empty none = []
or_empty (some bytes) = bytes

-- `report_data`, the legacy form.
unfoldable pub report_data : (Bytes → Bytes) → Bytes → String → Option Bytes → Bytes
report_data sha512 nonce miner_hotkey ssh_host_key =
    sha512 (nonce ++ (utf8 miner_hotkey ++ or_empty ssh_host_key))

-- The fields of `Evidence` that its report data depends on, and the quote.
pub record Evidence : Type 0 where
  pub quote : Bytes
  pub miner_hotkey : String
  pub ssh_host_key : Option Bytes
  pub report_data_version : ℕ
  pub channel_binding : Option ChannelBinding

abbrev is_some : {A : Type 0} → Option A → Bool
is_some none = false
is_some (some a) = true

-- `Evidence.__post_init__`
unfoldable pub check_evidence : Evidence → Result BindingError Evidence
check_evidence e = do
  raise_if (not (nat_beq e.report_data_version 1) && not (nat_beq e.report_data_version 2))
      unsupported_version
  raise_if (nat_beq e.report_data_version 1 && is_some e.channel_binding) legacy_with_binding
  raise_if (nat_beq e.report_data_version 2 && not (is_some e.channel_binding)) v2_without_binding
  ok e

unfoldable pub data_of_binding :
    (Bytes → Bytes) → Bytes → String → Option ChannelBinding → Result BindingError Bytes
data_of_binding sha512 nonce miner_hotkey none = err binding_missing
data_of_binding sha512 nonce miner_hotkey (some b) = report_data_v2 sha512 nonce miner_hotkey b

unfoldable pub evidence_report_data : (Bytes → Bytes) → Evidence → Bytes → Result BindingError Bytes
unfolding data_of_binding
evidence_report_data sha512 e nonce =
    let bound = data_of_binding sha512 nonce e.miner_hotkey e.channel_binding in
    if nat_beq e.report_data_version 2
    then bound
    else ok (report_data sha512 nonce e.miner_hotkey e.ssh_host_key)

-- `ChannelBindingType(name)`
abbrev pub type_named : Bytes → Option ChannelBindingType
type_named name =
    if name == codes "tls_spki_sha256"
    then some tls_spki_sha256
    else if name == codes "application_key_sha256"
    then some application_key_sha256
    else none

abbrev pub known_type : Option ChannelBindingType → Result BindingError ChannelBindingType
known_type none = err unknown_type
known_type (some t) = ok t

-- `_channel_binding_from_canonical` on bytes; on `None` it returns `None`.
unfoldable pub channel_binding_from_canonical : Bytes → Result BindingError ChannelBinding
unfolding check_binding
channel_binding_from_canonical raw = do
  raise_if
      (not (take (length binding_prefix) raw == binding_prefix)
        || ltb (length raw) (length binding_prefix + 34))
      malformed
  let body = drop (length binding_prefix) raw
  let name_length = from_bytes_big 0 (take 2 body)
  let name = slice 2 (2 + name_length) body
  let digest = drop (2 + name_length) body
  raise_if (not (nat_beq (length digest) 32)) bad_digest
  binding_type ← known_type (type_named name)
  binding ← check_binding (record { binding_type = binding_type; digest = digest })
  raise_if (not (canonical_bytes binding == raw)) no_round_trip
  ok binding
