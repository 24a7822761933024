-- ===== src/Binding/Canonical.antt =====
-- The reader of channel bindings of cathedral/replay.py inverts `canonical_bytes`.
use cathedral_compute.Base.{◌≡◌, refl, true, length, text_eq, text_beq_iff, text_beq, ok}
use cathedral_compute.Base.Text.{from_bytes_big, Bytes}
use cathedral_compute.Base.Slices.{slice}
use cathedral_compute.Binding.{
  ChannelBindingType, tls_spki_sha256, application_key_sha256, ChannelBinding, check_binding,
  canonical_bytes, channel_binding_from_canonical,
}

text_beq_refl : (s : Bytes) → text_beq s s ≡ true
text_beq_refl s = (text_beq_iff s s).1 refl

from_parts :
    (t : ChannelBindingType) (d : Bytes)
    → length d ≡ 32
    → channel_binding_from_canonical (canonical_bytes (record { binding_type = t; digest = d }))
      ≡ ok (record { binding_type = t; digest = d })
unfolding channel_binding_from_canonical check_binding canonical_bytes slice from_bytes_big
from_parts tls_spki_sha256 d sized = rw (sized, text_beq_refl d) refl
from_parts application_key_sha256 d sized = rw (sized, text_beq_refl d) refl

-- A binding whose digest has 32 bytes is read back from its canonical bytes.
pub channel_binding_from_canonical-canonical_bytes :
    (b : ChannelBinding)
    → length b.digest ≡ 32
    → channel_binding_from_canonical (canonical_bytes b) ≡ ok b
channel_binding_from_canonical-canonical_bytes b sized = from_parts b.binding_type b.digest sized
