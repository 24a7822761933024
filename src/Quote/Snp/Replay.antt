-- ===== src/Quote/Snp/Replay.antt =====
-- The report data that `verify_snp` of cathedral/verify/snp.py asks for, of version 2.
use cathedral_compute.Base.{
  ℕ, ◌≡◌, refl, sym, ap, ◌∙◌, String, Bool, Option, none, some, Result, ok, text_eq,
}
use cathedral_compute.Base.Text.{utf8, Bytes}
use cathedral_compute.Assurance.{Stdlib, Policy}
use cathedral_compute.Binding.{ChannelBinding, Evidence, data_of_binding, evidence_report_data}
use cathedral_compute.Binding.Report.{payload, report_data_v2-payload, payload-injective}
use cathedral_compute.Quote.Snp.{SnpError, SnpReport, Attested, parse_snp_report, verify_snp}
use cathedral_compute.Quote.Snp.Verdict.{verify_snp-IsVerified}

-- The quote is a report that carries the hash of the nonce, the hotkey and the channel.
pub record IsBound (sha512 : Bytes → Bytes) (e : Evidence) (nonce : Bytes) (b : ChannelBinding)
    : Type 0 where
  pub channel : e.channel_binding ≡ some b
  pub report : SnpReport
  pub parses : parse_snp_report e.quote ≡ ok report
  pub hashed : report.report_data ≡ sha512 (payload nonce e.miner_hotkey b)

binding_data :
    (sha512 : Bytes → Bytes) (nonce : Bytes) (hotkey : String) (channel : Option ChannelBinding)
    (d : Bytes)
    → data_of_binding sha512 nonce hotkey channel ≡ ok d
    → (b : ChannelBinding) × (channel ≡ some b) × (d ≡ sha512 (payload nonce hotkey b))
unfolding data_of_binding
binding_data sha512 nonce hotkey none d h = cc
binding_data sha512 nonce hotkey (some b) d h =
    (b, refl, report_data_v2-payload sha512 nonce hotkey b d h)

version_2_data :
    (sha512 : Bytes → Bytes) (e : Evidence) (nonce d : Bytes)
    → e.report_data_version ≡ 2
    → evidence_report_data sha512 e nonce ≡ ok d
    → data_of_binding sha512 nonce e.miner_hotkey e.channel_binding ≡ ok d
unfolding evidence_report_data
version_2_data sha512 e nonce d second h = rw second at h

pub verify_snp-IsBound :
    (sha512 : Bytes → Bytes) (std : Stdlib) (snpguest : Option (ℕ → Option Bool)) (e : Evidence)
    (nonce : Bytes) (policy : Policy) (a : Attested)
    → e.report_data_version ≡ 2
    → verify_snp sha512 std snpguest e nonce policy ≡ ok (some a)
    → (b : ChannelBinding) × IsBound sha512 e nonce b
verify_snp-IsBound sha512 std snpguest e nonce policy a second h =
    let good = verify_snp-IsVerified sha512 std snpguest e nonce policy a h in
    let (b, channel, hashed) =
      binding_data sha512 nonce e.miner_hotkey e.channel_binding good.expected
        (version_2_data sha512 e nonce good.expected second good.derived) in
    (
      b,
      record {
        channel = channel;
        report = good.attested.parsed;
        parses = good.attested.parses;
        hashed = good.attested.bound ∙ hashed;
      },
    )

same_report : (r s : SnpReport) → ◌≡◌ {A = Result SnpError SnpReport} (ok r) (ok s) → r ≡ s
same_report r s e = cc

-- One quote is attested for one nonce, one hotkey and one channel: when `verify_snp` attests two
-- evidences of version 2 with the same quote, each for its nonce, and the two hashed payloads do not
-- collide, then the nonces, the UTF-8 bytes of the hotkeys and the channel bindings are the same.
pub verify_snp_replay :
    (sha512 : Bytes → Bytes) (std : Stdlib) (snpguest : Option (ℕ → Option Bool)) (e f : Evidence)
    (m n : Bytes) (p q : Policy) (a c : Attested)
    → ((b d : ChannelBinding)
        → e.channel_binding ≡ some b
        → f.channel_binding ≡ some d
        → sha512 (payload m e.miner_hotkey b) ≡ sha512 (payload n f.miner_hotkey d)
        → payload m e.miner_hotkey b ≡ payload n f.miner_hotkey d)
    → e.report_data_version ≡ 2
    → f.report_data_version ≡ 2
    → e.quote ≡ f.quote
    → verify_snp sha512 std snpguest e m p ≡ ok (some a)
    → verify_snp sha512 std snpguest f n q ≡ ok (some c)
    → (m ≡ n)
      × (utf8 e.miner_hotkey ≡ utf8 f.miner_hotkey)
      × (e.channel_binding ≡ f.channel_binding)
verify_snp_replay sha512 std snpguest e f m n p q a c apart second second' quote first again =
    let (b, x) = verify_snp-IsBound sha512 std snpguest e m p a second first in
    let (d, y) = verify_snp-IsBound sha512 std snpguest f n q c second' again in
    let one = same_report x.report y.report (sym x.parses ∙ ap parse_snp_report quote ∙ y.parses) in
    let same_data = ap (λ (r : SnpReport). r.report_data) one in
    let (nonces, hotkeys, channels) =
      payload-injective m n e.miner_hotkey f.miner_hotkey b d
        (apart b d x.channel y.channel (sym x.hashed ∙ same_data ∙ y.hashed)) in
    (nonces, hotkeys, x.channel ∙ ap some channels ∙ sym y.channel)
