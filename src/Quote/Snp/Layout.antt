-- ===== src/Quote/Snp/Layout.antt =====
-- Reports written field after field, the layout of cathedral/verify/snp.py, are read back.
use cathedral_compute.Base.{
  ℕ, ◌^◌, ◌<◌, ◌≡◌, refl, true, List, [], ◌∷◌, any, length, nat_beq, not, ok,
}
use cathedral_compute.Base.Text.{hex, Bytes}
use cathedral_compute.Base.Slices.{
  concat, HaveLengths, slice-concat, length-concat, to_bytes_little,
  from_bytes_little-to_bytes_little,
}
use cathedral_compute.Quote.Snp.{SnpReport, parse_snp_report}

-- What a report holds besides the fields that the parser reads, and the bytes whose hexadecimal
-- text the parser keeps.
pub record Rest : Type 0 where
  pub after_policy : Bytes
  pub after_signer : Bytes
  pub measurement_bytes : Bytes
  pub after_measurement : Bytes
  pub after_reported : Bytes
  pub chip_bytes : Bytes
  pub after_committed : Bytes
  pub after_launch : Bytes

abbrev pub report_chunks : SnpReport → Rest → List Bytes
report_chunks r x =
    to_bytes_little 4 r.version
    ∷ to_bytes_little 4 r.guest_svn
    ∷ to_bytes_little 8 r.guest_policy
    ∷ x.after_policy
    ∷ to_bytes_little 4 r.vmpl
    ∷ to_bytes_little 4 r.signature_algo
    ∷ to_bytes_little 8 r.tcb.current
    ∷ to_bytes_little 8 r.platform_info
    ∷ to_bytes_little 4 r.signer_info
    ∷ x.after_signer
    ∷ r.report_data
    ∷ x.measurement_bytes
    ∷ x.after_measurement
    ∷ to_bytes_little 8 r.tcb.reported
    ∷ x.after_reported
    ∷ x.chip_bytes
    ∷ to_bytes_little 8 r.tcb.committed
    ∷ x.after_committed
    ∷ to_bytes_little 8 r.tcb.launch
    ∷ x.after_launch
    ∷ r.signature
    ∷ []

abbrev pub report_lengths : List ℕ
report_lengths =
    4 ∷ 4 ∷ 8 ∷ 32 ∷ 4 ∷ 4 ∷ 8 ∷ 8 ∷ 4 ∷ 4 ∷ 64 ∷ 48 ∷ 192 ∷ 8 ∷ 24 ∷ 64 ∷ 8 ∷ 8 ∷ 8 ∷ 168 ∷ 512
    ∷ []

pub record IsReport (r : SnpReport) (x : Rest) : Type 0 where
  pub sizes : HaveLengths (report_chunks r x) report_lengths
  pub version_fits : r.version < 256 ^ 4
  pub guest_svn_fits : r.guest_svn < 256 ^ 4
  pub guest_policy_fits : r.guest_policy < 256 ^ 8
  pub vmpl_fits : r.vmpl < 256 ^ 4
  pub algo_fits : r.signature_algo < 256 ^ 4
  pub platform_fits : r.platform_info < 256 ^ 8
  pub signer_fits : r.signer_info < 256 ^ 4
  pub current_fits : r.tcb.current < 256 ^ 8
  pub reported_fits : r.tcb.reported < 256 ^ 8
  pub committed_fits : r.tcb.committed < 256 ^ 8
  pub launch_fits : r.tcb.launch < 256 ^ 8
  pub measured : hex x.measurement_bytes ≡ r.measurement
  pub chip : hex x.chip_bytes ≡ r.chip_id
  pub signed : any (λ b. not (nat_beq b 0)) r.signature ≡ true

-- A report whose fields have their sizes, with a signature that is not all zero, written in the
-- order of the format with any bytes in its gaps, parses, to itself.
pub parse_snp_report-concat :
    (r : SnpReport) (x : Rest) → IsReport r x → parse_snp_report (concat (report_chunks r x)) ≡ ok r
unfolding parse_snp_report
parse_snp_report-concat r x p =
    let at = λ (i : ℕ). slice-concat i (report_chunks r x) report_lengths p.sizes in
    let read = from_bytes_little-to_bytes_little in
    let total : length (concat (report_chunks r x)) ≡ 1184 =
      length-concat (report_chunks r x) report_lengths p.sizes in
    rw
      (
        total,
        at 20,
        p.signed,
        at 0,
        at 1,
        at 2,
        at 4,
        at 5,
        at 6,
        at 7,
        at 8,
        at 10,
        at 11,
        at 13,
        at 15,
        at 16,
        at 18,
        p.measured,
        p.chip,
        read 4 r.version p.version_fits,
        read 4 r.guest_svn p.guest_svn_fits,
        read 8 r.guest_policy p.guest_policy_fits,
        read 4 r.vmpl p.vmpl_fits,
        read 4 r.signature_algo p.algo_fits,
        read 8 r.tcb.current p.current_fits,
        read 8 r.platform_info p.platform_fits,
        read 4 r.signer_info p.signer_fits,
        read 8 r.tcb.reported p.reported_fits,
        read 8 r.tcb.committed p.committed_fits,
        read 8 r.tcb.launch p.launch_fits,
      )
      refl
