-- ===== src/Audit/Log/Reopen.antt =====
-- Reading a log back: what was written durably is found again.
use kawach.Prelude.{
  ℕ, ◌+◌, ◌-◌, ◌^◌, ◌<◌, ◌≡◌, refl, Text, false, none, some, List, [], ◌∷◌, length, arith,
}
use kawach.Platform.Codec.{Codec, IsLawful, Holds}
use kawach.Platform.Files.{done}
use kawach.Platform.Lines.{read_lines, read_lines-line, read_lines-nil}
use kawach.Platform.Utf8.{is_blank, brace_not_blank}
use kawach.Core.Error.{KawachError, ok, err}
use kawach.Audit.Hash.{EntryHash, genesis}
use kawach.Audit.Entry.{AuditRecord}
use kawach.Audit.Verify.{
  VerificationReport, verify_records, is_intact, status_intact, intact, ChainStatus,
}
use kawach.Audit.Verify.Chain.{Chained, last_hash, latest}
use kawach.Audit.Verify.Located.{intact_iff-Chained, intact_counts}
use kawach.Audit.Log.{AuditLog}
use kawach.Audit.Log.Consistent.{Stands}
use kawach.Audit.Log.Open.{
  read_records, read_lines_from, verify_file, resume, resume_from, does_not_verify, unwrap_head,
}

latest-some : (h : EntryHash) (rs : List AuditRecord) → latest (some h) rs ≡ some (last_hash h rs)
latest-some h [] = refl
latest-some h (r ∷ rs) = latest-some r.hash rs

not_intact : (s : ChainStatus) → ¬ (s ≡ intact) → status_intact s ≡ false
unfolding status_intact
not_intact intact n = absurd (n refl)
not_intact s n = ground arith

module _ (sha256 : Text → Text) (c : Codec AuditRecord) where
  refused :
      (i : Text) (report : VerificationReport)
      → ¬ (report.status ≡ intact)
      → (e : KawachError) × (resume_from sha256 c i report ≡ err e)
  unfolding resume_from is_intact
  refused i report n = (does_not_verify report, rw (not_intact report.status n) refl)

  unwrap_head-latest :
      (i : Text) (rs : List AuditRecord)
      → unwrap_head sha256 c (latest none rs) i ≡ last_hash (genesis sha256 i) rs
  unfolding unwrap_head
  unwrap_head-latest i [] = refl
  unwrap_head-latest i (r ∷ rs) = rw (latest-some r.hash rs) refl

  module _ (laws : IsLawful c) where
    read_lines_from-Holds :
        (rs : List AuditRecord) (f : Text) (n : ℕ)
        → Holds c rs f
        → read_lines_from c n (read_lines f) ≡ ok rs
    unfolding read_lines_from
    read_lines_from-Holds [] f n h = rw (h, read_lines-nil) refl
    read_lines_from-Holds (r ∷ rs) f n (l, g, e, p, h) =
        let (t, o) = laws.opens r l e in
        let shown : is_blank l ≡ false = rw o (brace_not_blank t) in
        rw
          (
            p,
            read_lines-line l g (laws.one_line r l e) (laws.utf8 r l e),
            shown,
            laws.round_trip r l e,
            read_lines_from-Holds rs g (n + 1) h,
          )
          refl

    pub verify_file-Holds :
        (rs : List AuditRecord) (f i : Text)
        → Holds c rs f
        → verify_file sha256 c (done f) i ≡ ok (verify_records sha256 rs i)
    unfolding verify_file read_records
    verify_file-Holds rs f i h = rw (read_lines_from-Holds rs f 1 h) refl

    -- With a lawful codec, opening the file of a log that stands at the end of the chain in it, with
    -- fewer than 2 ^ 64 - 1 entries, goes on from the number and the head that the log has.
    pub resume-Stands :
        (log : AuditLog) (rs : List AuditRecord)
        → Stands sha256 c log rs
        → log.seq < 2 ^ 64 - 1
        → resume sha256 c (some log.file) log.instance_id ≡ ok (log.seq, log.head)
    unfolding resume resume_from is_intact
    resume-Stands log rs (held, chain, count, head) b =
        let i = log.instance_id in
        let whole = (intact_iff-Chained sha256 rs i (omega arith)).1 chain in
        let (n, h) = intact_counts sha256 rs i (omega arith) whole in
        rw (verify_file-Holds rs log.file i held, whole, n, h, unwrap_head-latest i rs, count, head)
          refl

    -- A file that holds no chain cannot be opened.
    pub resume-broken :
        (rs : List AuditRecord) (f i : Text)
        → Holds c rs f
        → length rs < 2 ^ 64 - 1
        → ¬ Chained sha256 (genesis sha256 i) 1 rs
        → (e : KawachError) × (resume sha256 c (some f) i ≡ err e)
    unfolding resume
    resume-broken rs f i h b n =
        rw (verify_file-Holds rs f i h)
          (refused i (verify_records sha256 rs i) λ s. n ((intact_iff-Chained sha256 rs i b).0 s))
