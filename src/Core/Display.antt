-- ===== src/Core/Display.antt =====
-- crates/kawach-core/src: the texts that `Display` gives identifiers, refusals and errors. What the
-- scrubber makes of a message is an argument, since it measures entropy in floating point.
use kawach.Prelude.{Text, codes, List, [], ◌∷◌, ◌++◌}
use kawach.Platform.Decimal.{decimal}
use kawach.Core.Error.{
  SafeDetail, trusted_static, scrubbed, ScopeDenial, unknown_backend, denied_by_rule, not_allowed,
  KawachError, out_of_scope, dry_run_refusal, weak_password_policy, invalid_secret_encoding,
  malformed_fingerprint_key, backend, provider, discovery, audit, journal, illegal_transition,
  config, excessive_privilege,
}
use kawach.Core.Refs.{CredentialHandle, display}

abbrev pub concat : List Text → Text
concat [] = []
concat (t ∷ ts) = t ++ concat ts

-- `Vec::join`.
unfoldable pub join : Text → List Text → Text
join sep [] = []
join sep (t ∷ []) = t
join sep (t ∷ (u ∷ us)) = t ++ (sep ++ join sep (u ∷ us))

unfoldable pub handle_text : CredentialHandle → Text
handle_text h = h.kind ++ (b'/' ∷ h.id)

unfoldable pub denial_text : ScopeDenial → Text
denial_text (unknown_backend b) = codes "no scope rules for backend " ++ b
denial_text (denied_by_rule pattern) = codes "excluded by deny rule `" ++ (pattern ++ codes "`")
denial_text not_allowed = codes "not matched by any allow rule"

module _ (scrub : Text → Text) where
  unfoldable pub detail_text : SafeDetail → Text
  detail_text (trusted_static t) = t
  detail_text (scrubbed t) = scrub t

  unfoldable pub error_text : KawachError → Text
  unfolding display denial_text detail_text
  error_text (out_of_scope r d) =
      concat (codes "out of scope: " ∷ display r ∷ codes " (" ∷ denial_text d ∷ codes ")" ∷ [])
  error_text (dry_run_refusal operation) = concat (
      codes "refusing to " ∷ operation ∷ codes ": dry-run is the default; re-run with --apply" ∷ [])
  error_text (weak_password_policy achieved required) = concat (
      codes "password policy yields "
      ∷ decimal achieved
      ∷ codes " bits, below the required "
      ∷ decimal required
      ∷ [])
  error_text invalid_secret_encoding = codes "secret value is not valid UTF-8"
  error_text malformed_fingerprint_key =
      codes "fingerprint key is malformed (expected 64 hex characters)"
  error_text (backend b operation d) =
      concat (
        codes "backend "
        ∷ b
        ∷ codes " failed during "
        ∷ operation
        ∷ codes ": "
        ∷ detail_text d
        ∷ [])
  error_text (provider p operation d) = concat (
      codes "provider " ∷ p ∷ codes " failed during " ∷ operation ∷ codes ": " ∷ detail_text d ∷ [])
  error_text (discovery source_id d) =
      concat (codes "discovery source " ∷ source_id ∷ codes " failed: " ∷ detail_text d ∷ [])
  error_text (audit d) = codes "audit log write failed: " ++ detail_text d
  error_text (journal d) = codes "rotation journal error: " ++ detail_text d
  error_text (illegal_transition from event) =
      concat (codes "illegal rotation transition: " ∷ from ∷ codes " does not accept " ∷ event ∷ [])
  error_text (config location d) =
      concat (codes "configuration error at " ∷ location ∷ codes ": " ∷ detail_text d ∷ [])
  error_text (excessive_privilege d) = codes "refusing to run: " ++ detail_text d
