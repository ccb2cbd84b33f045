-- ===== src/Engine/Mock/Contract.antt =====
-- What the mock backend promises: what consumers read after a value has been staged, promoted or
-- restored.
use kawach.Prelude.{
  ◌≡◌, refl, Text, false, Bool-cases, inl, inr, some, List, [], ◌∷◌, text_eq, text_eq_iff,
  if◌then◌else◌,
}
use kawach.Core.Effect.{Act, pure, ◌>>=◌}
use kawach.Core.Error.{ok}
use kawach.Core.Refs.{VersionId}
use kawach.Engine.Mock.{
  WorldInner, lookup, insert, version_fingerprint, published_fingerprint, record_mutation,
}
use kawach.Engine.Mock.Backend.{MockBackend, add_version, stage, promote, restore_print, restore}

lookup-insert :
    {A : Type 0} (m : List (Text × A)) (key : Text) (a : A) → lookup (insert m key a) key ≡ some a
unfolding lookup insert
lookup-insert [] key a = rw ((text_eq_iff key key).1 refl) refl
lookup-insert ((k, b) ∷ rest) key a = elim (Bool-cases (text_eq k key)) [
  | inl y ↦ rw (y, y) refl
  | inr n ↦ rw (n, n) (lookup-insert rest key a)
]

-- `stage`, and `promote` of what it returned where the backend has labels.
unfoldable pub publish : MockBackend → (fingerprint : Text → Text) → Text → Act WorldInner Unit
unfolding stage promote
publish b fingerprint value = do
  version ← stage b fingerprint value
  if b.capabilities.atomic_promote then promote b version else pure tt

-- Without injected faults, publishing a value succeeds on a backend with labels and on one without,
-- and consumers read that value's fingerprint afterwards.
pub published_is_read :
    (b : MockBackend) (fingerprint : Text → Text) (value : Text) (w : WorldInner)
    → b.faults.fail_stage ≡ false
    → b.faults.fail_promote ≡ false
    → ((publish b fingerprint value w).1 ≡ ok tt)
      × (published_fingerprint (publish b fingerprint value w).0 ≡ some (fingerprint value))
unfolding publish stage promote add_version record_mutation published_fingerprint
    version_fingerprint
published_is_read b fingerprint value w s p = elim (Bool-cases b.capabilities.atomic_promote) [
  | inl y ↦ rw (s, y, p) (refl, lookup-insert w.versions _ (fingerprint value))
  | inr n ↦ rw (s, n) (refl, lookup-insert w.versions _ (fingerprint value))
]

-- Without the injected fault, restoring a version that has a value succeeds, and consumers read that
-- value's fingerprint afterwards.
pub restored_is_read :
    (b : MockBackend) (version : VersionId) (w : WorldInner) (print : Text)
    → b.faults.fail_restore ≡ false
    → lookup w.versions version ≡ some print
    → ((restore b version w).1 ≡ ok tt)
      × (published_fingerprint (restore b version w).0 ≡ some print)
unfolding restore restore_print add_version record_mutation published_fingerprint
    version_fingerprint
restored_is_read b version w print s held = rw (s, held) (refl, lookup-insert w.versions _ print)
