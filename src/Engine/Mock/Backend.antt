-- ===== src/Engine/Mock/Backend.antt =====
-- crates/kawach-engine/src/mock.rs: the backend of the mock world, with the faults that it is told to
-- inject. Its methods `list`, `describe` and `read` are not called by the engine.
use kawach.Prelude.{◌+◌, Text, codes, Bool, true, false, Option, none, some, ◌++◌, if◌then◌else◌}
use kawach.Platform.Decimal.{decimal}
use kawach.Core.Effect.{Act}
use kawach.Core.Error.{KawachError, backend, trusted_static, ok, err}
use kawach.Core.Model.{BackendCapabilities, PublishedState}
use kawach.Core.Refs.{BackendId, VersionId}
use kawach.Core.Traits.{SecretBackend}
use kawach.Engine.Mock.{WorldInner, lookup, insert, published_fingerprint, record_mutation}
use kawach.Rotation.Journal.{u64}

pub record BackendFaults : Type 0 where
  pub fail_stage : Bool
  pub fail_promote : Bool
  pub fail_restore : Bool
  pub fail_observe : Bool

-- The fields of a `MockBackend` but the world that it shares.
pub record MockBackend : Type 0 where
  pub id : BackendId
  pub capabilities : BackendCapabilities
  pub faults : BackendFaults

unfoldable no_faults : BackendFaults
no_faults = record {
  fail_stage = false;
  fail_promote = false;
  fail_restore = false;
  fail_observe = false;
}

unfoldable pub vault_like : MockBackend
unfolding no_faults
vault_like = record {
  id = codes "mock";
  capabilities = record {
    atomic_promote = false;
    versioned = true;
    readback = true;
    listing = true;
  };
  faults = no_faults;
}

unfoldable pub staging_label_like : MockBackend
unfolding vault_like
staging_label_like = record vault_like {
  capabilities = record vault_like.capabilities { atomic_promote = true };
}

unfoldable pub fail : MockBackend → Text → KawachError
fail b operation = backend b.id operation (trusted_static (codes "injected fault"))

-- The next version, and the world in which a value stands under it.
unfoldable pub add_version : Text → WorldInner → WorldInner × VersionId
unfolding insert
add_version print w =
    let version = codes "v" ++ decimal (u64 (w.next_version + 1)) in
    (
      record w {
        next_version = u64 (w.next_version + 1);
        versions = insert w.versions version print;
      },
      version,
    )

unfoldable pub stage : MockBackend → (fingerprint : Text → Text) → Text → Act WorldInner VersionId
unfolding add_version record_mutation fail
stage b fingerprint value w =
    if b.faults.fail_stage
    then (w, err (fail b (codes "stage")))
    else (let (t, version) =
          add_version (fingerprint value) (record_mutation (codes "backend.stage") w) in
        (
          (if b.capabilities.atomic_promote
              then record t { staged = some version }
              else record t { published = some version }),
          ok version,
        ))

unfoldable pub promote : MockBackend → VersionId → Act WorldInner Unit
unfolding record_mutation fail
promote b version w = if b.faults.fail_promote then (w, err (fail b (codes "promote"))) else (
  record (record_mutation (codes "backend.promote") w) { published = some version; staged = none },
  ok tt,
)

-- The value of an earlier version, published once more under a new one.
unfoldable pub restore_print : MockBackend → Option Text → Act WorldInner Unit
unfolding add_version fail
restore_print b none w = (w, err (fail b (codes "restore")))
restore_print b (some print) w =
    let (t, version) = add_version print w in (record t { published = some version }, ok tt)

unfoldable pub restore : MockBackend → VersionId → Act WorldInner Unit
unfolding record_mutation fail restore_print lookup
restore b version w =
    if b.faults.fail_restore
    then (w, err (fail b (codes "restore")))
    else restore_print b (lookup w.versions version) (record_mutation (codes "backend.restore") w)

unfoldable pub observe_published : MockBackend → Act WorldInner PublishedState
unfolding published_fingerprint fail
observe_published b w =
    if b.faults.fail_observe then (w, err (fail b (codes "observe_published"))) else (
      w,
      ok (record {
        current_version = w.published;
        current_fingerprint = published_fingerprint w;
        staged_version = w.staged;
      }),
    )

-- What the engine calls of the backend.
unfoldable pub mock_backend : MockBackend → (fingerprint : Text → Text) → SecretBackend WorldInner
unfolding stage promote restore observe_published
mock_backend b fingerprint = record {
  capabilities = b.capabilities;
  stage = λ r value c. stage b fingerprint value;
  promote = λ r version c. promote b version;
  restore = λ r version c t. restore b version;
  observe_published = λ r. observe_published b;
}
