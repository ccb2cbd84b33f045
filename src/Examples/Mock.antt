-- ===== src/Examples/Mock.antt =====
-- The engine at work on the mock provider and the mock backend.
use kawach.Prelude.{◌≡◌, refl, Text, codes, true, false, some, [], ◌++◌}
use kawach.Platform.Decimal.{decimal}
use kawach.Core.Capability.{apply}
use kawach.Core.Error.{ok}
use kawach.Platform.Files.{durable}
use kawach.Audit.Log.{append_as, write_entry, write_line}
use kawach.Engine.{RotationEngine, Setting, no_context}
use kawach.Engine.Mock.{WorldInner, with_active_credential, consumers_read_credential, is_live}
use kawach.Engine.Mock.Backend.{MockBackend, vault_like, staging_label_like, mock_backend}
use kawach.Engine.Mock.Provider.{MockProvider, no_faults, provider_for, target, mock_provider}
use kawach.Engine.Run.{execute}
use kawach.Examples.Engine.{ghost_setting, engine, approval}

abbrev print_of : Text → Text
print_of value = codes "#" ++ value

abbrev setting : MockProvider → MockBackend → Setting Unit WorldInner
setting p b = record {
  provider = mock_provider p print_of (λ q. ok (codes "s"));
  backend = mock_backend b print_of;
  sha256 = λ t. [];
  scrub = λ t. t;
  journal_codec = (ghost_setting true).journal_codec;
  audit_codec = (ghost_setting true).audit_codec;
  journal_call = λ w. (w, (tt, durable));
  audit_call = λ w. (
    w,
    (
      record { now = some (codes "t"); outcome = durable },
      record { now = some (codes "t"); outcome = durable },
    ),
  );
}

abbrev world : WorldInner
world = with_active_credential print_of (codes "a")

abbrev mock_engine : RotationEngine WorldInner
mock_engine = record {
  world = world;
  audit = engine.audit;
  journal = engine.journal;
  run = codes "r";
  ctx = no_context;
}

abbrev faulty : MockProvider
faulty = record (provider_for (codes "a")) {
  faults = record no_faults { verification_fails = true };
}

-- Consumers read the new credential, and the old one is revoked, on either kind of backend.
vault_completes :
    let p = provider_for (codes "a") in
    let r =
      execute
        (setting p vault_like)
        (target p (record { inner = record { backend = codes "v"; path = codes "p" } }) (codes "r"))
        (apply approval)
        mock_engine in
    (consumers_read_credential r.0.world (codes "cred-1") ≡ true)
    × (is_live r.0.world (codes "a") ≡ false)
    × (is_live r.0.world (codes "cred-1") ≡ true)
unfolding execute append_as write_entry write_line vault_like provider_for target mock_backend
    mock_provider with_active_credential consumers_read_credential is_live no_faults decimal
vault_completes = (refl, refl, refl)

-- A credential that fails its verification is never published, and is revoked.
failed_verification_rolls_back :
    let r =
      execute
        (setting faulty staging_label_like)
        (target faulty
          (record { inner = record { backend = codes "v"; path = codes "p" } })
          (codes "r"))
        (apply approval)
        mock_engine in
    (consumers_read_credential r.0.world (codes "a") ≡ true)
    × (is_live r.0.world (codes "a") ≡ true)
    × (is_live r.0.world (codes "cred-1") ≡ false)
unfolding execute append_as write_entry write_line staging_label_like provider_for target
    mock_backend mock_provider with_active_credential consumers_read_credential is_live no_faults
    decimal
failed_verification_rolls_back = (refl, refl, refl)
