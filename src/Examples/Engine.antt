-- ===== src/Examples/Engine.antt =====
-- The engine at work in a world that is a ghost, where the new credential may fail its verification.
use kawach.Prelude.{
  ◌⊎◌, inr, ◌∷◌, [], ◌≡◌, ◌≢◌, refl, sym, subst, ap, ◌∙◌, inl, codes, Bool, true, false, Option,
  none, some, [], if◌then◌else◌,
}
use kawach.Platform.Codec.{parsed, malformed}
use kawach.Platform.Files.{durable, write_failed}
use kawach.Core.Capability.{Confirmation, apply, dry_run}
use kawach.Core.Display.{join}
use kawach.Core.Effect.{Act, Meets}
use kawach.Core.Error.{ok, err, audit, scrubbed, invalid_secret_encoding}
use kawach.Core.Model.{
  ObservedCredential, handle_eq, ready, observe_sessions, minimal, default_drain,
}
use kawach.Core.Refs.{CredentialHandle, VersionId}
use kawach.Core.Secret.{default_policy}
use kawach.Core.Traits.{NewCredential, RotationProvider, RotationTarget, SecretBackend}
use kawach.Audit.Log.{append_as, write_entry, write_line, io_err}
use kawach.Rotation.Journal.{RecoveredRun}
use kawach.Rotation.Safety.{Ghost, initial, successors, consumers_have_a_working_credential}
use kawach.Rotation.State.{
  PublishedSide, provision_failed, provisioning, publishing, revoke_new_ok, revoke_new_failed,
}
use kawach.Engine.{RotationEngine, Setting, no_context}
use kawach.Engine.Assertions.{Blamed}
use kawach.Engine.Honest.{Honest, Reading, Provisioned, Shown, Judged, HasOldVersion, Does}
use kawach.Engine.Outcome
use kawach.Engine.Refine.Ending.{Reports, Stopped}
use kawach.Engine.Refine.Executing.{
  execute_refines, execute_serves, completed_is_true, rolled_back_is_true,
}
use kawach.Engine.Recover.{recover, side}
use kawach.Engine.Refine.Observing.{Observing}
use kawach.Engine.Run.{execute}
use kawach.Engine.Run.Authority.{dry_run_only_observes}
use kawach.Engine.Run.Ends.{execute_ends, recover_ends}

abbrev pub old_handle : CredentialHandle
old_handle = record { kind = codes "k"; id = codes "a"; labels = [] }

abbrev pub new_handle : CredentialHandle
new_handle = record { kind = codes "k"; id = codes "b"; labels = [] }

abbrev pub target : RotationTarget
target = record {
  run = codes "r";
  reference = record { inner = record { backend = codes "v"; path = codes "p" } };
  kind = codes "k";
  settings = [];
  policy = default_policy;
  drain = default_drain;
  active = some old_handle;
}

abbrev revoked : CredentialHandle → Ghost → Ghost
revoked h w =
    if handle_eq h old_handle
    then record w { old_live = false }
    else record w { new_live = false; new_exists = false }

abbrev version_of : PublishedSide → Option VersionId
version_of PublishedSide.old = some (codes "v1")
version_of _ = some (codes "v2")

abbrev seen : CredentialHandle → Bool → ObservedCredential
seen h live = record { handle = h; live = live; active_sessions = none; last_used_at = none }

abbrev landed : Ghost → Ghost
landed w = record w { new_exists = true; new_live = true }

abbrev provisions : Act Ghost NewCredential
provisions w = (landed w, ok (record { handle = new_handle; value = codes "s" }))

-- The credential is created, and then the connection drops.
abbrev loses : Act Ghost NewCredential
loses w = (landed w, err invalid_secret_encoding)

abbrev provider_of : Act Ghost NewCredential → Bool → RotationProvider Ghost
provider_of creates passes = record {
  preflight = λ t w. (w, ok ready);
  observe = λ t w. (
    w,
    ok (record { credentials = seen old_handle w.old_live ∷ (seen new_handle w.new_live ∷ []) }),
  );
  provision = λ t c. creates;
  verify = λ t v w. (
    if passes then record w { verified = true } else w,
    ok (record { passed = passes; checks = [] }),
  );
  drain = λ t h d w. (
    w,
    ok (record {
      complete = true;
      remaining_sessions = none;
      elapsed = 0;
      strategy = observe_sessions;
    }),
  );
  revoke = λ t h c w. (revoked h w, ok tt);
}

abbrev provider : Bool → RotationProvider Ghost
provider = provider_of provisions

abbrev backend : SecretBackend Ghost
backend = record {
  capabilities = record minimal { versioned = true };
  stage = λ r v c w. (record w { published = PublishedSide.new }, ok (codes "v2"));
  promote = λ r v c w. (record w { published = PublishedSide.new }, ok tt);
  restore = λ r v c t w. (record w { published = PublishedSide.old }, ok tt);
  observe_published = λ r w. (
    w,
    ok (record {
      current_version = version_of w.published;
      current_fingerprint = none;
      staged_version = none;
    }),
  );
}

abbrev setting_of : Act Ghost NewCredential → Bool → Setting Unit Ghost
setting_of creates passes = record {
  provider = provider_of creates passes;
  backend = backend;
  sha256 = λ t. [];
  scrub = λ t. t;
  journal_codec = record { encode = λ e. parsed (codes "j"); decode = λ t. malformed [] };
  audit_codec = record { encode = λ e. parsed (codes "a"); decode = λ t. malformed [] };
  journal_call = λ w. (w, (tt, durable));
  audit_call = λ w. (
    w,
    (
      record { now = some (codes "t"); outcome = durable },
      record { now = some (codes "t"); outcome = durable },
    ),
  );
}

abbrev pub ghost_setting : Bool → Setting Unit Ghost
ghost_setting = setting_of provisions

abbrev lossy : Setting Unit Ghost
lossy = setting_of loses true

abbrev reading : Reading Ghost
reading = record {
  Shows = λ w g. w ≡ g;
  IsNewHandle = λ h. h ≡ new_handle;
  IsNewValue = λ v. Unit;
  IsNewVersion = λ v. Unit;
  IsOldVersion = λ v. v ≡ codes "v1";
}

abbrev pub engine : RotationEngine Ghost
engine = record {
  world = initial;
  audit = record {
    path = codes "a";
    instance_id = codes "k";
    actor = record { principal = codes "p"; run = none };
    file = [];
    seq = 0;
    head = [];
    every_n_entries = 0;
    signer = none;
  };
  journal = record { path = codes "j"; file = []; run = codes "r"; seq = 0 };
  run = codes "r";
  ctx = no_context;
}

-- What an event that changes the ghost in one way makes of a ghost that is shown.
lands : (f : Ghost → Ghost) {w g : Ghost} → w ≡ g → f w ≡ f g
lands f p i = f (p i)

judged :
    (passes : Bool) {w g : Ghost}
    → w ≡ g
    → Judged reading passes g (if passes then record w { verified = true } else w)
unfolding successors
judged true s = (_, inl refl, lands (λ x. record x { verified = true }) s)
judged false s = s

first_version :
    (side : PublishedSide) → side ≡ PublishedSide.old → HasOldVersion reading (version_of side)
first_version PublishedSide.old p = refl
first_version PublishedSide.new p = absurd cc
first_version PublishedSide.unknown p = absurd cc

setting_of-Honest :
    (creates : Act Ghost NewCredential) (passes : Bool)
    → ((w g : Ghost)
        → w ≡ g
        → Meets (Provisioned reading g) (Shown reading provision_failed g) (creates w))
    → Honest (setting_of creates passes) target reading old_handle
unfolding handle_eq minimal successors
setting_of-Honest creates passes lands_so = record {
  journal_keeps = λ w g s. s;
  audit_keeps = λ w g s. s;
  provision_lands = λ c w g s. lands_so w g s;
  is_versioned = refl;
  verify_judges = λ v w g a s. judged passes s;
  observe_published_keeps =
      λ w g p s. (λ v. first_version w.published (ap (λ x. x.published) s ∙ p), s);
  stage_lands =
      λ v c w g a s. (tt, (_, inl refl, lands (λ x. record x { published = PublishedSide.new }) s));
  promote_lands =
      λ v c w g a s. (_, inl refl, lands (λ x. record x { published = PublishedSide.new }) s);
  drain_keeps = λ k w g s. s;
  revoke_old_lands = λ c w g s. (_, inl refl, lands (λ x. record x { old_live = false }) s);
  revoke_new_lands = λ k c w g a s.
      subst (λ h. Does reading revoke_new_ok revoke_new_failed g (revoked h w, ok tt)) (sym a)
        (_, inl refl, lands (λ x. record x { new_exists = false; new_live = false }) s);
  restore_lands =
      λ v c t w g a s. (_, inl refl, lands (λ x. record x { published = PublishedSide.old }) s);
}

honest : (passes : Bool) → Honest (ghost_setting passes) target reading old_handle
unfolding successors
honest passes =
    setting_of-Honest provisions passes (λ w g s. (refl, tt, (_, inl refl, lands landed s)))

lossy-Honest : Honest lossy target reading old_handle
unfolding successors
lossy-Honest = setting_of-Honest loses true (λ w g s. (_, inr (inl refl), lands landed s))

abbrev pub approval : Confirmation
approval = record { operator = codes "o"; reason = codes "y"; ticket = none }

-- A rotation that goes well, and one whose new credential fails its verification.
run_completes :
    (execute (ghost_setting true) target (apply approval) engine).1
    ≡ ok (some (Outcome.completed (codes "r") new_handle (some (codes "v2"))))
unfolding execute append_as write_entry write_line minimal initial
run_completes = refl

run_rolls_back :
    (execute (ghost_setting false) target (apply approval) engine).1
    ≡ ok (some (Outcome.rolled_back (codes "r") (codes "checks failed: ")))
unfolding execute append_as write_entry write_line join
run_rolls_back = refl

execute_refines_example :
    Meets
      (Reports reading)
      (Stopped reading)
      (execute (ghost_setting true) target (apply approval) engine)
execute_refines_example = execute_refines (honest true) refl approval engine refl

execute_serves_example :
    (g : Ghost) × ((execute (ghost_setting false) target (apply approval) engine).0.world ≡ g)
    × (consumers_have_a_working_credential g ≡ true)
execute_serves_example = execute_serves (honest false) refl approval engine refl

completed_is_true_example :
    (◌≡◌ {A = CredentialHandle} new_handle new_handle)
    × (g : Ghost) × ((execute (ghost_setting true) target (apply approval) engine).0.world ≡ g)
    × (g.verified ≡ true)
    × (g.published ≡ PublishedSide.new)
    × (g.new_live ≡ true)
    × (g.old_live ≡ false)
completed_is_true_example =
    completed_is_true (honest true) refl approval engine (codes "r") new_handle (some (codes "v2"))
      refl run_completes

run_loses :
    (execute lossy target (apply approval) engine).1
    ≡ ok (
        some (
          Outcome.rolled_back
            (codes "r")
            (codes "provision failed: secret value is not valid UTF-8")))
unfolding execute append_as write_entry write_line minimal initial
run_loses = refl

rolled_back_is_true_example :
    (g : Ghost) × ((execute lossy target (apply approval) engine).0.world ≡ g)
    × (g.published ≡ PublishedSide.old)
    × (g.old_live ≡ true)
    × ((g.new_live ≡ false) ⊎ Blamed (codes "provision failed: secret value is not valid UTF-8"))
rolled_back_is_true_example =
    rolled_back_is_true lossy-Honest refl approval engine (codes "r")
      (codes "provision failed: secret value is not valid UTF-8") refl run_loses

execute_ends_example : (execute (ghost_setting true) target dry_run engine).1 ≢ ok none
execute_ends_example = execute_ends (ghost_setting true) target dry_run engine

dry_run_only_observes_example :
    execute
      (record (ghost_setting true) {
        provider = record (provider false) {
          preflight = (provider true).preflight;
          observe = (provider true).observe;
        };
      })
      target
      dry_run
      engine
    ≡ execute (ghost_setting true) target dry_run engine
dry_run_only_observes_example =
    dry_run_only_observes (ghost_setting true) target (provider false) backend engine

-- The audit log cannot be written.
abbrev disk_full : Setting Unit Ghost
disk_full = record (ghost_setting true) {
  audit_call = λ w. (
    w,
    (
      record { now = some (codes "t"); outcome = write_failed 0 (codes "full") },
      record { now = some (codes "t"); outcome = durable },
    ),
  );
}

abbrev started : RotationEngine Ghost
started = record engine {
  journal = record { path = codes "j"; file = codes "j\n"; run = codes "r"; seq = 1 };
}

refused_run :
    execute disk_full target (apply approval) engine
    ≡ (started, err (audit (scrubbed (codes "full"))))
unfolding execute append_as write_entry write_line io_err
refused_run = refl

-- A run that was interrupted while it provisioned.
abbrev interrupted : RecoveredRun
interrupted = record {
  run = codes "r";
  state = provisioning;
  handle = none;
  written_version = none;
  previous_version = none;
  hint = none;
  last_seq = 2;
  torn_tail = false;
}

recover_ends_example :
    (recover (ghost_setting true) target interrupted (apply approval) engine).1 ≢ ok none
recover_ends_example = recover_ends (ghost_setting true) target interrupted (apply approval) engine

-- Without an active credential an execution in apply mode is not refused, and leaves the old
-- credential live.
bootstrap_completes :
    let r =
      execute (ghost_setting true) (record target { active = none }) (apply approval) engine in
    (r.1 ≡ ok (some (Outcome.completed (codes "r") new_handle (some (codes "v2")))))
    × (r.0.world.old_live ≡ true)
unfolding execute append_as write_entry write_line minimal initial
bootstrap_completes = (refl, refl)

-- A provisioning that fails after it has landed leaves the new credential live.
orphan_stays :
    let r = execute lossy target (apply approval) engine in
    (r.1
      ≡ ok (
          some (
            Outcome.rolled_back
              (codes "r")
              (codes "provision failed: secret value is not valid UTF-8"))))
    × (r.0.world.new_live ≡ true)
unfolding execute append_as write_entry write_line minimal initial
orphan_stays = (refl, refl)

-- A backend that reports no version, and whose write lands although it fails: nothing is restored, and
-- the credential that consumers read is revoked.
abbrev unversioned : Setting Unit Ghost
unversioned = record (ghost_setting true) {
  backend = record backend {
    stage = λ r v c w. (record w { published = PublishedSide.new }, err invalid_secret_encoding);
    observe_published = λ r w. (
      w,
      ok (record { current_version = none; current_fingerprint = none; staged_version = none }),
    );
  };
}

unversioned_strands_consumers :
    let r = execute unversioned target (apply approval) engine in
    (r.1
      ≡ ok (
          some (
            Outcome.rolled_back
              (codes "r")
              (codes "stage failed: secret value is not valid UTF-8"))))
    × (consumers_have_a_working_credential r.0.world ≡ false)
unfolding execute append_as write_entry write_line minimal initial handle_eq
    consumers_have_a_working_credential
unversioned_strands_consumers = (refl, refl)

-- A run that died after its publication had landed and before that was journalled.
abbrev unacknowledged : RecoveredRun
unacknowledged = record interrupted {
  state = publishing;
  handle = some new_handle;
  previous_version = some (codes "v1");
}
