-- ===== src/Examples/Traced.antt =====
-- The trace that the authority of a run leaves.
use kawach.Prelude.{◌≡◌, ◌⊎◌, true}
use kawach.Core.Capability.{apply}
use kawach.Core.Traits.{RotationProvider, SecretBackend}
use kawach.Rotation.Safety.{Ghost}
use kawach.Engine.Audited.Run.{Traced, rewired, authority_leaves_record}
use kawach.Engine.Run.{execute}
use kawach.Examples.Engine.{ghost_setting, target, engine, approval}

authority_leaves_record_example :
    Traced
      (ghost_setting true)
      target
      approval
      engine
      (execute (ghost_setting true) target (apply approval) engine).0.audit
    ⊎ ((p : RotationProvider Ghost) (b : SecretBackend Ghost)
        → execute (rewired (ghost_setting true) target p b) target (apply approval) engine
          ≡ execute (ghost_setting true) target (apply approval) engine)
authority_leaves_record_example =
    authority_leaves_record (ghost_setting true) target approval engine
