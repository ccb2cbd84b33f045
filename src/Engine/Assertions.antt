-- ===== src/Engine/Assertions.antt =====
-- What is asserted of the context of a run and of the world, against the ghost model.
use kawach.Prelude.{
  ◌≡◌, refl, sym, subst, inl, inr, Bool, true, false, [], ◌∷◌, Option, none, some, In, Text, codes,
  ◌++◌, ◌⊎◌,
}
use kawach.Core.Error.{ok}
use kawach.Core.Refs.{CredentialHandle, VersionId}
use kawach.Rotation.Safety.{Ghost, successors}
use kawach.Rotation.Safety.Liveness.{IsPlain}
use kawach.Rotation.Safety.Reach.{after_crash}
use kawach.Rotation.State.{
  RotationState, provisioning, RotationEvent, provision_ok, provision_failed, publish_ok,
  publish_failed, revoke_failed, restore_ok, restore_failed, revoke_new_ok, revoke_new_failed,
  PublishedSide, old, new, next, pending_step,
}
use kawach.Engine.{RunContext, RotationEngine}
use kawach.Engine.Honest.{Reading}

-- The reason that a run gives is a provisioning that failed.
abbrev pub Blamed : Text → Type 0
Blamed reason = (x : Text) × (reason ≡ codes "provision failed: " ++ x)

abbrev pub Blames : Option Text → Type 0
Blames none = ⊥
Blames (some reason) = Blamed reason

-- The context after a provisioning that failed, of which there may be a credential and no handle.
abbrev pub Loose : RunContext → Type 0
Loose ctx = (ctx.new_handle ≡ none) × Blames ctx.failure_reason

module _ {W : Type 0} (reading : Reading W) (old_handle : CredentialHandle) where
  -- What is held of the new credential: without a handle there is no such credential.
  abbrev pub NewOf : Option CredentialHandle → (new_live new_exists : Bool) → Type 0
  NewOf none live exists = (live ≡ false) × (exists ≡ false)
  NewOf (some k) live exists = reading.IsNewHandle k

  abbrev pub ValueOf : Option Text → Type 0
  ValueOf none = Unit
  ValueOf (some v) = reading.IsNewValue v

  -- What is held of the publication: without a version of the old value, that value is published.
  abbrev pub PreviousOf : Option VersionId → PublishedSide → Type 0
  PreviousOf none side = side ≡ old
  PreviousOf (some v) side = reading.IsOldVersion v

  -- The context of a run in a world that shows a ghost.
  abbrev pub Carries : RunContext → Ghost → Type 0
  Carries ctx g =
      (ctx.old_handle ≡ some old_handle)
      × NewOf ctx.new_handle g.new_live g.new_exists
      × ValueOf ctx.new_value
      × PreviousOf ctx.previous_version g.published

  -- The effect of a state ended with an event that the machine accepts, in a world that it allows.
  abbrev pub Landed : RotationState → Ghost → RotationEvent → RotationEngine W → Type 0
  Landed s g v e =
      IsPlain v
      × ((t : RotationState) × (next s v ≡ ok t))
      × (h : Ghost) × In h (successors g v)
      × reading.Shows e.world h
      × Carries e.ctx h

  -- The run stopped in the middle of the effect of a state.
  abbrev pub Crashed : RotationState → Ghost → RotationEngine W → Type 0
  Crashed s g e = (h : Ghost) × In h (after_crash (pending_step s) g) × reading.Shows e.world h

  abbrev pub Strayed : RotationState → Ghost → RotationEvent → RotationEngine W → Type 0
  Strayed s g v e =
      (s ≡ provisioning)
      × (v ≡ provision_failed)
      × (h : Ghost) × In h (successors g provision_failed)
      × reading.Shows e.world h
      × Loose e.ctx

  -- How the effect of a state ends.
  abbrev pub Ended : RotationState → Ghost → RotationEvent → RotationEngine W → Type 0
  Ended s g v e = Landed s g v e ⊎ Strayed s g v e

  abbrev pub IsSome : {A : Type 0} → Option A → Type 0
  IsSome none = ⊥
  IsSome (some a) = Unit

  -- A credential that may exist has a handle, and a value that may be replaced has a version.
  abbrev pub Prepared : RotationEvent → RunContext → Type 0
  Prepared provision_ok ctx = IsSome ctx.new_handle
  Prepared provision_failed ctx = IsSome ctx.new_handle
  Prepared publish_ok ctx = IsSome ctx.previous_version
  Prepared publish_failed ctx = IsSome ctx.previous_version
  Prepared _ ctx = Unit

  known : (o : Option CredentialHandle) (l x m y : Bool) → IsSome o → NewOf o l x → NewOf o m y
  known none l x m y s n = elim s [ ]
  known (some k) l x m y s n = n

  gone : (o : Option CredentialHandle) (l x : Bool) → NewOf o l x → NewOf o false false
  gone none l x n = (refl, refl)
  gone (some k) l x n = n

  saved : (o : Option VersionId) (a b : PublishedSide) → IsSome o → PreviousOf o a → PreviousOf o b
  saved none a b s p = elim s [ ]
  saved (some v) a b s p = p

  restored : (o : Option VersionId) (a : PublishedSide) → PreviousOf o a → PreviousOf o old
  restored none a p = refl
  restored (some v) a p = p

  one : (ctx : RunContext) {h k : Ghost} → In h (k ∷ []) → Carries ctx k → Carries ctx h
  one ctx (inl p) c = subst (λ x. Carries ctx x) (sym p) c
  one ctx (inr i) c = elim i [ ]

  either :
      (ctx : RunContext) {h k l : Ghost}
      → In h (k ∷ (l ∷ []))
      → Carries ctx k
      → Carries ctx l
      → Carries ctx h
  either ctx (inl p) c d = subst (λ x. Carries ctx x) (sym p) c
  either ctx (inr i) c d = one ctx i d

  -- A context stands through every event that it is prepared for.
  pub Carries-successors :
      (v : RotationEvent) (ctx : RunContext) (g h : Ghost)
      → In h (successors g v)
      → Prepared v ctx
      → Carries ctx g
      → Carries ctx h
  unfolding successors
  Carries-successors provision_ok ctx g h i a (o, n, v, b) =
      one ctx i (o, known ctx.new_handle _ _ true true a n, v, b)
  Carries-successors provision_failed ctx g h i a (o, n, v, b) =
      either ctx i (o, n, v, b) (o, known ctx.new_handle _ _ true true a n, v, b)
  Carries-successors publish_ok ctx g h i a (o, n, v, b) =
      one ctx i (o, n, v, saved ctx.previous_version _ new a b)
  Carries-successors publish_failed ctx g h i a (o, n, v, b) =
      either ctx i (o, n, v, b) (o, n, v, saved ctx.previous_version _ new a b)
  Carries-successors revoke_failed ctx g h i a c = either ctx i c c
  Carries-successors restore_ok ctx g h i a (o, n, v, b) =
      one ctx i (o, n, v, restored ctx.previous_version _ b)
  Carries-successors restore_failed ctx g h i a (o, n, v, b) =
      either ctx i (o, n, v, b) (o, n, v, restored ctx.previous_version _ b)
  Carries-successors revoke_new_ok ctx g h i a (o, n, v, b) =
      one ctx i (o, gone ctx.new_handle _ _ n, v, b)
  Carries-successors revoke_new_failed ctx g h i a (o, n, v, b) =
      either ctx i (o, n, v, b) (o, gone ctx.new_handle _ _ n, v, b)
  Carries-successors _ ctx g h i a c = one ctx i c
