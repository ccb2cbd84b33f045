-- ===== src/Audit/Verify/Agree.antt =====
-- Two chains with one head hold the same history, or else SHA-256 has been broken.
use kawach.Prelude.{
  ℕ, ◌+◌, ◌≡◌, ◌≢◌, refl, sym, ◌∙◌, ◌⊎◌, inl, inr, Bool-cases, Text, List, [], ◌∷◌, ◌++◌, length,
  All, text_eq, text_eq_iff, arith,
}
use kawach.Audit.Hash.{EntryHash, domain_entry, chain}
use kawach.Audit.Hash.Injective.{Fits, split_append, canonical_entry-injective}
use kawach.Audit.Event.{run_str, payload}
use kawach.Audit.Event.Content.{covered, payload-exact}
use kawach.Audit.Entry.{AuditRecord, canonical_of, recompute_hash}
use kawach.Audit.Verify.Chain.{last_hash, Chained, differ}

-- What the types and the encoding assume of a record: a hash of 32 bytes, and numbers and lengths
-- that fit their integers.
abbrev pub IsSized : AuditRecord → Type 0
IsSized r =
    (length r.prev ≡ 32)
    × Fits r.seq r.prev r.at r.actor.principal (run_str r.actor) (payload r.event)

-- Two records that differ in nothing that the hash covers.
abbrev pub Alike : AuditRecord → AuditRecord → Type 0
Alike r q =
    (r.seq ≡ q.seq)
    × (r.prev ≡ q.prev)
    × (r.at ≡ q.at)
    × (r.actor.principal ≡ q.actor.principal)
    × (run_str r.actor ≡ run_str q.actor)
    × (covered r.event ≡ covered q.event)

abbrev pub AllAlike : List AuditRecord → List AuditRecord → Type 0
AllAlike [] [] = Unit
AllAlike (r ∷ rs) (q ∷ qs) = Alike r q × AllAlike rs qs
AllAlike _ _ = ⊥

module _ (sha256 : Text → Text) where
  abbrev pub Collision : Type 0
  Collision = (x : Text) × (y : Text) × (x ≢ y) × (sha256 x ≡ sha256 y)

  encoded-Alike :
      (r q : AuditRecord)
      → IsSized r
      → IsSized q
      → domain_entry ++ (r.prev ++ canonical_of r) ≡ domain_entry ++ (q.prev ++ canonical_of q)
      → Alike r q
  unfolding canonical_of payload
  encoded-Alike r q (lr, fr) (lq, fq) e =
      let (d, e₁) = split_append domain_entry domain_entry _ _ refl e in
      let (p, e₂) = split_append r.prev q.prev _ _ (lr ∙ sym lq) e₁ in
      let (es, eh, et, ea, eu, ek, ef) =
        canonical_entry-injective _ _ _ _ _ _ _ _ _ _ _ _ fr fq e₂ in
      (es, eh, et, ea, eu, (payload-exact r.event q.event).0 (ek, ef))

  entries_agree :
      (r q : AuditRecord)
      → IsSized r
      → IsSized q
      → recompute_hash sha256 r ≡ r.hash
      → recompute_hash sha256 q ≡ q.hash
      → r.hash ≡ q.hash
      → Collision ⊎ Alike r q
  unfolding recompute_hash chain
  entries_agree r q sr sq hr hq h =
      let x = domain_entry ++ (r.prev ++ canonical_of r) in
      let y = domain_entry ++ (q.prev ++ canonical_of q) in
      elim (Bool-cases (text_eq x y)) [
        | inl same ↦ inr (encoded-Alike r q sr sq ((text_eq_iff x y).0 same))
        | inr other ↦ inl (x, y, differ x y other, hr ∙ (h ∙ sym hq))
      ]

  -- Two chains of sized records from any two hashes and the same number, equally long and with the
  -- same head, start from the same hash and agree in everything that the hash covers, or they give
  -- two different texts with the same SHA-256.
  pub head_binds_history :
      (g h : EntryHash) (n : ℕ) (xs ys : List AuditRecord)
      → All IsSized xs
      → All IsSized ys
      → Chained sha256 g n xs
      → Chained sha256 h n ys
      → length xs ≡ length ys
      → last_hash g xs ≡ last_hash h ys
      → Collision ⊎ ((g ≡ h) × AllAlike xs ys)
  head_binds_history g h n [] [] sx sy cx cy l e = inr (e, tt)
  head_binds_history g h n [] (y ∷ ys) sx sy cx cy l e = absurd (omega arith)
  head_binds_history g h n (x ∷ xs) [] sx sy cx cy l e = absurd (omega arith)
  head_binds_history g h n (x ∷ xs) (y ∷ ys) (sx, sxs) (sy, sys) ((x₁, x₂, x₃), cx)
        ((y₁, y₂, y₃), cy) l e =
      elim (head_binds_history x.hash y.hash (n + 1) xs ys sxs sys cx cy (omega arith) e) [
        | inl c ↦ inl c
        | inr (m, a) ↦ elim (entries_agree x y sx sy x₃ y₃ m) [
          | inl c ↦ inl c
          | inr b ↦ inr (sym x₂ ∙ (b.1 ∙ y₂), (b, a))
        ]
      ]
