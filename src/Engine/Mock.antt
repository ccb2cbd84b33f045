-- ===== src/Engine/Mock.antt =====
-- crates/kawach-engine/src/mock.rs: the world that the mock backend and the mock provider share. A hash
-- map is the list of its entries in the order of their insertion. The fingerprint of a value, under
-- the key of the world, is a parameter, and is shown as a text.
pub mod Backend
pub mod Provider
pub mod Contract
use kawach.Prelude.{
  ℕ, ◌+◌, ◌%◌, ◌^◌, Text, codes, Bool, true, false, Option, none, some, List, [], ◌∷◌, ◌++◌,
  text_eq, if◌then◌else◌,
}
use kawach.Core.Refs.{VersionId}
use kawach.Rotation.Journal.{u64}

-- `HashMap::get` and `insert`.
unfoldable pub lookup : {A : Type 0} → List (Text × A) → Text → Option A
unfolding text_eq
lookup [] key = none
lookup ((k, a) ∷ rest) key = let found = lookup rest key in if text_eq k key then some a else found

unfoldable pub insert : {A : Type 0} → List (Text × A) → Text → A → List (Text × A)
unfolding text_eq
insert [] key a = (key, a) ∷ []
insert ((k, b) ∷ rest) key a =
    let inserted = insert rest key a in if text_eq k key then (k, a) ∷ rest else (k, b) ∷ inserted

pub record WorldInner : Type 0 where
  pub live : List (Text × Bool)
  pub provisioned : List (Text × Text)
  pub versions : List (Text × Text)
  pub published : Option VersionId
  pub staged : Option VersionId
  pub next_version : ℕ  -- u64
  pub next_credential : ℕ  -- u64
  pub mutations : List Text

-- `MockWorld::empty`.
unfoldable pub empty : WorldInner
empty = record {
  live = [];
  provisioned = [];
  versions = [];
  published = none;
  staged = none;
  next_version = 0;
  next_credential = 0;
  mutations = [];
}

unfoldable pub with_active_credential : (fingerprint : Text → Text) → Text → WorldInner
unfolding empty
with_active_credential fingerprint id =
    let original = fingerprint (codes "the-original-password") in
    record empty {
      live = (id, true) ∷ [];
      provisioned = (id, original) ∷ [];
      versions = (codes "v1", original) ∷ [];
      published = some (codes "v1");
      next_version = 1;
    }

or_false : Option Bool → Bool
or_false none = false
or_false (some b) = b

unfoldable pub is_live : WorldInner → Text → Bool
unfolding lookup or_false
is_live w id = or_false (lookup w.live id)

unfoldable pub version_fingerprint : WorldInner → Option VersionId → Option Text
unfolding lookup
version_fingerprint w none = none
version_fingerprint w (some v) = lookup w.versions v

unfoldable pub published_fingerprint : WorldInner → Option Text
unfolding version_fingerprint
published_fingerprint w = version_fingerprint w w.published

unfoldable pub provisioned_fingerprint : WorldInner → Text → Option Text
unfolding lookup
provisioned_fingerprint w id = lookup w.provisioned id

both_eq : Option Text → Option Text → Bool
unfolding text_eq
both_eq (some a) (some b) = text_eq a b
both_eq _ _ = false

unfoldable pub consumers_read_credential : WorldInner → Text → Bool
unfolding both_eq published_fingerprint provisioned_fingerprint
consumers_read_credential w id = both_eq (published_fingerprint w) (provisioned_fingerprint w id)

unfoldable pub record_mutation : Text → WorldInner → WorldInner
record_mutation what w = record w { mutations = w.mutations ++ (what ∷ []) }
