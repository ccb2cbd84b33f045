-- ===== src/Core/Refs.antt =====
-- crates/kawach-core/src/refs.rs: the non-secret identifiers. A newtype over `String` is its text.
pub mod Parse
use kawach.Prelude.{
  ℕ, Text, Bool, true, false, Option, none, some, List, [], ◌∷◌, ◌++◌, ◌==◌, if◌then◌else◌,
}

abbrev pub BackendId : Type 0
BackendId = Text

abbrev pub SourceId : Type 0
SourceId = Text

abbrev pub VersionId : Type 0
VersionId = Text

abbrev pub CredentialKind : Type 0
CredentialKind = Text

abbrev pub RunId : Type 0
RunId = Text

pub record SecretRef : Type 0 where
  pub backend : BackendId
  pub path : Text

-- The labels are the entries of a `BTreeMap`, in the order of its keys.
pub record CredentialHandle : Type 0 where
  pub kind : CredentialKind
  pub id : Text
  pub labels : List (Text × Text)

pub after_byte : ℕ → Option (Text × Text) → Option (Text × Text)
after_byte b none = none
after_byte b (some (x, y)) = some (b ∷ x, y)

-- `split_once` at a byte: what stands before and after its first occurrence.
unfoldable pub split_once : ℕ → Text → Option (Text × Text)
unfolding after_byte
split_once sep [] = none
split_once sep (b ∷ t) =
    let rest = split_once sep t in if b == sep then some ([], t) else after_byte b rest

pub non_empty : Text → Text → Option SecretRef
non_empty [] path = none
non_empty (b ∷ backend) [] = none
non_empty (b ∷ backend) (c ∷ path) = some (record { backend = b ∷ backend; path = c ∷ path })

pub from_parts : Option (Text × Text) → Option SecretRef
unfolding non_empty
from_parts none = none
from_parts (some (backend, path)) = non_empty backend path

-- `SecretRef::parse`, and `Display`.
unfoldable pub parse : Text → Option SecretRef
unfolding split_once from_parts
parse s = from_parts (split_once b':' s)

unfoldable pub display : SecretRef → Text
display r = r.backend ++ (b':' ∷ r.path)
