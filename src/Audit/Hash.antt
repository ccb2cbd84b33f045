-- ===== src/Audit/Hash.antt =====
-- crates/kawach-audit/src/hash.rs: the hash chain and the canonical encoding of an entry. SHA-256 is a
-- parameter; a hash is its bytes, and the strings of the source are their bytes.
pub mod Injective
use kawach.Prelude.{ℕ, zero, suc, ◌/◌, ◌%◌, Text, codes, List, [], ◌∷◌, ◌++◌, length, take}
use kawach.Core.Hex.{encode}

abbrev pub EntryHash : Type 0
EntryHash = Text

abbrev pub domain_genesis : Text
domain_genesis = codes "kawach/audit/genesis/v1"

abbrev pub domain_entry : Text
domain_entry = codes "kawach/audit/entry/v1"

abbrev pub domain_checkpoint : Text
domain_checkpoint = codes "kawach/audit/checkpoint/v1"

unfoldable pub genesis : (sha256 : Text → Text) → Text → EntryHash
genesis sha256 instance_id = sha256 (domain_genesis ++ instance_id)

unfoldable pub chain : (sha256 : Text → Text) → EntryHash → Text → EntryHash
chain sha256 h canonical = sha256 (domain_entry ++ (h ++ canonical))

-- `to_le_bytes` of an integer of `k` bytes, after the cast to its width.
unfoldable pub le_bytes : ℕ → ℕ → Text
le_bytes zero n = []
le_bytes (suc k) n = (n % 256) ∷ le_bytes k (n / 256)

-- What `push_lp` appends: the length as a `u32`, then the bytes.
unfoldable pub lp : Text → Text
unfolding le_bytes
lp bytes = le_bytes 4 (length bytes) ++ bytes

-- The trait `CanonicalPayload`, as its two values.
pub record Payload : Type 0 where
  pub kind : Text
  pub fields : List (Text × Text)

unfoldable pub encode_fields : List (Text × Text) → Text
unfolding lp
encode_fields [] = []
encode_fields ((name, value) ∷ fields) = lp name ++ (lp value ++ encode_fields fields)

unfoldable pub canonical_entry : ℕ → EntryHash → Text → Text → Text → Payload → Text
unfolding encode_fields
canonical_entry seq prev timestamp actor run payload =
    le_bytes 8 seq
    ++ (lp prev
        ++ (lp timestamp
            ++ (lp actor
                ++ (lp run
                    ++ (lp payload.kind
                        ++ (le_bytes 4 (length payload.fields) ++ encode_fields payload.fields))))))

-- `to_hex` and `short`.
unfoldable pub to_hex : EntryHash → Text
unfolding encode
to_hex h = encode h

unfoldable pub short : EntryHash → Text
unfolding encode
short h = encode (take 6 h)
