-- ===== src/Core/Secret.antt =====
-- crates/kawach-core/src/secret.rs: the policy under which new credentials are generated. The entropy
-- that a policy yields is measured in floating point and is left out.
use kawach.Prelude.{ℕ, Text, codes, ◌++◌}

pub data Charset : Type 0 where
  uri_safe alphanumeric extended : Charset

letters_and_digits : Text
letters_and_digits = codes "ABCDEFGHIJKLMNOPQRSTUVWXYZabcdefghijklmnopqrstuvwxyz0123456789"

unfoldable pub alphabet : Charset → Text
unfolding letters_and_digits
alphabet uri_safe = letters_and_digits ++ codes "-._~"
alphabet alphanumeric = letters_and_digits
alphabet extended = letters_and_digits ++ codes "-._~+=,^"

pub record PasswordPolicy : Type 0 where
  pub length : ℕ
  pub charset : Charset
  pub min_entropy_bits : ℕ  -- u32

-- `Default` of `PasswordPolicy`.
unfoldable pub default_policy : PasswordPolicy
default_policy = record { length = 40; charset = uri_safe; min_entropy_bits = 128 }
