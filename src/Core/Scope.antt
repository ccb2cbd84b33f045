-- ===== src/Core/Scope.antt =====
-- crates/kawach-core/src/scope.rs: which references a backend method may be called with.
pub mod Paths
pub mod Permits
use kawach.Prelude.{
  Text, codes, Bool, true, false, ◌&&◌, ◌||◌, Option, none, some, List, [], ◌∷◌, ◌++◌, any, text_eq,
  ◌==◌, ℕ, if◌then◌else◌,
}
use kawach.Core.Error.{
  ScopeDenial, unknown_backend, denied_by_rule, not_allowed, KawachError, out_of_scope, Result, ok,
  err,
}
use kawach.Core.Refs.{BackendId, SecretRef}
use kawach.Core.Glob.{match_one}

pub record BackendScope : Type 0 where
  pub allow : List Text
  pub deny : List Text

-- The entries of `backends`, in their order.
abbrev pub Scope : Type 0
Scope = List (BackendId × BackendScope)

pub record ScopedRef : Type 0 where
  pub inner : SecretRef

unfoldable pub with_backend : Scope → BackendId → BackendScope → Scope
with_backend scope backend rules = scope ++ ((backend, rules) ∷ [])

unfoldable pub covers_backend : Scope → BackendId → Bool
covers_backend scope backend = any (λ entry. text_eq entry.0 backend) scope

push_first : ℕ → List Text → List Text
push_first b [] = (b ∷ []) ∷ []
push_first b (s ∷ ss) = (b ∷ s) ∷ ss

-- `split('/')`.
unfoldable pub segments : Text → List Text
unfolding push_first
segments [] = [] ∷ []
segments (b ∷ t) = let rest = segments t in if b == b'/' then [] ∷ rest else push_first b rest

abbrev pub any_depth : Text
any_depth = codes "**"

-- `any` over the suffixes of the segments, the longest first.
unfoldable pub any_suffix : (List Text → Bool) → List Text → Bool
any_suffix f [] = f []
any_suffix f (s ∷ ss) = f (s ∷ ss) || any_suffix f ss

is_empty : List Text → Bool
is_empty [] = true
is_empty (s ∷ ss) = false

pub on_first : (Text → List Text → Bool) → List Text → Bool
on_first f [] = false
on_first f (s ∷ ss) = f s ss

unfoldable pub match_segments : List Text → List Text → Bool
unfolding any_suffix is_empty on_first
match_segments [] seg = is_empty seg
match_segments (p ∷ pat) seg = elim (text_eq p any_depth) [
  | true ↦ any_suffix (match_segments pat) seg
  | false ↦ on_first (λ s rest. match_one p s && match_segments pat rest) seg
]

unfoldable pub glob_match : Text → Text → Bool
glob_match pattern path = match_segments (segments pattern) (segments path)

-- `find` of the first entry for a backend.
unfoldable pub rules_of : Scope → BackendId → Option BackendScope
rules_of [] b = none
rules_of ((id, rules) ∷ scope) b =
    let rest = rules_of scope b in if text_eq id b then some rules else rest

unfoldable pub find_match : Text → List Text → Option Text
find_match path [] = none
find_match path (p ∷ ps) =
    let rest = find_match path ps in if glob_match p path then some p else rest

allowed_by : List Text → Text → Option ScopeDenial
allowed_by allow path = if any (λ p. glob_match p path) allow then none else some not_allowed

under_rules : Option BackendScope → SecretRef → Option ScopeDenial
unfolding allowed_by
under_rules none r = some (unknown_backend r.backend)
under_rules (some rules) r = elim (find_match r.path rules.deny) [
  | some p ↦ some (denied_by_rule p)
  | none ↦ allowed_by rules.allow r.path
]

-- `none` is `Ok(())`.
unfoldable pub decide : Scope → SecretRef → Option ScopeDenial
unfolding under_rules
decide scope r = under_rules (rules_of scope r.backend) r

unless_denied : Option ScopeDenial → SecretRef → Result ScopedRef
unless_denied none r = ok (record { inner = r })
unless_denied (some denial) r = err (out_of_scope r denial)

unfoldable pub authorize : Scope → SecretRef → Result ScopedRef
unfolding unless_denied
authorize scope r = unless_denied (decide scope r) r

keep_ok : Result ScopedRef → List ScopedRef → List ScopedRef
keep_ok (ok s) rest = s ∷ rest
keep_ok (err e) rest = rest

unfoldable pub authorize_all : Scope → List SecretRef → List ScopedRef
unfolding keep_ok
authorize_all scope [] = []
authorize_all scope (r ∷ refs) = keep_ok (authorize scope r) (authorize_all scope refs)
