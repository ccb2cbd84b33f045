-- ===== src/Examples/Core.antt =====
-- Hex of a few bytes, and the rules of a small scope.
use kawach.Prelude.{◌≡◌, ◌≢◌, ◌↔◌, refl, codes, true, none, some, [], ◌∷◌, All, text_eq}
use kawach.Core.Error.{ok}
use kawach.Core.Refs.{SecretRef, parse, display}
use kawach.Core.Refs.Parse.{parse_exact}
use kawach.Core.Glob.{match_loop, match_one, enough}
use kawach.Core.Glob.Wild.{Wild}
use kawach.Core.Glob.Exact.{Answers, match_one_exact}
use kawach.Core.Scope.{
  BackendScope, Scope, with_backend, covers_backend, decide, authorize, rules_of, find_match,
  glob_match, match_segments, segments,
}
use kawach.Core.Scope.Permits.{Permits, authorize_exact, repeated_rules_ignored}

match_one_exact_example :
    Answers
      (match_loop (enough (codes "a*bc") (codes "axbbc")) (codes "a*bc") (codes "axbbc") none)
      (Wild (codes "a*bc") (codes "axbbc"))
    × ((match_one (codes "a*bc") (codes "axbbc") ≡ true) ↔ Wild (codes "a*bc") (codes "axbbc"))
match_one_exact_example = match_one_exact (codes "a*bc") (codes "axbbc")

abbrev app_rules : BackendScope
app_rules = record { allow = codes "app/*/db" ∷ []; deny = codes "**/root-*" ∷ [] }

abbrev app_scope : Scope
app_scope = (codes "v", app_rules) ∷ []

abbrev app_db : SecretRef
app_db = record { backend = codes "v"; path = codes "app/x/db" }

authorize_exact_example :
    (authorize app_scope app_db ≡ ok (record { inner = app_db }))
    ↔ ((app_db ≡ app_db) × Permits app_scope app_db)
authorize_exact_example = authorize_exact app_scope app_db (record { inner = app_db })

repeated_rules_ignored_example :
    decide
      (with_backend app_scope (codes "v") (record { allow = []; deny = codes "**" ∷ [] }))
      app_db
    ≡ decide app_scope app_db
repeated_rules_ignored_example =
    repeated_rules_ignored app_scope (codes "v") (record { allow = []; deny = codes "**" ∷ [] })
      app_db (unfold covers_backend text_eq in refl)

authorized_in_scope : authorize app_scope app_db ≡ ok (record { inner = app_db })
unfolding authorize decide rules_of find_match glob_match match_segments segments match_one text_eq
authorized_in_scope = refl

parse_exact_example :
    (parse (codes "v:arn:x") ≡ some (record { backend = codes "v"; path = codes "arn:x" })) ↔ (
      (codes "v:arn:x" ≡ display (record { backend = codes "v"; path = codes "arn:x" }))
      × (codes "v" ≢ [])
      × (codes "arn:x" ≢ [])
      × All (λ b. b ≢ b':') (codes "v"))
parse_exact_example =
    parse_exact (codes "v:arn:x") (record { backend = codes "v"; path = codes "arn:x" })
