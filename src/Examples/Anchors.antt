-- ===== src/Examples/Anchors.antt =====
-- An anchor file in which a lower count is published after a higher one.
use native.Mathlib.Decide.{ℕ_discrete}
use kawach.Prelude.{ℕ, ◌≡◌, refl, Text, codes, Option, some, List, [], ◌∷◌, ◌++◌, text_eq}
use kawach.Platform.Codec.{Codec, IsLawful, Holds}
use kawach.Platform.Files.{done, durable}
use kawach.Platform.Utf8.{is_utf8}
use kawach.Core.Error.{ok}
use kawach.Audit.Checkpoint.{AnchorRecord}
use kawach.Audit.FileAnchor.{publish, latest}
use kawach.Audit.FileAnchor.Highest.{Highest, latest-publish}
use kawach.Examples.TableCodec.{table, encode_in, is_sound, table-IsLawful}

AnchorRecord-discrete : Discrete AnchorRecord
unfolding ℕ_discrete
AnchorRecord-discrete = hlevel ℕ_discrete

abbrev anchored : ℕ → AnchorRecord
anchored n = record { instance_id = codes "k"; entry_count = n; head = []; at = codes "t" }

abbrev rows : List (AnchorRecord × Text)
rows = (anchored 9, codes "{9}") ∷ (anchored 4, codes "{4}") ∷ []

abbrev json : Codec AnchorRecord
json = table AnchorRecord-discrete rows

json-IsLawful : IsLawful json
json-IsLawful =
    table-IsLawful AnchorRecord-discrete rows
      (unfold is_sound text_eq is_utf8 AnchorRecord-discrete in refl)

abbrev before : Text
before = codes "{9}" ++ (b'\n' ∷ [])

abbrev after : Text
after = before ++ (codes "{4}" ++ (b'\n' ∷ []))

before-Holds : Holds json (anchored 9 ∷ []) before
unfolding AnchorRecord-discrete encode_in
before-Holds = (codes "{9}", [], refl, refl, refl)

latest-publish_example :
    (o : Option AnchorRecord) × (latest json (some (done after)) (codes "k") ≡ ok o)
    × Highest (codes "k") (anchored 9 ∷ (anchored 4 ∷ [])) o
unfolding publish AnchorRecord-discrete encode_in
latest-publish_example =
    latest-publish json json-IsLawful (codes "k") (anchored 9 ∷ []) before after (done tt) (done tt)
      (anchored 4) durable before-Holds refl
