-- ===== src/Audit/FileAnchor.antt =====
-- crates/kawach-audit/src/checkpoint.rs: the anchor that is a file of its own. Its state is the bytes of
-- the file; the file system answers by arguments.
pub mod Highest
use kawach.Prelude.{
  ℕ, ◌+◌, Text, codes, Bool, true, false, ◌&&◌, Option, none, some, List, [], ◌∷◌, ◌++◌, take, leb,
  text_eq, if◌then◌else◌,
}
use kawach.Platform.Codec.{Parsed, parsed, malformed, Codec}
use kawach.Platform.Files.{Io, done, failed, Write, durable, write_failed, sync_failed}
use kawach.Platform.Lines.{read_lines}
use kawach.Platform.Utf8.{is_blank}
use kawach.Core.Error.{Result, ok, err, ◌>>=◌}
use kawach.Audit.Checkpoint.{AnchorRecord}
use kawach.Audit.Log.{io_err}

-- The line is written and synced: what the file holds then, and whether the call succeeds.
unfoldable pub publish_line : Text → Parsed Text → Write → Text × Result {0} Unit
unfolding io_err
publish_line file (malformed e) w = (file, err (io_err e))
publish_line file (parsed line) durable = (file ++ (line ++ (b'\n' ∷ [])), ok tt)
publish_line file (parsed line) (write_failed n e) =
    (file ++ take n (line ++ (b'\n' ∷ [])), err (io_err e))
publish_line file (parsed line) (sync_failed e) = (file ++ (line ++ (b'\n' ∷ [])), err (io_err e))

-- The directory of the file is made first, where its path has one.
unfoldable pub publish :
    Codec AnchorRecord
    → (made opened : Io Unit) → Text
    → AnchorRecord
    → Write
    → Text × Result {0} Unit
unfolding publish_line io_err
publish c (failed e) opened file r w = (file, err (io_err e))
publish c (done a) (failed e) file r w = (file, err (io_err e))
publish c (done a) (done b) file r w = publish_line file (c.encode r) w

-- The highest count wins, and the earlier record where two are equal.
unfoldable pub supersedes : Option AnchorRecord → AnchorRecord → Bool
supersedes none r = true
supersedes (some current) r = leb (current.entry_count + 1) r.entry_count

unfoldable pub consider : Text → Option AnchorRecord → AnchorRecord → Option AnchorRecord
unfolding supersedes text_eq
consider instance_id best r =
    if text_eq r.instance_id instance_id && supersedes best r then some r else best

on_record :
    Text
    → Option AnchorRecord
    → (Option AnchorRecord → Result (Option AnchorRecord))
    → Parsed AnchorRecord
    → Result (Option AnchorRecord)
unfolding consider io_err
on_record instance_id best more (malformed e) = err (io_err e)
on_record instance_id best more (parsed r) = more (consider instance_id best r)

-- The loop of `latest`.
unfoldable pub latest_lines :
    Codec AnchorRecord
    → Text
    → List (Option Text)
    → Option AnchorRecord
    → Result (Option AnchorRecord)
unfolding on_record io_err
latest_lines c instance_id [] best = ok best
latest_lines c instance_id (none ∷ ls) best =
    err (io_err (codes "stream did not contain valid UTF-8"))
latest_lines c instance_id (some l ∷ ls) best =
    let more = latest_lines c instance_id ls in
    if is_blank l then more best else on_record instance_id best more (c.decode l)

-- `latest`; `none` is a path that does not exist.
unfoldable pub latest : Codec AnchorRecord → Option (Io Text) → Text → Result (Option AnchorRecord)
unfolding latest_lines io_err
latest c none instance_id = ok none
latest c (some (failed e)) instance_id = err (io_err e)
latest c (some (done bytes)) instance_id = latest_lines c instance_id (read_lines bytes) none
