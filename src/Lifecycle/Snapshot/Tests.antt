-- ===== src/Lifecycle/Snapshot/Tests.antt =====
-- Two files that are saved, changed and brought back.
use kakesu.Prelude.{
  ℕ, String, Bool, true, false, ◌||◌, eq_refl, none, some, List, [], ◌∷◌, refl, ◌==◌, if◌then◌else◌,
  starts_with,
}
use kakesu.Js.{null}
use kakesu.Result.{Result, ok, throw}
use kakesu.Work.Node.{Node}
use kakesu.Lifecycle.Script.{
  Event, World, spawn, exists, read_text, realpath, write, stat, make_dir, remove, chmod, digest,
  wiki_index, acquire, release,
}
use kakesu.Lifecycle.Snapshot.Disk.{State, Effect, disk, IsObliging, is_there}
use kakesu.Lifecycle.Snapshot.Restored.{AreBack, restore_bytes-snapshot_bytes}

abbrev node : Node
node = record {
  exists = λ path. true;
  is_file = λ path. true;
  read_text = λ path. ok "";
  realpath = λ path. ok path;
  spawn = λ root program args. record { error = none; status = some 0; stdout = ""; stderr = "" };
  is_absolute = λ path. starts_with path "/";
  resolve = λ root path. path;
  path_join = λ dir file. file;
  normalize = λ path. path;
  extname = λ path. ".md";
  dirname = λ path. "tasks";
  parse_yaml = λ text. ok null;
  parse_date = λ date. none;
  ci = true;
}

abbrev start : String → State
start path = if path == "backlog.yaml" then some (420, "tasks: []\n") else none

-- A merge leaves a conflict in every file, and no directory as it was.
abbrev effect : Effect
effect dir program args before path = some (420, "<<<<<<<\n")

-- The directories that were made since a program was run last.
abbrev dirs : List Event → String → Bool
dirs [] d = true
dirs ((spawn _ _ _ _, _) ∷ past) d = false
dirs ((make_dir made, _) ∷ past) d = made == d || dirs past d
dirs (_ ∷ past) d = dirs past d

abbrev done_if : Bool → Result (Unit {0})
done_if true = ok tt
done_if false = throw "ENOENT"

abbrev text_of : State → Result String
text_of none = throw "ENOENT"
text_of (some (_, text)) = ok text

abbrev mode_of : State → Result ℕ
mode_of none = throw "ENOENT"
mode_of (some (mode, _)) = ok mode

abbrev world : World
world past (spawn _ _ _ _) = record { error = none; status = some 0; stdout = ""; stderr = "" }
world past (exists f) = is_there (disk start effect past f)
world past (read_text f) = text_of (disk start effect past f)
world past (realpath f) = ok f
world past (write f _) = done_if (dirs past (node.dirname f))
world past (stat f) = mode_of (disk start effect past f)
world past (make_dir _) = ok tt
world past (remove f) = done_if (is_there (disk start effect past f))
world past (chmod f _) = done_if (is_there (disk start effect past f))
world past (digest _) = ok "d"
world past (wiki_index _) = ok "{}"
world past (acquire _) = ok tt
world past (release _) = tt

world-IsObliging : IsObliging start effect node.dirname dirs world
world-IsObliging = record {
  tells = λ past f. refl;
  shows_mode = λ past f mode text e. rw e refl;
  shows_text = λ past f mode text e. rw e refl;
  writes = λ past f text e. rw e refl;
  makes = λ past d. refl;
  made = λ past d. rw (eq_refl d) refl;
  removes = λ past f e. rw e refl;
  sets_mode = λ past f mode e. rw e refl;
}

-- What has happened when the files are brought back.
abbrev later : List Event
later =
    (
      spawn "/r" "git" ("merge" ∷ "--no-ff" ∷ []) [],
      record { error = none; status = some 1; stdout = ""; stderr = "conflict" },
    )
    ∷ []

restore_bytes-snapshot_bytes_example :
    AreBack start effect dirs world node world-IsObliging "/r"
      ("backlog.yaml" ∷ "wiki/index.json" ∷ [])
      []
      later
restore_bytes-snapshot_bytes_example =
    restore_bytes-snapshot_bytes start effect dirs world node world-IsObliging "/r"
      ("backlog.yaml" ∷ "wiki/index.json" ∷ []) [] later
