-- ===== src/Work/Digest/Tests.antt =====
-- Digests of a small working tree, and records that are told apart.
use kakesu.Prelude.{
  ℕ, String, none, some, List, [], ◌∷◌, ◌≡◌, true, false, ◌==◌, if◌then◌else◌, starts_with,
  all_chars, refl,
}
use kakesu.Js.{null}
use kakesu.Result.{ok}
use kakesu.Work.Texts.{split, nonempty}
use kakesu.Lifecycle.Steps.{sorted, distinct}
use kakesu.Work.Node.{Node, Spawned}
use kakesu.Work.Digest.{
  ChangedFile, records_of, listing, content_of, changes, changed_content_digest,
}
use kakesu.Work.Digest.Laws.{records_of-injective, records_of-collision}

abbrev told : ℕ → String → Spawned
told status out = record { error = none; status = some status; stdout = out; stderr = "" }

-- One file is new and one is deleted.
abbrev answer : List String → Spawned
answer (command ∷ option ∷ rest) =
    if command == "show"
    then (if option == ":a.md" then told 0 "A\n" else told 128 "")
    else if command == "ls-files"
    then told 0 "a.md\0"
    else if option == "HEAD"
    then told 0 "b.md\0"
    else told 0 "a.md\0b.md\0"
answer _ = told 0 ""

abbrev node : Node
node = record {
  exists = λ path. path == "a.md";
  is_file = λ path. true;
  read_text = λ path. ok "A\n";
  realpath = λ path. ok path;
  spawn = λ root program args. answer args;
  is_absolute = λ path. starts_with path "/";
  resolve = λ root path. path;
  path_join = λ dir file. file;
  normalize = λ path. path;
  extname = λ path. ".md";
  dirname = λ path. path;
  parse_yaml = λ text. ok null;
  parse_date = λ date. none;
  ci = true;
}

-- The digest is the same in the index and in the working tree, where one file is not tracked.
views_test :
    changed_content_digest node (λ s. s) "/r" true ≡ changed_content_digest node (λ s. s) "/r" false
unfolding changed_content_digest listing changes content_of records_of sorted distinct split
    nonempty
views_test = refl

abbrev change : String → String → ChangedFile
change file text = record { file = file; content = some text }

collision_test :
    records_of (change "a" "x\nb\0present\0y" ∷ [])
    ≡ records_of (change "a" "x" ∷ change "b" "y" ∷ [])
collision_test = records_of-collision "a" "x" "b" "y" []

-- The two lists of changes are the same as soon as their records are.
records_of-injective_example :
    (change "a" "x" ∷ change "b" "y" ∷ []) ≡ (change "a" "x" ∷ change "b" "y" ∷ [])
records_of-injective_example =
    records_of-injective (change "a" "x" ∷ change "b" "y" ∷ [])
      (change "a" "x" ∷ change "b" "y" ∷ [])
      (unfold all_chars in ((refl, refl, refl), ((refl, refl, refl), tt)))
      (unfold all_chars in ((refl, refl, refl), ((refl, refl, refl), tt))) refl
