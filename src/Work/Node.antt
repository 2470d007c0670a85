-- ===== src/Work/Node.antt =====
-- What lib.mjs asks of the platform, and its calls of git. A function of the platform that throws
-- is a `Result`.
use kakesu.Prelude.{
  ℕ, String, Bool, true, false, Option, none, some, List, ◌==◌, nat_eq, if◌then◌else◌,
}
use kakesu.Js.{Value, ℤ}
use kakesu.Js.Trim.{trim}
use kakesu.Result.{Result, ok, throw}

-- What `spawnSync` gives back for text output; `error` is set where the program did not start.
pub record Spawned : Type 0 where
  pub error : Option String
  pub status : Option ℕ
  pub stdout : String
  pub stderr : String

pub record Node : Type 0 where
  -- `fs`
  pub exists : String → Bool
  pub is_file : String → Bool
  pub read_text : String → Result String
  pub realpath : String → Result String
  -- `spawnSync(program, args, { cwd })`: the directory, the program and its arguments
  pub spawn : String → String → List String → Spawned
  -- `path`; `resolve` is given two arguments
  pub is_absolute : String → Bool
  pub resolve : String → String → String
  pub path_join : String → String → String
  pub normalize : String → String
  pub extname : String → String
  pub dirname : String → String
  -- `YAML.parse`, and `Date.parse`, where NaN is `none`
  pub parse_yaml : String → Result Value
  pub parse_date : Value → Option ℤ
  -- `process.env.CI === "true"`
  pub ci : Bool

abbrev pub is_zero : Option ℕ → Bool
is_zero none = false
is_zero (some n) = nat_eq n 0

abbrev or_text : String → String → String
or_text s t = if s == "" then t else s

-- The message where git says nothing starts with the word git.
abbrev diagnostics : Spawned → String
diagnostics r = trim (or_text r.stderr (or_text r.stdout "git "))

-- What `git` of lib.mjs makes of a finished program.
abbrev pub finished : Spawned → Result String
finished r = elim r.error [
  | some e ↦ throw e
  | none ↦ if is_zero r.status then ok (trim r.stdout) else throw (diagnostics r)
]

abbrev pub git : Node → String → List String → Result String
git node root args = finished (node.spawn root "git" args)

-- Whether a command succeeded, where a failure is caught.
abbrev pub succeeds {ℓ} : {A : Type ℓ} → Result A → Bool
succeeds (ok _) = true
succeeds (throw _) = false
