-- ===== src/EndToEnd.antt =====
-- test/utils/utils.go: how the end-to-end tests run their commands.
pub mod Outputs
use kube_drift.Common.{
  ℕ, zero, suc, ◌-◌, Bool, Option, none, some, List, [], ◌∷◌, ◌++◌, Text, text, is_empty, length,
  join, lines, has_prefix, if◌then◌else◌,
}
use kube_drift.Errors.{Error, errorf, message}
use kube_drift.Errors.Format.{str, sprintf}

-- exec.Cmd, by the fields that the program uses.
pub record Cmd : Type 0 where
  pub args : List Text
  pub dir : Text
  pub env : List Text

-- The operating system and Ginkgo's writer. A Go pair of a text and an error may have both.
pub record Shell (S : Type 0) : Type 0 where
  pub getwd : S → (Text × Option Error) × S
  pub chdir : Text → S → Option Error × S
  pub environ : S → List Text × S
  pub lookup_env : Text → S → Option Text × S
  pub combined_output : Cmd → S → (Text × Option Error) × S
  pub write : Text → S → S

-- `strings.ReplaceAll(s, old, new)` for an `old` that is not empty; some characters of an occurrence
-- are left to skip.
unfoldable pub replace_from : ℕ → Text → Text → Text → Text
replace_from skip [] old new = []
replace_from (suc skip) (c ∷ s) old new = replace_from skip s old new
replace_from zero (c ∷ s) old new =
    let replaced = replace_from (length old - 1) s old new in
    let kept = replace_from 0 s old new in
    if has_prefix (c ∷ s) old then new ++ replaced else c ∷ kept

unfoldable pub replace_all : Text → Text → Text → Text
unfolding replace_from
replace_all s old new = replace_from 0 s old new

unfoldable pub non_empty : List Text → List Text
non_empty [] = []
non_empty (element ∷ elements) =
    let rest = non_empty elements in if is_empty element then rest else element ∷ rest

unfoldable pub get_non_empty_lines : Text → List Text
unfolding non_empty
get_non_empty_lines output = non_empty (lines output)

abbrev pub e2e_dir : Text
e2e_dir = text "/test/e2e"

-- The project's directory, from the working directory.
unfoldable pub stripped : Text × Option Error → Text × Option Error
unfolding replace_all
stripped (wd, none) = (replace_all wd e2e_dir [], none)
stripped (wd, some e) = (wd, some e)

module _ {S : Type 0} (sh : Shell S) where
  unfoldable pub get_project_dir : S → (Text × Option Error) × S
  unfolding stripped
  get_project_dir s = let (wd, s') = sh.getwd s in (stripped wd, s')

  -- The chdir of `Run`, whose failure is only reported.
  unfoldable pub entered : Text → S → S
  entered dir s =
      let (e, s') = sh.chdir dir s in
      elim e [
        | none ↦ s'
        | some x ↦ sh.write (sprintf (text "chdir dir: %s\n") (str (message x) ∷ [])) s'
      ]

  -- What `Run` returns for the output of a command.
  unfoldable pub reported : Text → Text × Option Error → Text × Option Error
  reported command (output, none) = (output, none)
  reported command (output, some e) = (
    output,
    some (errorf "%s failed with error: (%v) %s" (str command ∷ str (message e) ∷ str output ∷ [])),
  )

  -- The command's own `Dir` and `Env` are set as well; no caller reads them.
  unfoldable pub run : Cmd → S → (Text × Option Error) × S
  unfolding get_project_dir entered reported
  run cmd s =
      let ((dir, _), s1) = get_project_dir s in
      let (env, s2) = sh.environ (entered dir s1) in
      let command = join (text " ") cmd.args in
      let s3 = sh.write (sprintf (text "running: %s\n") (str command ∷ [])) s2 in
      let started : Cmd = record cmd { dir = dir; env = env ++ text "GO111MODULE=on" ∷ [] } in
      let (result, s4) = sh.combined_output started s3 in (reported command result, s4)

  unfoldable pub cluster_or_default : Option Text → Text
  cluster_or_default none = text "kind"
  cluster_or_default (some v) = v

  unfoldable pub load_image_to_kind_cluster_with_name : Text → S → Option Error × S
  unfolding run cluster_or_default
  load_image_to_kind_cluster_with_name name s =
      let (v, s1) = sh.lookup_env (text "KIND_CLUSTER") s in
      let cluster = cluster_or_default v in
      let args =
        text "kind" ∷ text "load" ∷ text "docker-image" ∷ name ∷ text "--name" ∷ cluster ∷ [] in
      let ((_, e), s2) = run (record { args = args; dir = []; env = [] }) s1 in (e, s2)
