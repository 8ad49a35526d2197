-- ===== src/Daemon/Scm.antt =====
-- crates/watchwoman/src/daemon/scm.rs: the paths that git or hg report as changed. Running a program and
-- `str::trim` are parameters.
use watchwoman.Base.{Option, none, some, List, [], ◌∷◌, ◌++◌, ◌==◌, nat_eq, list_eq, if◌then◌else◌}
use watchwoman.Base.Text.{Text, FilePath, ascii, split}
use watchwoman.Daemon.Clock.{ScmVcs, git, hg}
use watchwoman.Query.Paths.{normal_components}

-- `run` has the directory, the program and its arguments; nothing if it fails.
pub record Programs : Type 0 where
  pub run : Text → Text → List Text → Option Text
  pub trim : Text → Text

abbrev or_empty : Option Text → Text
or_empty none = []
or_empty (some s) = s

abbrev trimmed_or : (Text → Text) → Text → Option Text → Text
trimmed_or trim default none = default
trimmed_or trim default (some s) = trim s

module _ (programs : Programs) (root : Text) where
  abbrev git_run : List Text → Option Text
  git_run args = programs.run root (ascii "git") args

  abbrev diff : Text → Option Text
  diff range = git_run (ascii "diff" ∷ ascii "--name-only" ∷ ascii "--relative" ∷ range ∷ [])

  abbrev merge_base : Text → Text
  merge_base mergebase =
      if mergebase == []
      then ascii "HEAD"
      else trimmed_or programs.trim mergebase
          (git_run (ascii "merge-base" ∷ ascii "HEAD" ∷ mergebase ∷ []))

  unfoldable pub git_changed : Text → Option Text
  git_changed mergebase = elim (diff (merge_base mergebase ++ ascii "..HEAD")) [
    | none ↦ none
    | some changed ↦
        let working = or_empty (diff (ascii "HEAD")) in
        let untracked =
          or_empty
            (git_run (ascii "ls-files" ∷ ascii "--others" ∷ ascii "--exclude-standard" ∷ [])) in
        some (changed ++ b'\n' ∷ (working ++ b'\n' ∷ untracked))
  ]

  unfoldable pub hg_changed : Text → Option Text
  hg_changed mergebase =
      let rev_arg = if mergebase == [] then ascii ".^" else mergebase in
      programs.run root (ascii "hg")
        (ascii "status" ∷ ascii "--no-status" ∷ ascii "--rev" ∷ rev_arg ∷ [])

  -- The loop over the lines. A path that is not of normal components equals no path of an index.
  unfoldable pub paths_of_lines : List Text → List FilePath
  paths_of_lines [] = []
  paths_of_lines (l ∷ lines) =
      let line = programs.trim l in
      let rest = paths_of_lines lines in
      if line == []
      then rest
      else elim (normal_components line) [ none ↦ rest | some rel ↦ rel ∷ rest ]

  abbrev output_of : ScmVcs → Text → Option Text
  output_of git mergebase = git_changed mergebase
  output_of hg mergebase = hg_changed mergebase

  unfoldable pub changed_paths : ScmVcs → Text → Option (List FilePath)
  changed_paths vcs mergebase = elim (output_of vcs mergebase) [
    | none ↦ none
    | some out ↦ some (paths_of_lines (split b'\n' out))
  ]
