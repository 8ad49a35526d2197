-- ===== src/Daemon/JjScope/Examples.antt =====
-- A working copy whose top directory ignores `target`.
use watchwoman.Base.{
  ◌≡◌, true, none, some, Option, [], ◌∷◌, ◌==◌, arith, list_eq, nat_eq, if◌then◌else◌,
}
use watchwoman.Base.Map
use watchwoman.Base.Text.{FilePath, ascii}
use watchwoman.Daemon.JjScope.{IgnoreFiles, no_match, ignored, JjScope, ignored_directory}
use watchwoman.Daemon.JjScope.Cache.{IsCache, last_word, outermost, ignored_directory-outermost}

abbrev repo : FilePath
repo = ascii "repo" ∷ []

abbrev target : FilePath
target = ascii "target" ∷ []

abbrev objects : FilePath
objects = ascii "target" ∷ ascii "debug" ∷ ascii "app" ∷ []

abbrev load : FilePath → Option FilePath
load dir = if dir == repo then some (ascii "repo" ∷ target) else none

abbrev pub files : IgnoreFiles
files = record {
  Matcher = FilePath;
  load = load;
  matched = λ m abs. if abs == m then ignored else no_match;
}

abbrev cold : JjScope files
cold = record { rules = [] }

ignored_directory-outermost_example :
    IsCache files (ignored_directory files repo true cold objects).0
    × ((ignored_directory files repo true cold objects).1 ≡ some target)
unfolding outermost last_word Map.get
ignored_directory-outermost_example =
    ignored_directory-outermost files repo true cold objects
      (record { agrees = λ dir m h. cc; fits = omega arith })
