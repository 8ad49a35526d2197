-- ===== src/Query/Run/Mirrored/Examples.antt =====
-- A query on a root that follows a disk with a directory and a file.
use watchwoman.Base.{◌≡◌, refl, true, none, some, [], ◌∷◌, ◌⊎◌}
use watchwoman.Base.Text.{FilePath, ascii, strip_prefix}
use watchwoman.Protocol.Utf8.{from_utf8_lossy}
use watchwoman.Commands.Examples.{directory}
use watchwoman.Daemon.Entry.{FileEntry, from_metadata}
use watchwoman.Daemon.Root.Examples.{lib_rs}
use watchwoman.Daemon.JjScope.Examples.{files}
use watchwoman.Daemon.Watcher.Batch.{is_hidden}
use watchwoman.Daemon.Watcher.Mirror.{timeless, content, on_disk}
use watchwoman.Daemon.Watcher.Examples.{after, swept_root, swept-Followed, swept-is_hidden}
use watchwoman.Query.Paths.{file_name}
use watchwoman.Query.Field.{name}
use watchwoman.Query.Run.{QueryResult, run, is_cookie}
use watchwoman.Query.Run.Examples.{nothing}
use watchwoman.Query.Run.Mirrored.{
  Lists, everything, row, run-everything_complete, run-everything_sound,
}

-- A root that follows a disk with a file, asked for the names of all that exists.
abbrev asked : QueryResult
asked = (run nothing swept_root (everything nothing (name ∷ []))).1

abbrev on : FileEntry
on = timeless (from_metadata directory none 0)

run-everything_complete_example :
    (e : FileEntry) × (content (some e) ≡ some on)
    × Lists (row nothing swept_root (name ∷ []) lib_rs e) asked.files
run-everything_complete_example =
    run-everything_complete nothing files (ascii "repo" ∷ []) swept-Followed (name ∷ []) lib_rs on
      swept-is_hidden (unfold is_cookie file_name from_utf8_lossy strip_prefix in refl) refl

listed :
    (e : FileEntry) × (content (some e) ≡ some on)
    × Lists (row nothing swept_root (name ∷ []) lib_rs e) asked.files
listed =
    run-everything_complete nothing files (ascii "repo" ∷ []) swept-Followed (name ∷ []) lib_rs on
      swept-is_hidden (unfold is_cookie file_name from_utf8_lossy strip_prefix in refl) refl

run-everything_sound_example :
    (j : FilePath) × (e : FileEntry) × (row nothing swept_root (name ∷ []) lib_rs listed.0
      ≡ row nothing swept_root (name ∷ []) j e)
    × ((is_hidden swept_root.ignores j ≡ true)
        ⊎ (content (some e) ≡ on_disk (after (ascii "repo" ∷ j))))
run-everything_sound_example =
    run-everything_sound nothing files (ascii "repo" ∷ []) swept-Followed (name ∷ [])
      (row nothing swept_root (name ∷ []) lib_rs listed.0) listed.2
