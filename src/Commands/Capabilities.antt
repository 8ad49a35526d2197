-- ===== src/Commands/Capabilities.antt =====
-- crates/watchwoman/src/commands/info.rs: the capabilities that the daemon lists.
use watchwoman.Base.{List, [], ◌∷◌}
use watchwoman.Base.Text.{Text, ascii}

abbrev pub capabilities : List Text
capabilities =
    ascii "bser-v2"
    ∷ ascii "clock-sync-timeout"
    ∷ ascii "cmd-clock"
    ∷ ascii "cmd-debug-ageout"
    ∷ ascii "cmd-debug-contenthash"
    ∷ ascii "cmd-debug-fsevents-inject-drop"
    ∷ ascii "cmd-debug-get-asserted-states"
    ∷ ascii "cmd-debug-get-subscriptions"
    ∷ ascii "cmd-debug-kqueue-and-fsevents-recrawl"
    ∷ ascii "cmd-debug-poll-for-settle"
    ∷ ascii "cmd-debug-recrawl"
    ∷ ascii "cmd-debug-root-status"
    ∷ ascii "cmd-debug-set-parallel-crawl"
    ∷ ascii "cmd-debug-set-subscriptions-paused"
    ∷ ascii "cmd-debug-show-cursors"
    ∷ ascii "cmd-debug-status"
    ∷ ascii "cmd-debug-symlink-target-cache"
    ∷ ascii "cmd-debug-watcher-info"
    ∷ ascii "cmd-debug-watcher-info-clear"
    ∷ ascii "cmd-find"
    ∷ ascii "cmd-flush-subscriptions"
    ∷ ascii "cmd-get-config"
    ∷ ascii "cmd-get-log"
    ∷ ascii "cmd-get-pid"
    ∷ ascii "cmd-get-sockname"
    ∷ ascii "cmd-global-log-level"
    ∷ ascii "cmd-list-capabilities"
    ∷ ascii "cmd-log"
    ∷ ascii "cmd-log-level"
    ∷ ascii "cmd-query"
    ∷ ascii "cmd-shutdown-server"
    ∷ ascii "cmd-since"
    ∷ ascii "cmd-status"
    ∷ ascii "cmd-state-enter"
    ∷ ascii "cmd-state-leave"
    ∷ ascii "cmd-subscribe"
    ∷ ascii "cmd-trigger"
    ∷ ascii "cmd-trigger-del"
    ∷ ascii "cmd-trigger-list"
    ∷ ascii "cmd-unsubscribe"
    ∷ ascii "cmd-version"
    ∷ ascii "cmd-watch"
    ∷ ascii "cmd-watch-del"
    ∷ ascii "cmd-watch-del-all"
    ∷ ascii "cmd-watch-list"
    ∷ ascii "cmd-watch-project"
    ∷ ascii "dedup_results"
    ∷ ascii "field-cclock"
    ∷ ascii "field-content.sha1hex"
    ∷ ascii "field-ctime"
    ∷ ascii "field-ctime_f"
    ∷ ascii "field-ctime_ms"
    ∷ ascii "field-ctime_ns"
    ∷ ascii "field-ctime_us"
    ∷ ascii "field-dev"
    ∷ ascii "field-exists"
    ∷ ascii "field-gid"
    ∷ ascii "field-ino"
    ∷ ascii "field-mode"
    ∷ ascii "field-mtime"
    ∷ ascii "field-mtime_f"
    ∷ ascii "field-mtime_ms"
    ∷ ascii "field-mtime_ns"
    ∷ ascii "field-mtime_us"
    ∷ ascii "field-name"
    ∷ ascii "field-new"
    ∷ ascii "field-nlink"
    ∷ ascii "field-oclock"
    ∷ ascii "field-size"
    ∷ ascii "field-symlink_target"
    ∷ ascii "field-type"
    ∷ ascii "field-uid"
    ∷ ascii "glob_generator"
    ∷ ascii "path_generator"
    ∷ ascii "relative_root"
    ∷ ascii "scm-git"
    ∷ ascii "scm-hg"
    ∷ ascii "scm-since"
    ∷ ascii "suffix-set"
    ∷ ascii "term-allof"
    ∷ ascii "term-anyof"
    ∷ ascii "term-dirname"
    ∷ ascii "term-empty"
    ∷ ascii "term-exists"
    ∷ ascii "term-false"
    ∷ ascii "term-idirname"
    ∷ ascii "term-imatch"
    ∷ ascii "term-iname"
    ∷ ascii "term-ipcre"
    ∷ ascii "term-match"
    ∷ ascii "term-name"
    ∷ ascii "term-not"
    ∷ ascii "term-pcre"
    ∷ ascii "term-since"
    ∷ ascii "term-size"
    ∷ ascii "term-suffix"
    ∷ ascii "term-true"
    ∷ ascii "term-type"
    ∷ ascii "wildmatch"
    ∷ ascii "wildmatch-multislash"
    ∷ []
