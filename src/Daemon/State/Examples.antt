-- ===== src/Daemon/State/Examples.antt =====
-- The collector on a daemon with two roots, one of them gone from disk.
use watchwoman.Base.{◌≡◌, refl, Bool, true, false, [], ◌∷◌, arith, ◌==◌, list_eq, nat_eq}
use watchwoman.Base.Map
use watchwoman.Base.Map.{Unique}
use watchwoman.Base.Text.{Text, ascii}
use watchwoman.Protocol.Value.{null}
use watchwoman.Daemon.Watch.{default_ignores}
use watchwoman.Daemon.Root
use watchwoman.Daemon.Root.{Root, add_subscription, mark_present, prune_tombstones}
use watchwoman.Daemon.State
use watchwoman.Daemon.State.{DaemonState, sweep}
use watchwoman.Daemon.State.Gc.{swept, get-sweep}
use watchwoman.Daemon.State.Policy.{IsLogged, sweep-IsLogged}

abbrev used : Root
used =
    add_subscription (Root.new (ascii "/a") 1 default_ignores false 1000 7)
      (record { name = ascii "s"; query = null })

abbrev lost : Root
lost = Root.new (ascii "/b") 2 default_ignores false 1000 7

abbrev daemon : DaemonState
daemon = record State.new { roots = (ascii "/a", used) ∷ (ascii "/b", lost) ∷ [] }

abbrev on_disk : Text → Bool
on_disk path = path == ascii "/a"

daemon-Unique : Unique daemon.roots
unfolding Map.get
daemon-Unique = (refl, (refl, tt))

get-sweep_example :
    Map.get (sweep 3600 90_000 on_disk daemon).roots (ascii "/a") ≡ swept 3600 90_000 true used
unfolding Map.get
get-sweep_example = get-sweep 3600 90_000 on_disk daemon (ascii "/a") daemon-Unique

sweep-IsLogged_example : IsLogged (sweep 3600 90_000 on_disk daemon)
sweep-IsLogged_example = sweep-IsLogged 3600 90_000 on_disk daemon (omega arith)
