-- ===== src/Commands/Clock.antt =====
-- crates/watchwoman/src/commands/clock.rs.
use watchwoman.Base.{[], ◌∷◌}
use watchwoman.Base.Text.{Text, ascii}
use watchwoman.Protocol.Value.{Items, string}
use watchwoman.Daemon.Root.{Root, clock_string}
use watchwoman.Daemon.Root.Direct.{bump_clock}
use watchwoman.Daemon.State.{DaemonState}
use watchwoman.Commands.Outcome.{Host, CommandResult, done, obj, put_back, with_root}

unfoldable pub clock_of_root : DaemonState → Text → Root → DaemonState × CommandResult
clock_of_root s path r =
    let r' = bump_clock r in
    (put_back s path r', done (obj ((ascii "clock", string (clock_string r')) ∷ [])))

unfoldable pub clock : Host → DaemonState → Items → DaemonState × CommandResult
clock host s args = with_root host s args (ascii "expected a root path") clock_of_root
