-- ===== src/Commands/Subscribe.antt =====
-- crates/watchwoman/src/commands/subscribe.rs: the loop that pushes changes to a subscriber, and the
-- commands.
pub mod Covered
pub mod Delivery
pub mod Fence
pub mod Examples
use watchwoman.Base.{
  ℕ, Bool, true, false, ◌&&◌, not, Option, none, some, List, [], ◌∷◌, ◌++◌, leb, if◌then◌else◌,
  nat_eq, list_eq,
}
use watchwoman.Base.Text.{Text, ascii}
use watchwoman.Protocol.Utf8.{from_utf8_lossy}
use watchwoman.Protocol.Value.{
  Value, Items, Fields, string, bool, array, object, no_items, item, no_fields, field, insert_field,
}
use watchwoman.Daemon.Clock.{encode, current_tick}
use watchwoman.Daemon.Watch.{TickEvent, SubscriptionSpec}
use watchwoman.Daemon.Root.{Root, promote_to_full, add_subscription, remove_subscription}
use watchwoman.Daemon.State.{DaemonState}
use watchwoman.Query.Expr.Parse.{Parsed, ok, bad, second, str_of}
use watchwoman.Query.Run.{Environment, Spec, QueryResult, parse_spec, run, watchman_compat_version}
use watchwoman.Commands.Outcome.{
  Host, CommandResult, done, failed, bad_args, bad_spec, obj, text_value, put_back, scan, with_root,
}

-- What the loop has of one subscription.
pub record Subscriber : Type 0 where
  pub name : Text
  pub root_path : Text
  pub raw_spec : Value

-- Where the loop goes on from, and what it enqueued.
pub record Pushed : Type 0 where
  pub root : Root
  pub last_tick : ℕ
  pub sent : List Value
  pub running : Bool

-- The subscription's query, asking for what changed since a clock.
abbrev own_fields : Value → Fields
own_fields (object o) = o
own_fields _ = no_fields

unfoldable pub since_spec : Value → Text → Value
since_spec raw_spec tick_clock =
    object (insert_field (own_fields raw_spec) (ascii "since") (string tick_clock))

abbrev is_empty : Items → Bool
is_empty no_items = true
is_empty (item v vs) = false

unfoldable pub push_pdu : Subscriber → QueryResult → Value
push_pdu sub result = object (
    field (ascii "version") (string watchman_compat_version) (
      field (ascii "subscription") (string sub.name) (
        field (ascii "clock") (string result.clock) (
          field (ascii "is_fresh_instance") (bool result.is_fresh_instance) (
            field (ascii "unilateral") (bool true) (
              field (ascii "root") (string (from_utf8_lossy sub.root_path))
                (field (ascii "files") (array result.files) no_fields)))))))

module _ (env : Environment) (sub : Subscriber) where
  -- What the loop does with a result; `accepts` is whether the session takes the PDU.
  unfoldable pub push_result : Bool → ℕ → Root → QueryResult → Pushed
  push_result accepts tick root result =
      if is_empty result.files && not result.is_fresh_instance
      then record { root = root; last_tick = tick; sent = []; running = true }
      else if accepts
      then record { root = root; last_tick = tick; sent = push_pdu sub result ∷ []; running = true }
      else record { root = root; last_tick = tick; sent = []; running = false }

  unfoldable pub push_parsed : Bool → ℕ → ℕ → Root → Parsed (Spec env) → Pushed
  push_parsed accepts last_tick tick root (bad e) = record {
    root = root;
    last_tick = last_tick;
    sent = [];
    running = false;
  }
  push_parsed accepts last_tick tick root (ok parsed) =
      let (root', result) = run env root parsed in push_result accepts tick root' result

  -- The body of the loop for an event; `is_closed` is whether the session is.
  unfoldable pub on_event : Bool → Bool → ℕ → Root → TickEvent → Pushed
  on_event is_closed accepts last_tick root ev =
      if is_closed
      then record { root = root; last_tick = last_tick; sent = []; running = false }
      else if leb ev.tick last_tick
      then record { root = root; last_tick = last_tick; sent = []; running = true }
      else push_parsed accepts last_tick ev.tick root
          (parse_spec env (since_spec sub.raw_spec (encode root.clock last_tick)))

  abbrev pub stopped : Root → Root
  stopped root = (remove_subscription root sub.name).0

  -- The loop over the events that wait, with a session that stays open.
  unfoldable pub run_push_loop : ℕ → Root → List TickEvent → Pushed
  run_push_loop last_tick root [] = record {
    root = root;
    last_tick = last_tick;
    sent = [];
    running = true;
  }
  run_push_loop last_tick root (ev ∷ evs) =
      let p = on_event false true last_tick root ev in
      let q = run_push_loop p.last_tick p.root evs in
      if p.running then record q { sent = p.sent ++ q.sent } else record p { root = stopped p.root }

-- The commands. A subscription's query runs first; then it is registered, and the loop's channel and its
-- first tick are taken.
abbrev pub subscription_of : Text → Value → SubscriptionSpec
subscription_of name raw_spec = record { name = name; query = raw_spec }

unfoldable pub subscribe_initial : (host : Host) → Root → Spec host.env → Root × QueryResult
subscribe_initial host r parsed = run host.env (promote_to_full r (scan host r)) parsed

unfoldable pub subscribe_fence : Root → Text → Value → Root × ℕ
subscribe_fence r name raw_spec =
    let r' = add_subscription r (subscription_of name raw_spec) in (r', current_tick r'.clock)

unfoldable pub subscribe_pdu : Text → Text → QueryResult → Value
subscribe_pdu path name initial = object (
    field (ascii "version") (string watchman_compat_version) (
      field (ascii "subscribe") (string name) (
        field (ascii "clock") (string initial.clock) (
          field (ascii "is_fresh_instance") (bool initial.is_fresh_instance) (
            field (ascii "root") (text_value path)
              (field (ascii "files") (array initial.files) no_fields))))))

abbrev pub subscribe_parsed :
    (host : Host)
    → Text
    → Value
    → DaemonState
    → Text
    → Root
    → Parsed (Spec host.env)
    → DaemonState × CommandResult
subscribe_parsed host name raw_spec s path r (bad e) = (s, failed (bad_spec e))
subscribe_parsed host name raw_spec s path r (ok parsed) =
    let (r1, initial) = subscribe_initial host r parsed in
    let (r2, start_tick) = subscribe_fence r1 name raw_spec in
    (put_back s path r2, done (subscribe_pdu path name initial))

abbrev pub third : Items → Option Value
third (item a (item b (item c vs))) = some c
third _ = none

abbrev pub subscribe_args :
    Host → Option Text → Option Value → DaemonState → Text → Root → DaemonState × CommandResult
subscribe_args host none raw s path r = (s, failed (bad_args (ascii "subscribe requires a name")))
subscribe_args host (some name) none s path r =
    (s, failed (bad_args (ascii "subscribe requires a query spec")))
subscribe_args host (some name) (some raw_spec) s path r =
    subscribe_parsed host name raw_spec s path r (parse_spec host.env raw_spec)

unfoldable pub subscribe : Host → DaemonState → Items → DaemonState × CommandResult
subscribe host s args =
    with_root host s args (ascii "subscribe requires a root")
      (subscribe_args host (str_of (second args)) (third args))

abbrev pub unsubscribe_named : Option Text → DaemonState → Text → Root → DaemonState × CommandResult
unsubscribe_named none s path r = (s, failed (bad_args (ascii "unsubscribe requires a name")))
unsubscribe_named (some name) s path r =
    let (r', removed) = remove_subscription r name in
    (
      put_back s path r',
      done (obj ((ascii "unsubscribed", bool removed) ∷ (ascii "subscription", string name) ∷ [])),
    )

unfoldable pub unsubscribe : Host → DaemonState → Items → DaemonState × CommandResult
unsubscribe host s args =
    with_root host s args (ascii "unsubscribe requires a root")
      (unsubscribe_named (str_of (second args)))

abbrev pub names_of : List (Text × SubscriptionSpec) → Items
names_of [] = no_items
names_of ((key, spec) ∷ subs) = item (string spec.name) (names_of subs)

unfoldable pub flush_subscriptions : Host → DaemonState → Items → DaemonState × CommandResult
flush_subscriptions host s args =
    with_root host s args (ascii "flush requires a root")
      λ s' path r. (s', done (obj ((ascii "synced", array (names_of r.subscriptions)) ∷ [])))
