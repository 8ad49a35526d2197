-- ===== src/Commands/Dispatch/Sound.antt =====
-- Whatever a client sends, the roots stay sound and the answer is an object with a version.
use watchwoman.Base.{
  ◌≡◌, refl, true, List, [], ◌∷◌, ◌++◌, inl, inr, Bool-cases, nat_eq, list_eq, ◌==◌, All,
  All-append, is_some, Option-cases,
}
use watchwoman.Base.Map
use watchwoman.Base.Text.{Text, ascii}
use watchwoman.Protocol.Value.{
  Value, Items, Fields, null, bool, int, real, string, bytes, array, object, template, no_items,
  item, get_field, as_object,
}
use watchwoman.Daemon.State.{DaemonState}
use watchwoman.Commands.Outcome.{Host, CommandResult, done, failed}
use watchwoman.Commands.Dispatch.{
  Handler, Reports, commands, info_commands, root_commands, debug_commands, handle, dispatch,
  dispatch_inner, dispatch_array, with_version, response_of,
}
use watchwoman.Query.Expr.Parse.{first, second, str_of}
use watchwoman.Commands.Info
use watchwoman.Commands.Status
use watchwoman.Commands.Info.{config_of}
use watchwoman.Commands.Dispatch.Kept.{Kept, HasRoom, Good, IsAnswer}
use watchwoman.Commands.Dispatch.Handlers.{Keeps, roots-Keep, debug-Keep}

-- An object with a version.
abbrev pub HasVersion : Value → Type 0
HasVersion v = (fs : Fields) × (v ≡ object fs) × (is_some (get_field fs (ascii "version")) ≡ true)

with_version-HasVersion : (v : Value) → is_some (as_object v) ≡ true → HasVersion (with_version v)
unfolding with_version get_field
with_version-HasVersion (object m) h = elim (Bool-cases (is_some (get_field m (ascii "version")))) [
  | inl there ↦ rw (there, with_version) (m, refl, there)
  | inr absent ↦ rw (absent, with_version) (_, refl, refl)
]
with_version-HasVersion null h = cc
with_version-HasVersion (bool b) h = cc
with_version-HasVersion (int z) h = cc
with_version-HasVersion (real x) h = cc
with_version-HasVersion (string x) h = cc
with_version-HasVersion (bytes x) h = cc
with_version-HasVersion (array x) h = cc
with_version-HasVersion (template ks rs) h = cc

response-HasVersion :
    (reports : Reports) (result : CommandResult)
    → IsAnswer result
    → HasVersion (with_version (response_of reports result))
response-HasVersion reports (done v) h = with_version-HasVersion v h
response-HasVersion reports (failed e) h = with_version-HasVersion _ refl

module _ (host : Host) (reports : Reports) where
  log-IsAnswer : (args : Items) → IsAnswer (Info.log args)
  unfolding Info.log
  log-IsAnswer args = elim (Option-cases (str_of (second args))) [
    | inl absent ↦ rw (absent, Info.log) tt
    | inr (msg, found) ↦ rw (found, Info.log) refl
  ]

  get_config-IsAnswer : (args : Items) → IsAnswer (Info.get_config reports.process args)
  unfolding Info.get_config
  get_config-IsAnswer args = elim (Option-cases (config_of reports.process (str_of (first args)))) [
    | inl absent ↦ rw (absent, Info.get_config) refl
    | inr (config, found) ↦ rw (found, Info.get_config) refl
  ]

  info-Keep : All (λ (c : Text × Handler). Keeps c.1) (info_commands host reports)
  unfolding Info.get_sockname Info.get_pid Info.version Info.list_capabilities Info.log_level
      Info.get_log Status.status
  info-Keep = (
    (λ s args kept room. (kept, refl)),
    (
      (λ s args kept room. (kept, refl)),
      (
        (λ s args kept room. (kept, refl)),
        (
          (λ s args kept room. (kept, refl)),
          (
            (λ s args kept room. (kept, get_config-IsAnswer args)),
            (
              (λ s args kept room. (kept, refl)),
              (
                (λ s args kept room. (kept, log-IsAnswer args)),
                (
                  (λ s args kept room. (kept, refl)),
                  ((λ s args kept room. (kept, refl)), ((λ s args kept room. (kept, refl)), tt)),
                ),
              ),
            ),
          ),
        ),
      ),
    ),
  )

  commands-Keep : All (λ (c : Text × Handler). Keeps c.1) (commands host reports)
  unfolding commands
  commands-Keep =
      All-append (λ (c : Text × Handler). Keeps c.1) (info_commands host reports)
        (root_commands host reports ++ debug_commands host reports) info-Keep
        (All-append (λ (c : Text × Handler). Keeps c.1) (root_commands host reports)
          (debug_commands host reports) (roots-Keep host reports) (debug-Keep host reports))

  handle-Good :
      (table : List (Text × Handler)) (name : Text)
      → All (λ (c : Text × Handler). Keeps c.1) table
      → Keeps (handle name (Map.get table name))
  unfolding Map.get
  handle-Good [] name keeps s args kept room = (kept, tt)
  handle-Good ((key, handler) ∷ table) name (keep, keeps) s args kept room =
      elim (Bool-cases (key == name)) [
        | inl here ↦ rw here (keep s args kept room)
        | inr there ↦ rw there (handle-Good table name keeps s args kept room)
      ]

  dispatch_inner-Good :
      (s : DaemonState) (pdu : Value)
      → Kept s
      → HasRoom s
      → Good (dispatch_inner host reports s pdu)
  unfolding dispatch_inner dispatch_array
  dispatch_inner-Good s (array (item (string name) args)) kept room =
      handle-Good (commands host reports) name commands-Keep s args kept room
  dispatch_inner-Good s (array no_items) kept room = (kept, tt)
  dispatch_inner-Good s (array (item null args)) kept room = (kept, tt)
  dispatch_inner-Good s (array (item (bool b) args)) kept room = (kept, tt)
  dispatch_inner-Good s (array (item (int z) args)) kept room = (kept, tt)
  dispatch_inner-Good s (array (item (real x) args)) kept room = (kept, tt)
  dispatch_inner-Good s (array (item (bytes x) args)) kept room = (kept, tt)
  dispatch_inner-Good s (array (item (array vs) args)) kept room = (kept, tt)
  dispatch_inner-Good s (array (item (object o) args)) kept room = (kept, tt)
  dispatch_inner-Good s (array (item (template ks rs) args)) kept room = (kept, tt)
  dispatch_inner-Good s null kept room = (kept, tt)
  dispatch_inner-Good s (bool b) kept room = (kept, tt)
  dispatch_inner-Good s (int z) kept room = (kept, tt)
  dispatch_inner-Good s (real x) kept room = (kept, tt)
  dispatch_inner-Good s (string x) kept room = (kept, tt)
  dispatch_inner-Good s (bytes x) kept room = (kept, tt)
  dispatch_inner-Good s (object o) kept room = (kept, tt)
  dispatch_inner-Good s (template ks rs) kept room = (kept, tt)

  -- Whatever value a client sends, a daemon with distinct paths and sound roots (exact indexes, no
  -- entry, cursor or oldest tick past the clock) has them so after the dispatch of the command, if
  -- no root's clock is at the last u64.
  pub dispatch-Kept :
      (s : DaemonState) (pdu : Value) → Kept s → HasRoom s → Kept (dispatch host reports s pdu).0
  unfolding dispatch
  dispatch-Kept s pdu kept room = (dispatch_inner-Good s pdu kept room).0

  -- Whatever value a client sends to a daemon with distinct paths and sound roots whose clocks are
  -- not at the last u64, the response is an object that has a version.
  pub dispatch-HasVersion :
      (s : DaemonState) (pdu : Value)
      → Kept s
      → HasRoom s
      → HasVersion (dispatch host reports s pdu).1
  unfolding dispatch
  dispatch-HasVersion s pdu kept room =
      response-HasVersion reports (dispatch_inner host reports s pdu).1
        (dispatch_inner-Good s pdu kept room).1
