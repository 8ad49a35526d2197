-- ===== src/Commands/Info/Reaping.antt =====
-- What the report says of a root, and what the collector makes of it.
use watchwoman.Base.{
  ℕ, ◌%◌, ◌^◌, ◌<◌, ◌≡◌, ◌≢◌, ◌↔◌, refl, subst, Option, Bool, true, false, none, some, arith, ltb,
  leb, nat_eq, Bool-cases, inl, inr,
}
use native.Mathlib.Nat.{mod-eq_of_lt}
use watchwoman.Base.Int.{pos}
use watchwoman.Daemon.Root.{
  Root, subscription_count, trigger_count, idle_seconds, mark_missing, mark_present,
  prune_tombstones,
}
use watchwoman.Daemon.State.{is_stale, dead_tick_threshold}
use watchwoman.Daemon.State.Gc.{swept}
use watchwoman.Commands.Info.{as_signed, gone, unused, classify_health, health_of}

as_signed_small : (n : ℕ) → n < 2 ^ 63 → as_signed n ≡ pos n
as_signed_small n h =
    let whole : n % 2 ^ 64 ≡ n = mod-eq_of_lt (omega arith) in
    let small : ltb n (2 ^ 63) ≡ true = ground arith in rw (whole, small) refl

-- Numbers that the report's i64 can hold.
pub record IsSmall (stale_secs now : ℕ) (r : Root) : Type 0 where
  pub stale_small : stale_secs < 2 ^ 63
  pub now_small : now < 2 ^ 63
  pub subs_small : subscription_count r < 2 ^ 63
  pub triggers_small : trigger_count r < 2 ^ 63
  pub misses_small : r.missing_ticks < 2 ^ 32

health_by_counts :
    (stale_secs now : ℕ) (exists : Bool) (r : Root)
    → IsSmall stale_secs now r
    → health_of stale_secs now exists r
      ≡ classify_health
          (pos stale_secs)
          exists
          (pos r.missing_ticks)
          (pos (idle_seconds r now))
          (pos (subscription_count r))
          (pos (trigger_count r))
unfolding health_of
health_by_counts stale_secs now exists r small =
    rw
      (
        as_signed_small stale_secs small.stale_small,
        as_signed_small r.missing_ticks (omega (arith, small.misses_small)),
        as_signed_small (idle_seconds r now) (omega (arith, small.now_small)),
        as_signed_small (subscription_count r) small.subs_small,
        as_signed_small (trigger_count r) small.triggers_small,
      )
      refl

-- Whatever the settings and the root, within the report's i64, `status` reports a root as stale
-- exactly if its directory is there and a sweep at that time would collect it.
pub health_of-swept :
    (stale_secs now : ℕ) (exists : Bool) (r : Root)
    → IsSmall stale_secs now r
    → (health_of stale_secs now exists r ≡ unused)
      ↔ ((exists ≡ true) × (swept stale_secs now exists r ≡ none))
unfolding classify_health swept mark_present
health_of-swept stale_secs now true r small =
    rw (health_by_counts stale_secs now true r small) (ground arith)
health_of-swept stale_secs now false r small =
    rw (health_by_counts stale_secs now false r small) (ground arith)

-- A root that is left has missed at most one sweep.
abbrev FewMisses : Option Root → Type 0
FewMisses none = Unit
FewMisses (some r) = r.missing_ticks < 2

prune_tombstones-misses : (r : Root) → (prune_tombstones r).0.missing_ticks ≡ r.missing_ticks
unfolding prune_tombstones
prune_tombstones-misses r = ground arith

swept-FewMisses :
    (stale_secs now : ℕ) (exists : Bool) (r : Root) → FewMisses (swept stale_secs now exists r)
unfolding swept mark_present mark_missing
swept-FewMisses stale_secs now true r =
    elim (Bool-cases (is_stale stale_secs now (mark_present r))) [
      | inl collected ↦ rw collected tt
      | inr left ↦ rw left (omega (arith, prune_tombstones-misses (mark_present r)))
    ]
swept-FewMisses stale_secs now false r =
    elim (Bool-cases (leb dead_tick_threshold (mark_missing r).1)) [
      | inl collected ↦ rw collected tt
      | inr left ↦ rw left (ground (arith, left))
    ]

few-ne-gone :
    (stale_secs now : ℕ) (exists : Bool) (r : Root)
    → r.missing_ticks < 2
    → health_of stale_secs now exists r ≢ gone
unfolding health_of classify_health
few-ne-gone stale_secs now exists r few dead =
    let small = as_signed_small r.missing_ticks (omega arith) in
    let read = rw small at dead in ground (arith, few, read)

-- A root that a sweep left is not reported as dead, at any later time and whether or not its
-- directory is there.
pub swept-ne-gone :
    (stale_secs now : ℕ) (was : Bool) (r r' : Root) (stale_secs' later : ℕ) (exists : Bool)
    → swept stale_secs now was r ≡ some r'
    → health_of stale_secs' later exists r' ≢ gone
swept-ne-gone stale_secs now was r r' stale_secs' later exists kept =
    few-ne-gone stale_secs' later exists r'
      (subst FewMisses kept (swept-FewMisses stale_secs now was r))
