-- ===== src/Surface/Balances.antt =====
-- The cache of tool-pairing.ts, of 04-code-samples/packages/compaction/compaction/src, on the surface
-- that surface.ts keeps of a growing log.
use agent_runtime_notes.Surface.Growth.{Appended, fold_events-Appended}
use agent_runtime_notes.Pairing.{
  BalanceCache, Surface, rebuild, tool_pairing_balanced_after, tool_pairing_balanced_before,
}
use agent_runtime_notes.Base.{List, length, none, ok, refl, some, sym, ℕ, ◌++◌, ◌+◌, ◌∙◌, ◌≡◌}
use agent_runtime_notes.Session.{SessionEvent}
use agent_runtime_notes.Surface.Planning.{SurfaceFold, fold_window}
use agent_runtime_notes.Surface.{SurfaceFoldState}
use agent_runtime_notes.Surface.Incremental.{fold_window-at}
use agent_runtime_notes.Pairing.Incremental.{surface_of, tool_pairing_balanced_rebuild}

abbrev pub as_surface : SurfaceFoldState → Surface
as_surface state = surface_of state.replace_generation state.nodes

fold_window-Appended :
    (base : ℕ) (events more : List SessionEvent) (old new : SurfaceFold)
    → fold_window base events ≡ ok old
    → fold_window base (events ++ more) ≡ ok new
    → Appended old.0 new.0
fold_window-Appended base events more old new f g =
    fold_events-Appended (events ++ more) base (base + length events) old new more
      (sym (fold_window-at (events ++ more) base events more old refl f) ∙ g)

-- When the fold takes a log and the same log grown by more events, and the balance cache was built
-- on the surface of the first, then both tool-pairing queries answer or throw with that cache, on
-- the grown log and its surface, as they do without a cache.
pub tool_pairing_balanced_grown :
    (events more : List SessionEvent) (old new : SurfaceFold) (c : BalanceCache) (seq : ℕ)
    → fold_window 0 events ≡ ok old
    → fold_window 0 (events ++ more) ≡ ok new
    → rebuild events (as_surface old.0) ≡ ok c
    → (tool_pairing_balanced_before (some c) (events ++ more) (as_surface new.0) seq
        ≡ tool_pairing_balanced_before none (events ++ more) (as_surface new.0) seq)
      × (tool_pairing_balanced_after (some c) (events ++ more) (as_surface new.0) seq
          ≡ tool_pairing_balanced_after none (events ++ more) (as_surface new.0) seq)
tool_pairing_balanced_grown events more old new c seq f g r =
    let (grown, appended) = fold_window-Appended 0 events more old new f g in
    tool_pairing_balanced_rebuild events more old.0.replace_generation old.0.nodes c
      (as_surface new.0) seq r appended
