-- ===== src/Posmap/Access/Early.antt =====
-- An early reshuffle of a node, from the registration of its pull to the refill: `early_pull_node` and
-- `early_push_node`, in step 2 of `init_step` of src/reservation.h.
use palermo_oram.Base.{
  ℕ, ◌≤◌, ◌<◌, ◌≡◌, sym, ap, none, subst, ◌∙◌, some, [], length, >>=-eq-some, ◌+◌, ◌==◌,
  if◌then◌else◌,
}
use palermo_oram.Tree.{Geometry, slot_address}
use palermo_oram.MetadataCache.Access as Cache
use palermo_oram.Store.{Store}
use palermo_oram.Store.Blocks.{Holds}
use palermo_oram.Store.Known.{IsKnown}
use palermo_oram.State.{Random, Rs}
use palermo_oram.Station.Core.{Core, core}
use palermo_oram.Station.Register.Early.{
  rs_line_register_early_reshuffle_r, rs_line_register_early_reshuffle_w,
}
use palermo_oram.Station.Register.Early.Whole.{
  IsEarlyPulled, early_reshuffle_r-IsEarlyPulled, early_reshuffle_w-core,
}
use palermo_oram.Posmap.{Posmap}
use palermo_oram.Posmap.Piggy.One.{CanRenew, IsRenewed, piggy_one-IsRenewed}
use palermo_oram.Posmap.Access.Reading.{with_rs, map_line, early_pull_node, early_push_node}

-- The blocks of the node are in the stash, and the write of the node is registered.
can_renew :
    (node lvl : ℕ) (r₀ r₁ : Rs) (q : Posmap)
    → Cache.IsValid r₀.metadata_cache
    → lvl < r₀.geo.num_of_lvls
    → IsEarlyPulled node lvl r₀ r₁
    → core q.rs ≡ core r₁
    → CanRenew node lvl q
can_renew node lvl r₀ r₁ q valid low d e =
    let geo : q.rs.geo ≡ r₀.geo = ap (λ (c : Core). c.geo) e ∙ d.kept.0 in
    let cache : q.rs.metadata_cache ≡ r₀.metadata_cache = ap (λ (c : Core). c.cache) e ∙ d.kept.1 in
    let store : q.rs.store ≡ r₁.store = ap (λ (c : Core). c.store) e in
    record {
      cache = subst Cache.IsValid (sym cache) valid;
      above = subst (λ (g : Geometry). g.start_lvl ≤ lvl) (sym geo) d.high;
      below = subst (λ (g : Geometry). lvl < g.num_of_lvls) (sym geo) low;
      within = subst (λ (st : Store). node < length st.buckets) (sym store) d.bucket;
      holds =
          subst (λ (g : Geometry). Holds g.num_of_lvls g.start_lvl [] q.rs.store) (sym geo)
            (subst (Holds r₀.geo.num_of_lvls r₀.geo.start_lvl []) (sym store) d.pulled.holds);
      bare = λ off lt.
          subst (λ (st : Store). st.addr_to_origaddr (slot_address node off) ≡ none) (sym store)
            (d.pulled.bare off lt);
    }

-- What is kept from before the pull to after the refill.
pub IsRenewed-since :
    (p q p₂ : Posmap) (r₁ : Rs)
    → q.rs.geo ≡ p.rs.geo
    → q.rs.store ≡ r₁.store
    → ((x leaf : ℕ) → IsKnown p.rs.store x leaf → IsKnown r₁.store x leaf)
    → IsRenewed q p₂
    → IsRenewed p p₂
IsRenewed-since p q p₂ r₁ geo store known w = record {
  geo = w.geo ∙ geo;
  cache = w.cache;
  holds = subst (λ (g : Geometry). Holds g.num_of_lvls g.start_lvl [] p₂.rs.store) geo w.holds;
  known = λ x leaf k. w.known x leaf (subst (λ st. IsKnown st x leaf) (sym store) (known x leaf k));
}

-- An early reshuffle of a node, in a tree that keeps the invariant of the store, with a valid
-- metadata cache and a level of the tree: if the registration of the pull and that of the write
-- succeed, the refill by `piggy_one` finishes, and from before the pull to after the refill the
-- geometry stays, the metadata cache is valid and the invariant holds again, and each block that
-- was in the stash or in a bucket still is, on its way to the same leaf.
pub early_push_node-IsRenewed :
    (random : Random) (task node lvl : ℕ) (p p₁ : Posmap) (r : Rs)
    → Cache.IsValid p.rs.metadata_cache
    → Holds p.rs.geo.num_of_lvls p.rs.geo.start_lvl [] p.rs.store
    → lvl < p.rs.geo.num_of_lvls
    → early_pull_node task (node, lvl) p ≡ some p₁
    → rs_line_register_early_reshuffle_w node lvl (map_line p₁.rs.tail task p₁.rs) ≡ some r
    → (p₂ : Posmap) × (early_push_node random task (node, lvl) p₁ ≡ some p₂) × IsRenewed p p₂
unfolding early_pull_node early_push_node
early_push_node-IsRenewed random task node lvl p p₁ r valid v low pull push =
    let (r₁, e₁, e₂) =
      >>=-eq-some (rs_line_register_early_reshuffle_r node lvl (map_line p.rs.tail task p.rs)) _
        pull in
    let same : with_rs p r₁ ≡ p₁ = cc in
    let d = early_reshuffle_r-IsEarlyPulled node lvl (map_line p.rs.tail task p.rs) r₁ v e₁ in
    let rs : p₁.rs ≡ r₁ = ap (λ (q : Posmap). q.rs) (sym same) in
    let written : core r ≡ core r₁ =
      early_reshuffle_w-core node lvl (map_line p₁.rs.tail task p₁.rs) r push ∙ ap core rs in
    let counted : Rs = record r {
      stats = record (r.stats) {
        lvl_counter = (λ l. if lvl == l then r.stats.lvl_counter l + 1 else r.stats.lvl_counter l);
      };
    } in
    let q = with_rs p₁ counted in
    let can = can_renew node lvl (map_line p.rs.tail task p.rs) r₁ q valid low d written in
    let (p₂, e, w) = piggy_one-IsRenewed random node lvl q can in
    (
      p₂,
      rw push e,
      IsRenewed-since p q p₂ r₁ (ap (λ (c : Core). c.geo) written ∙ d.kept.0)
          (ap (λ (c : Core). c.store) written) d.pulled.known w,
    )
