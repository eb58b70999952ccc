-- ===== src/Station/Register/Early/Whole.antt =====
-- The whole of `rs_line_register_early_reshuffle_r`, and the blocks under
-- `rs_line_register_early_reshuffle_w`.
use palermo_oram.Base.{
  ℕ, ◌≤◌, ◌<◌, ◌≡◌, refl, sym, ap, subst, ◌∙◌, Bool, Option, true, false, ◌&&◌, ◌||◌, some, List,
  [], leb, ltb, if◌then◌else◌, ◌>>=◌, >>=-eq-some, assert, get_elem?, store_at, length, for_each,
  for_each_inv, range, arith, lt-of_get_elem?,
}
use palermo_oram.Params.{bucket_slots}
use palermo_oram.Bucket.{Bucket, flush_offset}
use palermo_oram.Tree.{slot_address}
use palermo_oram.Store.{Store, pull_slot}
use palermo_oram.Store.Blocks.{Holds}
use palermo_oram.State.{RsLine, useful, dummy, early_pull, early_push, early, Rs, modify_line}
use palermo_oram.Station.Core.{Core, core, modify_line-core, open_line-core, mshr_add-core, core_of}
use palermo_oram.Station.Core.Lines.{close_line-core, request_early_pull-core, ld_fwd_st_check-core}
use palermo_oram.Station.Mshr.{mshr_add}
use palermo_oram.Station.Forward.{ld_fwd_st_check}
use palermo_oram.Station.Register.{no_address, open_line, close_line, request_early_pull}
use palermo_oram.Station.Register.Early.{
  early_nodes, pull_early_slot, mark_early, skip_early, push_early_slot,
  rs_line_register_early_reshuffle_r, rs_line_register_early_reshuffle_w,
}
use palermo_oram.Station.Register.Early.Bare.{IsPulled, pull_slots}

-- A loop whose rounds keep the blocks keeps them.
pub for_each-core {ℓ} :
    {A : Type ℓ} (body : A → Rs → Option Rs)
    → ((x : A) (r r' : Rs) → body x r ≡ some r' → core r' ≡ core r)
    → (xs : List A) (r r' : Rs) → for_each body xs r ≡ some r'
    → core r' ≡ core r
for_each-core body keep xs r r' e =
    for_each_inv (λ q. core q ≡ core r) body (λ x s s' same e'. keep x s s' e' ∙ same) xs r refl e

maybe_skip :
    (b : Bool) (g : RsLine → Option RsLine) (r r' : Rs)
    → (if b then modify_line r.tail g r else some r) ≡ some r'
    → core r' ≡ core r
maybe_skip true g r r' e = modify_line-core r.tail g r r' e
maybe_skip false g r r' e = core_of r r' e

-- The last part of the pull: flags, requests and the end.
rest-core :
    (f g : RsLine → Option RsLine) (cached : Rs → Bool) (node : ℕ) (r r' : Rs)
    → (do
      r₁ ← modify_line r.tail f r
      r₂ ← (if cached r₁ then modify_line r₁.tail g r₁ else some r₁)
      r₃ ← ld_fwd_st_check r₂.tail node true true r₂
      l ← get_elem? r₃.rs_vec r₃.tail
      r₄ ← for_each request_early_pull (range 0 (length l.oram_finished_vec_for_early_pull)) r₃
      close_line false r₄)
      ≡ some r'
    → core r' ≡ core r
rest-core f g cached node r r' e =
    let (r₁, c₁, e₁) = >>=-eq-some (modify_line r.tail f r) _ e in
    let (r₂, c₂, e₂) = >>=-eq-some (if cached r₁ then modify_line r₁.tail g r₁ else some r₁) _ e₁ in
    let (r₃, c₃, e₃) = >>=-eq-some (ld_fwd_st_check r₂.tail node true true r₂) _ e₂ in
    let (l, _, e₄) = >>=-eq-some (get_elem? r₃.rs_vec r₃.tail) _ e₃ in
    let (r₄, c₄, e₅) =
      >>=-eq-some
        (for_each request_early_pull (range 0 (length l.oram_finished_vec_for_early_pull)) r₃) _
        e₄ in
    close_line-core false r₄ r' e₅
    ∙ for_each-core request_early_pull request_early_pull-core _ r₃ r₄ c₄
    ∙ ld_fwd_st_check-core r₂.tail node true true r₂ r₃ c₃
    ∙ maybe_skip (cached r₁) g r₁ r₂ c₂
    ∙ modify_line-core r.tail f r r₁ c₁

-- What stays of the rest while blocks are pulled.
abbrev pub Kept : Rs → Rs → Type 0
Kept r r' = (r'.geo ≡ r.geo) × (r'.metadata_cache ≡ r.metadata_cache)

pub Kept-of_core : (r r' : Rs) → core r' ≡ core r → Kept r r'
Kept-of_core r r' e = (ap (λ (c : Core). c.geo) e, ap (λ (c : Core). c.cache) e)

pull_early_slot-Kept : (node j : ℕ) (r r' : Rs) → pull_early_slot node j r ≡ some r' → Kept r r'
unfolding pull_early_slot
pull_early_slot-Kept node j r r' e =
    let (r₁, c, e₁) = >>=-eq-some (modify_line r.tail _ r) _ e in
    let (g, m) = Kept-of_core r r₁ (modify_line-core r.tail _ r r₁ c) in
    let same : record r₁ { store = pull_slot (slot_address node j) r₁.store } ≡ r' = cc in
    (ap (λ (q : Rs). q.geo) (sym same) ∙ g, ap (λ (q : Rs). q.metadata_cache) (sym same) ∙ m)

pull_loop-Kept :
    (node : ℕ) (xs : List ℕ) (r r' : Rs)
    → for_each (pull_early_slot node) xs r ≡ some r'
    → Kept r r'
pull_loop-Kept node xs r r' e =
    for_each_inv (Kept r) (pull_early_slot node)
      (λ j s s' k e'. let (g, m) = pull_early_slot-Kept node j s s' e' in (g ∙ k.0, m ∙ k.1)) xs r
      (refl, refl) e

-- What the registration of an early pull leaves.
pub record IsEarlyPulled (node lvl : ℕ) (r r' : Rs) : Type 0 where
  pub high : r.geo.start_lvl ≤ lvl
  pub bucket : node < length r'.store.buckets
  pub kept : Kept r r'
  pub pulled : IsPulled r.geo.num_of_lvls r.geo.start_lvl node bucket_slots r.store r'.store

early_pulled :
    (node lvl : ℕ) (r₀ r₁ r₂ r₃ r' : Rs)
    → Holds r₀.geo.num_of_lvls r₀.geo.start_lvl [] r₀.store
    → r₀.geo.start_lvl ≤ lvl
    → core r₁ ≡ core r₀
    → for_each (pull_early_slot node) (range 0 bucket_slots) r₁ ≡ some r₂
    → core r₃ ≡ core r₂
    → {b : Bucket} → get_elem? r₃.store.buckets node ≡ some b
    → core r' ≡ core r₃
    → IsEarlyPulled node lvl r₀ r'
early_pulled node lvl r₀ r₁ r₂ r₃ r' v high k₁ c₂ k₃ {b} at k₄ =
    let n = r₀.geo.num_of_lvls in
    let start = r₀.geo.start_lvl in
    let before : IsPulled n start node 0 r₀.store r₁.store =
      subst (IsPulled n start node 0 r₀.store) (sym (ap (λ (c : Core). c.store) k₁))
        (record { holds = v; known = λ x leaf k. k; bare = λ off lt. absurd (omega arith) }) in
    let after = pull_slots n start node 0 bucket_slots r₀.store r₁ r₂ before c₂ in
    let same = ap (λ (c : Core). c.store) (k₄ ∙ k₃) in
    let (g₁, m₁) = Kept-of_core r₀ r₁ k₁ in
    let (g₂, m₂) = pull_loop-Kept node (range 0 bucket_slots) r₁ r₂ c₂ in
    let (g₃, m₃) = Kept-of_core r₂ r' (k₄ ∙ k₃) in
    record {
      high = high;
      bucket =
          subst (λ (st : Store). node < length st.buckets) (sym (ap (λ (c : Core). c.store) k₄))
            (lt-of_get_elem? r₃.store.buckets node at);
      kept = (g₃ ∙ g₂ ∙ g₁, m₃ ∙ m₂ ∙ m₁);
      pulled = subst (IsPulled n start node bucket_slots r₀.store) (sym same) after;
    }

-- The registration of an early pull.
pub early_reshuffle_r-IsEarlyPulled :
    (node lvl : ℕ) (r r' : Rs)
    → Holds r.geo.num_of_lvls r.geo.start_lvl [] r.store
    → rs_line_register_early_reshuffle_r node lvl r ≡ some r'
    → IsEarlyPulled node lvl r r'
unfolding rs_line_register_early_reshuffle_r
early_reshuffle_r-IsEarlyPulled node lvl r₀ r' v e =
    let n = r₀.geo.num_of_lvls in
    let start = r₀.geo.start_lvl in
    let (_, a, e₁) = >>=-eq-some (assert (leb start lvl && leb r₀.geo.cache_end_nodeid node)) _ e in
    let (r₁, c₁, e₂) = >>=-eq-some (open_line early_pull (some no_address) r₀) _ e₁ in
    let (r₂, c₂, e₃) =
      >>=-eq-some (for_each (pull_early_slot node) (range 0 bucket_slots) r₁) _ e₂ in
    let (r₃, c₃, e₄) =
      >>=-eq-some
        (modify_line r₂.tail (λ l. some (record l { oram_node_id = early_nodes n node lvl })) r₂) _
        e₃ in
    let (b, at, e₅) = >>=-eq-some (get_elem? r₃.store.buckets node) _ e₄ in
    let (_, _, e₆) = >>=-eq-some (flush_offset b []) _ e₅ in
    let k₁ = open_line-core early_pull (some no_address) r₀ r₁ c₁ in
    early_pulled node lvl r₀ r₁ r₂ r₃ r' v (ground arith) k₁ c₂
      (modify_line-core r₂.tail (λ l. some (record l { oram_node_id = early_nodes n node lvl })) r₂
        r₃ c₃)
      at
      (rest-core (λ l. do l₁ ← mark_early useful b.z_arr l; mark_early dummy b.s_arr l₁) skip_early
        (λ q. ltb lvl q.geo.lowest_uncached_lvl || ltb node q.geo.cache_end_nodeid) node r₃ r' e₆)

sent_or_not :
    (b : Bool) (a j : ℕ) (r r' : Rs)
    → (if b then mshr_add a r.tail j false early r else some r) ≡ some r'
    → core r' ≡ core r
sent_or_not true a j r r' e = mshr_add-core a r.tail j false early r r' e
sent_or_not false a j r r' e = core_of r r' e

push_early_slot-core :
    (node lvl j : ℕ) (r r' : Rs) → push_early_slot node lvl j r ≡ some r' → core r' ≡ core r
unfolding push_early_slot
push_early_slot-core node lvl j r r' e =
    let f : RsLine → Option RsLine = (λ l. do
      addrs ← store_at l.oram_addr_for_early_write j (some (slot_address node j))
      flags ← store_at l.oram_finished_vec_for_early_write j true
      some (record l {
        oram_addr_for_early_write = addrs;
        oram_finished_vec_for_early_write = flags;
      })) in
    let (r₁, c, e₁) = >>=-eq-some (modify_line r.tail f r) _ e in
    sent_or_not (leb r.geo.lowest_uncached_lvl lvl && leb r.geo.cache_end_nodeid node)
      (slot_address node j) j r₁ r' e₁
    ∙ modify_line-core r.tail f r r₁ c

-- The registration of the write of a node moves no block.
pub early_reshuffle_w-core :
    (node lvl : ℕ) (r r' : Rs)
    → rs_line_register_early_reshuffle_w node lvl r ≡ some r'
    → core r' ≡ core r
unfolding rs_line_register_early_reshuffle_w
early_reshuffle_w-core node lvl r r' e =
    let n = r.geo.num_of_lvls in
    let (r₁, c₁, e₁) = >>=-eq-some (open_line early_push (some no_address) r) _ e in
    let (r₂, c₂, e₂) =
      >>=-eq-some (for_each (push_early_slot node lvl) (range 0 bucket_slots) r₁) _ e₁ in
    let (r₃, c₃, e₃) =
      >>=-eq-some
        (modify_line r₂.tail (λ l. some (record l { oram_node_id = early_nodes n node lvl })) r₂) _
        e₂ in
    close_line-core true r₃ r' e₃
    ∙ modify_line-core r₂.tail (λ l. some (record l { oram_node_id = early_nodes n node lvl })) r₂
        r₃ c₃
    ∙ for_each-core (push_early_slot node lvl) (push_early_slot-core node lvl) _ r₁ r₂ c₂
    ∙ open_line-core early_push (some no_address) r r₁ c₁
