-- ===== src/Station/Core/Lines.antt =====
-- What the end of a registration of src/reservation.h, its requests and the forwarding leave as it is.
use palermo_oram.Base.{
  ℕ, ◌+◌, ◌%◌, range, ◌≡◌, ◌∙◌, inl, inr, Bool, true, not, ◌&&◌, ◌||◌, Option, none, some, ◌==◌,
  if◌then◌else◌, ◌>>=◌, >>=-eq-some, get_elem?, set, for_each, Bool-cases,
}
use palermo_oram.State.{RsLine, early, Rs, is_init, is_useful}
use palermo_oram.Station.Mshr.{mshr_add, rs_line_commit_attempt}
use palermo_oram.Station.Forward.{ld_fwd_st_check, mark_finished, forward_node, forward_write, back}
use palermo_oram.Station.Register.{
  count_unfinished, close_line, request_early_pull, count_early_pull,
}
use palermo_oram.Station.Core.{core, core_of, maybe_commit-core, modify_line-core, mshr_add-core}

next_tail-core :
    (b : Bool) (r r' : Rs)
    → ((if b then (rs_line_commit_attempt r >>= λ (_, q). some q) else some r) >>= λ r₂.
        some (record r₂ { tail = (r₂.tail + 1) % r₂.geo.num_of_entries }))
      ≡ some r'
    → core r' ≡ core r
next_tail-core b r r' e =
    let (r₂, c, e₁) =
      >>=-eq-some (if b then (rs_line_commit_attempt r >>= λ (_, q). some q) else some r) _ e in
    core_of (record r₂ { tail = (r₂.tail + 1) % r₂.geo.num_of_entries }) r' e₁
    ∙ maybe_commit-core b r r₂ c

pub close_line-core : (w : Bool) (r r' : Rs) → close_line w r ≡ some r' → core r' ≡ core r
unfolding close_line
close_line-core w r r' e =
    let (l, _, e₁) = >>=-eq-some (get_elem? r.rs_vec r.tail) _ e in
    let ready = l.oram_unfinished_cnt == 0 in
    let l' : RsLine = record l {
      valid = true;
      ready = ready;
      is_write = w;
      leading_write_line_num = some r.last_write_line;
    } in
    let r₁ : Rs = record r {
      rs_vec = set r.rs_vec r.tail l';
      last_write_line = (if w then r.tail else r.last_write_line);
    } in
    next_tail-core (ready && r.tail == r.head) r₁ r' e₁

pub count_unfinished-core : (r r' : Rs) → count_unfinished r ≡ some r' → core r' ≡ core r
count_unfinished-core r r' e =
    modify_line-core r.tail
      (λ l. some (record l { oram_unfinished_cnt = l.oram_unfinished_cnt + 1 })) r r' e

-- A line that is put back.
put_back-core :
    (m : Option RsLine) (n : ℕ) (r r' : Rs)
    → (m >>= λ l. some (record r { rs_vec = set r.rs_vec n l })) ≡ some r'
    → core r' ≡ core r
put_back-core m n r r' e =
    let (l, _, e₁) = >>=-eq-some m (λ l. some (record r { rs_vec = set r.rs_vec n l })) e in
    core_of (record r { rs_vec = set r.rs_vec n l }) r' e₁

pub request_early_pull-core :
    (i : ℕ) (r r' : Rs) → request_early_pull i r ≡ some r' → core r' ≡ core r
unfolding request_early_pull
request_early_pull-core i r r' e =
    let (l, _, e₁) = >>=-eq-some (get_elem? r.rs_vec r.tail) _ e in
    let ((finished, tag), _, e₂) =
      >>=-eq-some (get_elem? l.oram_finished_vec_for_early_pull i) _ e₁ in
    let (slot, _, e₃) = >>=-eq-some (get_elem? l.oram_addr_for_early_pull i) _ e₂ in
    elim (Bool-cases finished) [
      | inl q ↦ let e₄ : some r ≡ some r' = rw q at e₃ in core_of r r' e₄
      | inr q ↦
          let e₄ = rw q at e₃ in
          let (addr, _, e₅) = >>=-eq-some slot _ e₄ in
          let (r₁, m, e₆) =
            >>=-eq-some
              (mshr_add addr r.tail i true early
                (record r { stats = count_early_pull (is_useful tag) r.stats }))
              _ e₅ in
          count_unfinished-core r₁ r' e₆ ∙ mshr_add-core addr r.tail i true early _ r₁ m
    ]

pub ld_fwd_st_check-core :
    (n node : ℕ) (pull is_early : Bool) (r r' : Rs)
    → ld_fwd_st_check n node pull is_early r ≡ some r'
    → core r' ≡ core r
unfolding ld_fwd_st_check
ld_fwd_st_check-core n node pull is_early r r' e = elim (Bool-cases (not r.is_oram)) [
  | inl q ↦ let e₁ : some r ≡ some r' = rw q at e in core_of r r' e₁
  | inr q ↦
      let e₁ = rw q at e in
      let (l, _, e₂) = >>=-eq-some (get_elem? r.rs_vec n) _ e₁ in
      let (l₁, _, e₃) =
        >>=-eq-some (for_each (mark_finished pull) (range 0 r.geo.lowest_uncached_lvl) l) _ e₂ in
      let (last, _, e₄) = >>=-eq-some (get_elem? (set r.rs_vec n l₁) r.last_write_line) _ e₃ in
      elim (Bool-cases (is_init last.type || not last.valid)) [
        | inl z ↦ let e₅ = rw z at e₄ in core_of _ r' e₅
        | inr z ↦
            let e₅ = rw z at e₄ in
            let (leaf, _, e₆) = >>=-eq-some (back last.oram_node_id) _ e₅ in
            put_back-core
              (elim leaf [
                | none ↦ forward_node r.geo pull node last l₁
                | some w ↦ forward_write r.geo pull is_early node w l₁
              ])
              n (record r { rs_vec = set r.rs_vec n l₁ }) r' e₆
      ]
]
