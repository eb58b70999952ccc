-- ===== src/Station/Mshr/Commit.antt =====
-- The loop of `mshr_remove` in src/reservation.h over `rs_line_commit_attempt`.
use palermo_oram.Base.{
  ℕ, zero, suc, ◌+◌, ◌-◌, ◌%◌, ◌≤◌, ◌<◌, ◌≡◌, refl, ap, sym, ◌∙◌, subst, true, false, not, ◌||◌,
  none, some, List, [], ◌∷◌, arith, ◌==◌, ltb, if◌then◌else◌, ◌>>=◌, ◌>>◌, assert, inl, inr, ◌⊎◌,
  Option, Bool, Bool-cases, Option-cases, get_elem?, set, length, >>=-eq-some,
}
use palermo_oram.State.{Rs, RsLine, TaskRs, task_at}
use palermo_oram.Station.Mshr.{settle, count_down, commit_line, rs_line_commit_attempt, commit_all}

-- How many lines are valid.
unfoldable pub valid_lines : List RsLine → ℕ
valid_lines [] = 0
valid_lines (l ∷ ls) = (if l.valid then 1 else 0) + valid_lines ls

valid_lines_le : (ls : List RsLine) → valid_lines ls ≤ length ls
unfolding valid_lines
valid_lines_le [] = omega arith
valid_lines_le (l ∷ ls) = ground (arith, valid_lines_le ls)

valid_lines-set :
    (ls : List RsLine) (i : ℕ) (l : RsLine)
    → get_elem? ls i ≡ some l
    → l.valid ≡ true
    → valid_lines ls ≡ suc (valid_lines (set ls i (record l { valid = false })))
unfolding valid_lines
valid_lines-set [] i l e v = absurd cc
valid_lines-set (x ∷ ls) zero l e v = let same : x ≡ l = cc in rw (same, v) (omega arith)
valid_lines-set (x ∷ ls) (suc i) l e v = omega (arith, valid_lines-set ls i l e v)

-- A task that counts down leaves the lines as they are.
settle-rs_vec : (p : ℕ) (t : TaskRs) (r : Rs) → (settle p t r).rs_vec ≡ r.rs_vec
unfolding settle
settle-rs_vec p t r = elim (Bool-cases (t.cnt == 0)) [ inl q ↦ rw q refl | inr q ↦ rw q refl ]

count_down-rs_vec : (p : ℕ) (r : Rs) {r' : Rs} → count_down p r ≡ some r' → r'.rs_vec ≡ r.rs_vec
unfolding count_down
count_down-rs_vec p r {r'} e = elim (Option-cases (task_at p r)) [
  | inl m ↦ let e' : none ≡ some r' = rw (m, count_down) at e in absurd cc
  | inr (t, m) ↦
      let e' : (assert (ltb 0 t.cnt) >> some (settle p (record t { cnt = t.cnt - 1 }) r))
          ≡ some r' =
        rw (m, count_down) at e in
      let (_, _, e₂) = >>=-eq-some (assert (ltb 0 t.cnt)) _ e' in
      let same : settle p (record t { cnt = t.cnt - 1 }) r ≡ r' = cc in
      ap (λ (q : Rs). q.rs_vec) (sym same) ∙ settle-rs_vec p (record t { cnt = t.cnt - 1 }) r
]

finished-rs_vec :
    (p : ℕ) (r : Rs) {r' : Rs} (next : Rs → ℕ)
    → (count_down p r >>= λ r₂. some (record r₂ { head = next r₂ })) ≡ some r'
    → r'.rs_vec ≡ r.rs_vec
finished-rs_vec p r {r'} next e =
    let (r₂, e₁, e₂) = >>=-eq-some (count_down p r) _ e in
    let same : record r₂ { head = next r₂ } ≡ r' = cc in
    ap (λ (q : Rs). q.rs_vec) (sym same) ∙ count_down-rs_vec p r e₁

-- A line that commits is no longer valid, and the others stay as they are.
commit_line-valid_lines :
    (l : RsLine) (r : Rs) {r' : Rs}
    → get_elem? r.rs_vec r.head ≡ some l
    → l.valid ≡ true
    → commit_line l r ≡ some r'
    → valid_lines r.rs_vec ≡ suc (valid_lines r'.rs_vec)
unfolding commit_line
commit_line-valid_lines l r {r'} at v e =
    let (p, _, e₁) = >>=-eq-some (r.rs_line_task_map r.head) _ e in
    let lines =
      finished-rs_vec p (record r { rs_vec = set r.rs_vec r.head (record l { valid = false }) })
        {r' = r'} (λ r₂. (r.head + 1) % r.geo.num_of_entries) e₁ in
    valid_lines-set r.rs_vec r.head l at v ∙ ap (λ ls. suc (valid_lines ls)) (sym lines)

-- Only a valid line commits.
attempt-valid_lines :
    (r : Rs) {r' : Rs}
    → rs_line_commit_attempt r ≡ some (true, r')
    → valid_lines r.rs_vec ≡ suc (valid_lines r'.rs_vec)
unfolding rs_line_commit_attempt
attempt-valid_lines r {r'} e =
    let (l, at, e₁) = >>=-eq-some (get_elem? r.rs_vec r.head) _ e in
    elim (Bool-cases (not l.valid || not l.ready)) [
      | inl q ↦ let e₂ : some (false, r) ≡ some (true, r') = rw q at e₁ in absurd cc
      | inr q ↦
          let e₂ : (commit_line l r >>= λ r'. some (true, r')) ≡ some (true, r') = rw q at e₁ in
          let (r'', done, e₃) = >>=-eq-some (commit_line l r) _ e₂ in
          let same : r'' ≡ r' = cc in
          commit_line-valid_lines l r at (ground arith)
            (subst (λ x. commit_line l r ≡ some x) same done)
    ]

not_both {ℓ} :
    {A : Type ℓ} (m : Option (Bool × Rs)) (a b : Rs) → m ≡ some (true, a) → m ≡ some (false, b) → A
not_both m a b e e' = absurd cc

-- An attempt that commits nothing changes nothing.
attempt-idle : (r : Rs) {r' : Rs} → rs_line_commit_attempt r ≡ some (false, r') → r' ≡ r
unfolding rs_line_commit_attempt
attempt-idle r {r'} e =
    let (l, _, e₁) = >>=-eq-some (get_elem? r.rs_vec r.head) _ e in
    elim (Bool-cases (not l.valid || not l.ready)) [
      | inl q ↦ let e₂ : some (false, r) ≡ some (false, r') = rw q at e₁ in cc
      | inr q ↦
          let e₂ : (commit_line l r >>= λ r'. some (true, r')) ≡ some (false, r') = rw q at e₁ in
          let (r'', _, e₃) = >>=-eq-some (commit_line l r) _ e₂ in
          not_both (some (true, r'')) r'' r' refl e₃
    ]

-- Lines commit one after the other.
pub data IsRun : Rs → Rs → Type 0 where
  stay : (r : Rs) → IsRun r r
  commit : {r r₁ r₂ : Rs} → rs_line_commit_attempt r ≡ some (true, r₁) → IsRun r₁ r₂ → IsRun r r₂

-- The two ends of the loop: in `r` no line commits, or an assertion of the attempt fails.
abbrev pub IsEnd : Rs → Option (Bool × Rs) → Type 0
IsEnd r result =
    ((rs_line_commit_attempt r ≡ some (false, r)) × (result ≡ some (true, r)))
    ⊎ ((rs_line_commit_attempt r ≡ none) × (result ≡ none))

-- One round of fuel for each valid line, and one more, is enough.
pub commit_all_enough :
    (fuel : ℕ) (r : Rs)
    → valid_lines r.rs_vec < fuel
    → (r' : Rs) × IsRun r r' × IsEnd r' (commit_all fuel r)
unfolding commit_all
commit_all_enough zero r lt = absurd (omega arith)
commit_all_enough (suc fuel) r lt = elim (Option-cases (rs_line_commit_attempt r)) [
  | inl gone ↦ (r, stay r, inr (gone, rw (gone, commit_all) refl))
  | inr ((again, r₁), e) ↦ elim (Bool-cases again) [
    | inr q ↦
        let e' : rs_line_commit_attempt r ≡ some (false, r₁) = rw q at e in
        let same = attempt-idle r e' in
        (r, stay r, inl (e' ∙ ap (λ x. some (false, x)) same, rw (e', commit_all, same) refl))
    | inl q ↦
        let e' : rs_line_commit_attempt r ≡ some (true, r₁) = rw q at e in
        let (r₂, run, end) = commit_all_enough fuel r₁ (omega (arith, attempt-valid_lines r e')) in
        (r₂, commit e' run, rw (e', commit_all) end)
  ]
]

-- The loop over `rs_line_commit_attempt` ends within the fuel that `finish_entry` gives it, one
-- round for each line and one more: it commits line after line up to a state where the attempt
-- answers `false`, which is its result, or where an assertion of the attempt fails, and then it
-- fails. It never runs out of fuel, which has an answer of its own.
pub commit_all_ends :
    (r : Rs) → (r' : Rs) × IsRun r r' × IsEnd r' (commit_all (suc (length r.rs_vec)) r)
commit_all_ends r =
    commit_all_enough (suc (length r.rs_vec)) r (omega (arith, valid_lines_le r.rs_vec))
