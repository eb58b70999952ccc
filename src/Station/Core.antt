-- ===== src/Station/Core.antt =====
-- The registrations of src/reservation.h move blocks by `pull_slot` only: all else in them leaves the
-- blocks, the geometry and the metadata cache as they are.
pub mod Lines
use palermo_oram.Base.{
  ℕ, ◌+◌, ◌-◌, ◌%◌, range, ltb, ◌≡◌, refl, sym, ap, ◌∙◌, inl, inr, Bool, true, false, not, ◌&&◌,
  ◌||◌, Option, none, some, ◌==◌, if◌then◌else◌, ◌>>=◌, >>=-eq-some, assert, get_elem?, set,
  for_each, Bool-cases, Option-cases,
}
use palermo_oram.Tree.{Geometry}
use palermo_oram.MetadataCache.{SetCache}
use palermo_oram.Store.{Store, Address}
use palermo_oram.State.{
  RsLine, LineType, RequestType, read, write, early, TaskRs, Rs, modify_line, is_init, is_useful,
  task_at,
}
use palermo_oram.Station.Mshr.{
  count_request, open_request, oram_packet_construct, mshr_add, settle, count_down, commit_line,
  rs_line_commit_attempt,
}
use palermo_oram.Station.Forward.{ld_fwd_st_check, mark_finished, forward_node, forward_write, back}
use palermo_oram.Station.Register.{
  open_line, count_unfinished, close_line, request_early_pull, count_early_pull,
}

-- What the registrations keep.
pub record Core : Type 0 where
  pub store : Store
  pub geo : Geometry
  pub cache : SetCache

abbrev pub core : Rs → Core
core r = record { store = r.store; geo = r.geo; cache = r.metadata_cache }

-- A result that is known.
pub core_of : (q r' : Rs) → some q ≡ some r' → core r' ≡ core q
core_of q r' e = let same : q ≡ r' = cc in ap core (sym same)

pub modify_line-core :
    (i : ℕ) (f : RsLine → Option RsLine) (r r' : Rs)
    → modify_line i f r ≡ some r'
    → core r' ≡ core r
modify_line-core i f r r' e =
    let (line, _, e₁) = >>=-eq-some (get_elem? r.rs_vec i) _ e in
    let (line', _, e₂) = >>=-eq-some (f line) _ e₁ in
    core_of (record r { rs_vec = set r.rs_vec i line' }) r' e₂

pub open_line-core :
    (t : LineType) (a : Address) (r r' : Rs) → open_line t a r ≡ some r' → core r' ≡ core r
unfolding open_line
open_line-core t a r r' e = modify_line-core r.tail _ r r' e

count_request-core :
    (row o : ℕ) (pull : Bool) (t : RequestType) (r r' : Rs)
    → count_request row o pull t r ≡ some r'
    → core r' ≡ core r
unfolding count_request
count_request-core row o pull read r r' e =
    let (_, _, e₁) = >>=-eq-some (assert pull) _ e in
    let (line, _, e₂) = >>=-eq-some (get_elem? r.rs_vec row) _ e₁ in
    let (f, _, e₃) = >>=-eq-some (get_elem? line.oram_finished_vec_for_read o) _ e₂ in
    let (_, _, e₄) = >>=-eq-some (assert (not f)) _ e₃ in core_of _ r' e₄
count_request-core row o pull write r r' e =
    let (_, _, e₁) =
      >>=-eq-some
        (if pull
          then (do
            line ← get_elem? r.rs_vec row
            finished ← get_elem? line.oram_finished_vec_for_pull o
            assert (not finished.0))
          else some tt)
        _ e in
    core_of _ r' e₁
count_request-core row o pull early r r' e =
    let (_, _, e₁) =
      >>=-eq-some
        (if pull
          then (do
            line ← get_elem? r.rs_vec row
            finished ← get_elem? line.oram_finished_vec_for_early_pull o
            assert (not finished.0))
          else some tt)
        _ e in
    core_of _ r' e₁

open_request-core : (a : ℕ) (r : Rs) → core ((open_request a r).1) ≡ core r
unfolding open_request oram_packet_construct
open_request-core a r = elim (Option-cases (r.mshr_array a)) [
  | inl gone ↦ rw (gone, open_request) refl
  | inr (w, there) ↦ rw (there, open_request) refl
]

packet-core : (a : ℕ) (pull : Bool) (r : Rs) → core (oram_packet_construct a pull r) ≡ core r
unfolding oram_packet_construct
packet-core a pull r = refl

-- One of two results.
either_core :
    (b : Bool) (p q r r' : Rs)
    → core p ≡ core r
    → core q ≡ core r
    → some (if b then p else q) ≡ some r'
    → core r' ≡ core r
either_core true p q r r' a c e = core_of p r' e ∙ a
either_core false p q r r' a c e = core_of q r' e ∙ c

pub mshr_add-core :
    (a row o : ℕ) (pull : Bool) (t : RequestType) (r r' : Rs)
    → mshr_add a row o pull t r ≡ some r'
    → core r' ≡ core r
unfolding mshr_add
mshr_add-core a row o pull t r r' e =
    let (r₁, c, e₁) = >>=-eq-some (count_request row o pull t r) _ e in
    either_core pull _ (oram_packet_construct a pull r₁) r₁ r' (open_request-core a r₁)
      (packet-core a pull r₁) e₁
    ∙ count_request-core row o pull t r r₁ c

settle-core : (p : ℕ) (t : TaskRs) (r : Rs) → core (settle p t r) ≡ core r
unfolding settle
settle-core p t r = elim (Bool-cases (t.cnt == 0)) [ inl z ↦ rw z refl | inr z ↦ rw z refl ]

count_down-core : (p : ℕ) (r r' : Rs) → count_down p r ≡ some r' → core r' ≡ core r
unfolding count_down
count_down-core p r r' e =
    let (t, _, e₁) = >>=-eq-some (task_at p r) _ e in
    let (_, _, e₂) = >>=-eq-some (assert (ltb 0 t.cnt)) _ e₁ in
    core_of _ r' e₂ ∙ settle-core p (record t { cnt = t.cnt - 1 }) r

commit_line-core : (l : RsLine) (r r' : Rs) → commit_line l r ≡ some r' → core r' ≡ core r
unfolding commit_line
commit_line-core l r r' e =
    let r₁ = record r { rs_vec = set r.rs_vec r.head (record l { valid = false }) } in
    let (p, _, e₁) = >>=-eq-some (r.rs_line_task_map r.head) _ e in
    let (r₂, d, e₂) = >>=-eq-some (count_down p r₁) _ e₁ in
    core_of _ r' e₂ ∙ count_down-core p r₁ r₂ d

rs_line_commit_attempt-core :
    (b : Bool) (r r' : Rs) → rs_line_commit_attempt r ≡ some (b, r') → core r' ≡ core r
unfolding rs_line_commit_attempt
rs_line_commit_attempt-core b r r' e =
    let (l, _, e₁) = >>=-eq-some (get_elem? r.rs_vec r.head) _ e in
    elim (Bool-cases (not l.valid || not l.ready)) [
      | inl q ↦
          let e₂ : some (false, r) ≡ some (b, r') = rw q at e₁ in
          let same : r ≡ r' = cc in ap core (sym same)
      | inr q ↦
          let e₂ : (commit_line l r >>= λ r'. some (true, r')) ≡ some (b, r') = rw q at e₁ in
          let (r₁, c, e₃) = >>=-eq-some (commit_line l r) _ e₂ in
          let same : r₁ ≡ r' = cc in ap core (sym same) ∙ commit_line-core l r r₁ c
    ]

-- The commit at the end of a registration, if there is one.
pub maybe_commit-core :
    (b : Bool) (r r' : Rs)
    → (if b then (rs_line_commit_attempt r >>= λ (_, q). some q) else some r) ≡ some r'
    → core r' ≡ core r
maybe_commit-core true r r' e =
    let ((b, q), c, e₁) = >>=-eq-some (rs_line_commit_attempt r) _ e in
    core_of q r' e₁ ∙ rs_line_commit_attempt-core b r q c
maybe_commit-core false r r' e = core_of r r' e
