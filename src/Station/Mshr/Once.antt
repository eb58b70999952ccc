-- ===== src/Station/Mshr/Once.antt =====
-- `mshr_add` of src/reservation.h on a slot whose pull is in flight.
use palermo_oram.Base.{
  ℕ, ◌≡◌, refl, ap, sym, ◌∙◌, Bool, true, not, some, List, [], ◌∷◌, ◌++◌, arith, ◌==◌,
  if◌then◌else◌, ◌>>=◌, assert, get_elem?, put_at, >>=-eq-some, Option,
}
use palermo_oram.State.{Rs, Stats, RequestType, read, write, early, MshrEntry}
use palermo_oram.Station.Mshr.{count_request, open_request, mshr_add}

-- Equal but for the counters of the statistics.
abbrev SameRequests : Rs → Rs → Type 0
SameRequests r r' =
    (r'.mshr_array ≡ r.mshr_array) × (r'.ramulator_input_vec ≡ r.ramulator_input_vec)

counted {ℓ} :
    {A : Type ℓ} (o : Option A) (s : Stats) (r : Rs) {r' : Rs}
    → (o >>= λ _. some (record r { stats = s })) ≡ some r'
    → SameRequests r r'
counted o s r {r'} e =
    let (_, _, e₂) = >>=-eq-some o _ e in
    let same : record r { stats = s } ≡ r' = cc in
    (ap (λ (q : Rs). q.mshr_array) (sym same), ap (λ (q : Rs). q.ramulator_input_vec) (sym same))

count_request-same :
    (row offset : ℕ) (pull : Bool) (type : RequestType) (r : Rs) {r' : Rs}
    → count_request row offset pull type r ≡ some r'
    → SameRequests r r'
unfolding count_request
count_request-same row offset pull read r e =
    let (_, _, e₁) = >>=-eq-some (assert pull) _ e in
    let (line, _, e₂) = >>=-eq-some (get_elem? r.rs_vec row) _ e₁ in
    let (finished, _, e₃) = >>=-eq-some (get_elem? line.oram_finished_vec_for_read offset) _ e₂ in
    counted (assert (not finished)) _ r e₃
count_request-same row offset pull write r e = counted _ _ r e
count_request-same row offset pull early r e = counted _ _ r e

abbrev pub entry : ℕ → ℕ → RequestType → MshrEntry
entry row offset type = record { rs_row_num = row; rs_offset = offset; pull = true; type = type }

added :
    (address : ℕ) (w : List MshrEntry × ℕ) (r : Rs) {r' : Rs}
    → some (record r { mshr_array = put_at r.mshr_array address (some w) }) ≡ some r'
    → (r'.ramulator_input_vec ≡ r.ramulator_input_vec) × (r'.mshr_array address ≡ some w)
added address w r {r'} e =
    let same : record r { mshr_array = put_at r.mshr_array address (some w) } ≡ r' = cc in
    let here : (if address == address then some w else r.mshr_array address) ≡ some w =
      ground arith in
    (
      ap (λ (q : Rs). q.ramulator_input_vec) (sym same),
      ap (λ (q : Rs). q.mshr_array address) (sym same) ∙ here,
    )

-- A pull puts its entry behind those that wait for the slot.
pull-entry :
    (address row offset : ℕ) (type : RequestType) (r : Rs) {r' : Rs}
    → mshr_add address row offset true type r ≡ some r'
    → (entries : List MshrEntry) × (cnt : ℕ) × (r'.mshr_array address
        ≡ some (entries ++ (entry row offset type ∷ []), cnt))
unfolding mshr_add
pull-entry address row offset type r {r'} e =
    let (r₁, _, e₁) = >>=-eq-some (count_request row offset true type r) _ e in
    let o = open_request address r₁ in
    let (_, there) = added address (o.0.0 ++ (entry row offset type ∷ []), o.0.1) o.1 e₁ in
    (o.0.0, o.0.1, there)

-- Where entries wait already, it sends no packet.
pull-waiting :
    (address row offset : ℕ) (type : RequestType) (r : Rs) {r' : Rs} (entries : List MshrEntry)
    (cnt : ℕ)
    → r.mshr_array address ≡ some (entries, cnt)
    → mshr_add address row offset true type r ≡ some r'
    → (r'.ramulator_input_vec ≡ r.ramulator_input_vec)
      × (r'.mshr_array address ≡ some (entries ++ (entry row offset type ∷ []), cnt))
unfolding mshr_add open_request
pull-waiting address row offset type r {r'} entries cnt there e =
    let (r₁, c, e₁) = >>=-eq-some (count_request row offset true type r) _ e in
    let (same_mshr, same_queue) = count_request-same row offset true type r c in
    let there' : r₁.mshr_array address ≡ some (entries, cnt) =
      ap (λ (t : ℕ → Option (List MshrEntry × ℕ)). t address) same_mshr ∙ there in
    let opened : open_request address r₁ ≡ ((entries, cnt), r₁) = rw (open_request, there') refl in
    let (queue, here) =
      added address (entries ++ (entry row offset type ∷ []), cnt) r₁ (rw opened at e₁) in
    (queue ∙ same_queue, here)

-- A slot is pulled once however many lines wait for it: when two pulls of one slot go through
-- `mshr_add` one after the other and no assertion fails, whatever their lines and types, the
-- second sends no packet, and both wait for the slot in the order they came, with as many
-- packets to come as before the second.
pub mshr_add-once :
    (address row row' offset offset' : ℕ) (type type' : RequestType) (r r₁ : Rs) {r₂ : Rs}
    → mshr_add address row offset true type r ≡ some r₁
    → mshr_add address row' offset' true type' r₁ ≡ some r₂
    → (r₂.ramulator_input_vec ≡ r₁.ramulator_input_vec)
      × ((entries : List MshrEntry) × (cnt : ℕ) × (r₁.mshr_array address
            ≡ some (entries ++ (entry row offset type ∷ []), cnt))
          × (r₂.mshr_array address
              ≡ some (
                (entries ++ (entry row offset type ∷ [])) ++ (entry row' offset' type' ∷ []),
                cnt,
              )))
mshr_add-once address row row' offset offset' type type' r r₁ first second =
    let (entries, cnt, there) = pull-entry address row offset type r first in
    let (queue, here) = pull-waiting address row' offset' type' r₁ _ cnt there second in
    (queue, (entries, cnt, there, here))
