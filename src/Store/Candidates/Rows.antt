-- ===== src/Store/Candidates/Rows.antt =====
-- Rows found by signature and by id, as statements change them; both are keys.
use mathlib.Core.Option
use mathlib.Core.List.{map}
use iconify_cli.Base.{
  ℕ, ◌≡◌, refl, ap, ◌∙◌, Bool-cases, inl, inr, ◌≢◌, Bool, Option, none, some, List, [], ◌∷◌, ◌++◌,
  arith, keep, ◌==◌, if◌then◌else◌,
}
use iconify_cli.Base.Strings.{Str, str_eq, str_eq_iff}
use iconify_cli.Store.Db.{CandidateRow}
use iconify_cli.Store.Candidates.{find_signature, find_id}

-- PRIMARY KEY and UNIQUE
abbrev pub IsKeyed : List CandidateRow → Type 0
IsKeyed [] = Unit {0}
IsKeyed (r ∷ rows) =
    (find_id r.id rows ≡ none) × (find_signature r.signature rows ≡ none) × IsKeyed rows

pub signature-find_signature :
    (sig : Str) (rows : List CandidateRow) (r : CandidateRow)
    → find_signature sig rows ≡ some r
    → r.signature ≡ sig
unfolding find_signature
signature-find_signature sig [] r h = ground arith
signature-find_signature sig (t ∷ rows) r h =
    ground (arith, str_eq_iff t.signature sig, signature-find_signature sig rows r)

pub id-find_id :
    (id : ℕ) (rows : List CandidateRow) (r : CandidateRow) → find_id id rows ≡ some r → r.id ≡ id
unfolding find_id
id-find_id id [] r h = ground arith
id-find_id id (t ∷ rows) r h = ground (arith, id-find_id id rows r)

-- A change that keeps both keys.
module _ (f : CandidateRow → CandidateRow) (same_id : (r : CandidateRow) → (f r).id ≡ r.id)
    (same : (r : CandidateRow) → (f r).signature ≡ r.signature) where
  pub find_signature-map :
      (sig : Str) (rows : List CandidateRow)
      → find_signature sig (map f rows) ≡ Option.map f (find_signature sig rows)
  unfolding find_signature
  find_signature-map sig [] = refl
  find_signature-map sig (r ∷ rows) = simp (same r) (elim (Bool-cases (str_eq r.signature sig)) [
    | inl e ↦ simp e refl
    | inr e ↦ simp e (find_signature-map sig rows)
  ])

  find_id-map :
      (id : ℕ) (rows : List CandidateRow) → find_id id (map f rows) ≡ Option.map f (find_id id rows)
  unfolding find_id
  find_id-map id [] = refl
  find_id-map id (r ∷ rows) = simp (same_id r) (elim (Bool-cases (r.id == id)) [
    | inl e ↦ simp e refl
    | inr e ↦ simp e (find_id-map id rows)
  ])

  pub map-IsKeyed : (rows : List CandidateRow) → IsKeyed rows → IsKeyed (map f rows)
  map-IsKeyed [] h = tt
  map-IsKeyed (r ∷ rows) (i, s, h) = (
    simp (same_id r) (find_id-map r.id rows ∙ ap (Option.map f) i),
    simp (same r) (find_signature-map r.signature rows ∙ ap (Option.map f) s),
    map-IsKeyed rows h,
  )

-- The row, if it passes.
abbrev pub passing : (CandidateRow → Bool) → Option CandidateRow → Option CandidateRow
passing p none = none
passing p (some r) = if p r then some r else none

module _ (p : CandidateRow → Bool) where
  find_id-keep :
      (id : ℕ) (rows : List CandidateRow) → find_id id rows ≡ none → find_id id (keep p rows) ≡ none
  unfolding find_id
  find_id-keep id [] h = refl
  find_id-keep id (r ∷ rows) h = ground (arith, find_id-keep id rows)

  find_signature-keep-none :
      (sig : Str) (rows : List CandidateRow)
      → find_signature sig rows ≡ none
      → find_signature sig (keep p rows) ≡ none
  unfolding find_signature
  find_signature-keep-none sig [] h = refl
  find_signature-keep-none sig (r ∷ rows) h = ground (arith, find_signature-keep-none sig rows)

  pub find_signature-keep :
      (sig : Str) (rows : List CandidateRow)
      → IsKeyed rows
      → find_signature sig (keep p rows) ≡ passing p (find_signature sig rows)
  unfolding find_signature
  find_signature-keep sig [] h = refl
  find_signature-keep sig (r ∷ rows) (i, s, h) = ground (
    arith,
    str_eq_iff r.signature sig,
    find_signature-keep sig rows h,
    find_signature-keep-none r.signature rows s,
  )

  pub keep-IsKeyed : (rows : List CandidateRow) → IsKeyed rows → IsKeyed (keep p rows)
  keep-IsKeyed [] h = tt
  keep-IsKeyed (r ∷ rows) (i, s, h) = ground (
    arith,
    find_id-keep r.id rows i,
    find_signature-keep-none r.signature rows s,
    keep-IsKeyed rows h,
  )

-- A row is found by its signature, or else is the new one.
abbrev pub or_new : Str → CandidateRow → Option CandidateRow → Option CandidateRow
or_new sig r (some old) = some old
or_new sig r none = if str_eq r.signature sig then some r else none

pub find_signature-append :
    (sig : Str) (rows : List CandidateRow) (r : CandidateRow)
    → find_signature sig (rows ++ r ∷ []) ≡ or_new sig r (find_signature sig rows)
unfolding find_signature
find_signature-append sig [] r = refl
find_signature-append sig (t ∷ rows) r = ground (arith, find_signature-append sig rows r)

find_id-append :
    (id : ℕ) (rows : List CandidateRow) (r : CandidateRow)
    → find_id id rows ≡ none
    → r.id ≢ id
    → find_id id (rows ++ r ∷ []) ≡ none
unfolding find_id
find_id-append id [] r h n = ground arith
find_id-append id (t ∷ rows) r h n = ground (arith, find_id-append id rows r)

pub append-IsKeyed :
    (rows : List CandidateRow) (r : CandidateRow)
    → IsKeyed rows
    → find_id r.id rows ≡ none
    → find_signature r.signature rows ≡ none
    → IsKeyed (rows ++ r ∷ [])
unfolding find_id find_signature
append-IsKeyed [] r h i s = (refl, refl, tt)
append-IsKeyed (t ∷ rows) r (ti, ts, h) i s = (
  ground (arith, find_id-append t.id rows r ti),
  rw (find_signature-append t.signature rows r) (
      rw ts
        (ground (arith, str_eq_iff t.signature r.signature, str_eq_iff r.signature t.signature))),
  append-IsKeyed rows r h (ground arith) (ground arith),
)

id_of-find_signature :
    (sig : Str) (rows : List CandidateRow) (r : CandidateRow)
    → find_signature sig rows ≡ some r
    → find_id r.id rows ≢ none
unfolding find_signature find_id
id_of-find_signature sig [] r h n = ground arith
id_of-find_signature sig (t ∷ rows) r h n = ground (arith, id_of-find_signature sig rows r)

-- The row of a signature is the row of its id.
pub find_id-find_signature :
    (sig : Str) (rows : List CandidateRow) (r : CandidateRow)
    → IsKeyed rows
    → find_signature sig rows ≡ some r
    → find_id r.id rows ≡ some r
unfolding find_signature find_id
find_id-find_signature sig [] r h e = ground arith
find_id-find_signature sig (t ∷ rows) r (i, s, h) e =
    ground (arith, find_id-find_signature sig rows r h, id_of-find_signature sig rows r)
