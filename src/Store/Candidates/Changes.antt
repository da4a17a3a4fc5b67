-- ===== src/Store/Candidates/Changes.antt =====
-- What each call does to the row of a signature; the keys stay keys.
use mathlib.Core.Option
use mathlib.Core.List.{map}
use iconify_cli.Base.{
  ℕ, ◌≡◌, refl, sym, ap, ◌∙◌, subst, ◌⊎◌, Bool, true, false, Option, none, some, List, arith, ◌==◌,
  ==_iff, Bool-cases, Option-cases, some-inj, inl, inr,
}
use iconify_cli.Base.Int.{ℤ}
use iconify_cli.Base.Strings.{Str}
use iconify_cli.Store.Db.{Class, Status, opened, confirmed, rejected, expired, CandidateRow, stamp}
use iconify_cli.Store.Candidates.{
  Sighting, find_signature, find_id, new_row, bumped, marked, reject_error, is_purged,
}
use iconify_cli.Store.Candidates.Rows.{
  IsKeyed, id-find_id, find_signature-map, map-IsKeyed, find_id-find_signature,
}
use iconify_cli.Store.Candidates.Machine.{Op, derive, expire, purge, confirms, rejects, kind_of}

-- A call leaves the row of a signature, or changes it in its own way.
pub data Change (op : Op) (a b : Option CandidateRow) : Type 0 where
  same : b ≡ a → Change op a b
  appears :
      (c : Class) (s : Sighting) → op ≡ derive s → a ≡ none → b ≡ some (new_row c s) → Change op a b
  recurs :
      (s : Sighting) (r : CandidateRow)
      → op ≡ derive s
      → a ≡ some r
      → b ≡ some (bumped s.now r)
      → Change op a b
  gets_confirmed :
      (now : ℕ) (r : CandidateRow)
      → kind_of op ≡ confirms
      → a ≡ some r
      → r.status ≡ opened
      → b ≡ some (record r { status = confirmed; updated_at = stamp now })
      → Change op a b
  gets_rejected :
      (now : ℕ) (r : CandidateRow)
      → kind_of op ≡ rejects
      → a ≡ some r
      → reject_error r ≡ none
      → b ≡ some (record r { status = rejected; updated_at = stamp now })
      → Change op a b
  expires :
      (ttl : ℤ) (now : ℕ) (r : CandidateRow)
      → op ≡ expire ttl now
      → a ≡ some r
      → r.status ≡ opened
      → b ≡ some (record r { status = expired; updated_at = stamp now })
      → Change op a b
  vanishes :
      (t : Bool) (r : CandidateRow)
      → op ≡ purge t
      → a ≡ some r
      → is_purged t r.status ≡ true
      → b ≡ none
      → Change op a b

-- The row of every signature is changed as the call may, and the keys stay keys.
abbrev pub Changes : Op → List CandidateRow → List CandidateRow → Type 0
Changes op rows rows' =
    ((sig : Str) → Change op (find_signature sig rows) (find_signature sig rows')) × IsKeyed rows'

pub Changes-same :
    (op : Op) (rows rows' : List CandidateRow) → IsKeyed rows → rows' ≡ rows → Changes op rows rows'
Changes-same op rows rows' k e = (λ sig. same (ap (find_signature sig) e), subst IsKeyed (sym e) k)

marked-id : (id : ℕ) (st : Status) (now : ℕ) (r : CandidateRow) → (marked id st now r).id ≡ r.id
unfolding marked
marked-id id st now r = ground arith

marked-signature :
    (id : ℕ) (st : Status) (now : ℕ) (r : CandidateRow)
    → (marked id st now r).signature ≡ r.signature
unfolding marked
marked-signature id st now r = ground arith

marked-eq :
    (id : ℕ) (st : Status) (now : ℕ) (r : CandidateRow)
    → (r.id == id) ≡ true
    → marked id st now r ≡ record r { status = st; updated_at = stamp now }
unfolding marked
marked-eq id st now r e = simp e refl

marked-other :
    (id : ℕ) (st : Status) (now : ℕ) (r : CandidateRow)
    → (r.id == id) ≡ false
    → marked id st now r ≡ r
unfolding marked
marked-other id st now r e = simp e refl

-- The row of a signature when the status of the row with an id is set.
marked-cases :
    (rows : List CandidateRow) (r0 : CandidateRow) (id : ℕ) (st : Status) (now : ℕ) (sig : Str)
    → IsKeyed rows
    → find_id id rows ≡ some r0
    → (find_signature sig (map (marked id st now) rows) ≡ find_signature sig rows)
      ⊎ ((find_signature sig rows ≡ some r0)
          × (find_signature sig (map (marked id st now) rows)
              ≡ some (record r0 { status = st; updated_at = stamp now })))
marked-cases rows r0 id st now sig k f =
    let m =
      find_signature-map (marked id st now) (marked-id id st now) (marked-signature id st now) sig
        rows in
    elim (Option-cases (find_signature sig rows)) [
      | inl n ↦ inl (m ∙ ap (Option.map (marked id st now)) n ∙ sym n)
      | inr (r, e) ↦ elim (Bool-cases (r.id == id)) [
        | inl b ↦
            let g : find_id r.id rows ≡ some r = find_id-find_signature sig rows r k e in
            let i : r.id ≡ id = (==_iff r.id id).0 b in
            let q : r ≡ r0 = some-inj (sym g ∙ ap (λ j. find_id j rows) i ∙ f) in
            inr (
              e ∙ ap (λ t. some t) q,
              m
                  ∙ ap (Option.map (marked id st now)) e
                  ∙ ap (λ t. some t) (marked-eq id st now r b)
                  ∙ ap
                      (λ (t : CandidateRow).
                        some (record t { status = st; updated_at = stamp now }))
                      q,
            )
        | inr b ↦ inl (
            m
            ∙ ap (Option.map (marked id st now)) e
            ∙ ap (λ t. some t) (marked-other id st now r b)
            ∙ sym e)
      ]
    ]

marked-IsKeyed :
    (rows : List CandidateRow) (id : ℕ) (st : Status) (now : ℕ)
    → IsKeyed rows
    → IsKeyed (map (marked id st now) rows)
marked-IsKeyed rows id st now =
    map-IsKeyed (marked id st now) (marked-id id st now) (marked-signature id st now) rows

pub Changes-confirmed :
    (op : Op) (rows rows' : List CandidateRow) (id now : ℕ) (r : CandidateRow)
    → kind_of op ≡ confirms
    → IsKeyed rows
    → find_id id rows ≡ some r
    → r.status ≡ opened
    → rows' ≡ map (marked r.id confirmed now) rows
    → Changes op rows rows'
Changes-confirmed op rows rows' id now r o k f s e =
    let f' : find_id r.id rows ≡ some r = ap (λ j. find_id j rows) (id-find_id id rows r f) ∙ f in
    subst (Changes op rows) (sym e) (
      λ sig. elim (marked-cases rows r r.id confirmed now sig k f') [
        | inl q ↦ same q
        | inr (a, b) ↦ gets_confirmed now r o a s b
      ],
      marked-IsKeyed rows r.id confirmed now k,
    )

pub Changes-rejected :
    (op : Op) (rows rows' : List CandidateRow) (id now : ℕ) (r : CandidateRow)
    → kind_of op ≡ rejects
    → IsKeyed rows
    → find_id id rows ≡ some r
    → reject_error r ≡ none
    → rows' ≡ map (marked id rejected now) rows
    → Changes op rows rows'
Changes-rejected op rows rows' id now r o k f s e = subst (Changes op rows) (sym e) (
  λ sig. elim (marked-cases rows r id rejected now sig k f) [
    | inl q ↦ same q
    | inr (a, b) ↦ gets_rejected now r o a s b
  ],
  marked-IsKeyed rows id rejected now k,
)
