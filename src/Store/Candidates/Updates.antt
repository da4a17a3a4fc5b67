-- ===== src/Store/Candidates/Updates.antt =====
-- What the statements of expiry, purge and sighting do to the row of a signature.
use mathlib.Core.Option
use mathlib.Core.List.{map}
use iconify_cli.Base.{
  ℕ, ◌≡◌, refl, sym, ap, ◌∙◌, ◌⊎◌, Bool, true, not, Option, none, some, List, [], ◌∷◌, ◌++◌, keep,
  arith, Bool-cases, Option-cases, inl, inr,
}
use iconify_cli.Base.Int.{ℤ}
use iconify_cli.Base.Strings.{Str, str_eq}
use iconify_cli.Store.Db.{Class, Status, opened, confirmed, rejected, expired, CandidateRow, stamp}
use iconify_cli.Store.Candidates.{
  is_open, Sighting, find_signature, find_id, new_row, bumped, at_signature, is_stale, expired_at,
  is_purged,
}
use iconify_cli.Store.Candidates.Rows.{
  IsKeyed, find_signature-map, map-IsKeyed, passing, find_signature-keep, keep-IsKeyed, or_new,
  find_signature-append, append-IsKeyed,
}
use iconify_cli.Store.Candidates.Machine.{derive, expire, purge}
use iconify_cli.Store.Candidates.Changes.{same, appears, recurs, expires, vanishes, Changes}

-- A change that the statement's own test decides, of the rows that pass it.
expired_at-id : (cutoff now : ℕ) (r : CandidateRow) → (expired_at cutoff now r).id ≡ r.id
unfolding expired_at
expired_at-id cutoff now r = ground arith

expired_at-signature :
    (cutoff now : ℕ) (r : CandidateRow) → (expired_at cutoff now r).signature ≡ r.signature
unfolding expired_at
expired_at-signature cutoff now r = ground arith

is_open-eq : (s : Status) → is_open s ≡ true → s ≡ opened
is_open-eq opened h = refl
is_open-eq confirmed h = ground arith
is_open-eq rejected h = ground arith
is_open-eq expired h = ground arith

expired_at-cases :
    (cutoff now : ℕ) (r : CandidateRow)
    → (expired_at cutoff now r ≡ r)
      ⊎ ((r.status ≡ opened)
          × (expired_at cutoff now r ≡ record r { status = expired; updated_at = stamp now }))
unfolding expired_at is_stale
expired_at-cases cutoff now r = elim (Bool-cases (is_stale cutoff r)) [
  | inl e ↦ inr (unfold is_stale in ground (arith, is_open-eq r.status, e), simp e refl)
  | inr e ↦ inl (simp e refl)
]

pub Changes-expired :
    (ttl : ℤ) (cutoff now : ℕ) (rows : List CandidateRow)
    → IsKeyed rows
    → Changes (expire ttl now) rows (map (expired_at cutoff now) rows)
Changes-expired ttl cutoff now rows k = (
  λ sig.
      let f = expired_at cutoff now in
      let m =
        find_signature-map f (expired_at-id cutoff now) (expired_at-signature cutoff now) sig
          rows in
      elim (Option-cases (find_signature sig rows)) [
        | inl n ↦ same (m ∙ ap (Option.map f) n ∙ sym n)
        | inr (r, e) ↦ elim (expired_at-cases cutoff now r) [
          | inl q ↦ same (m ∙ ap (Option.map f) e ∙ ap (λ t. some t) q ∙ sym e)
          | inr (o, q) ↦ expires ttl now r refl e o (m ∙ ap (Option.map f) e ∙ ap (λ t. some t) q)
        ]
      ],
  map-IsKeyed (expired_at cutoff now) (expired_at-id cutoff now) (expired_at-signature cutoff now)
      rows k,
)

passing-cases :
    (p : CandidateRow → Bool) (r : CandidateRow)
    → (passing (λ t. not (p t)) (some r) ≡ some r)
      ⊎ ((p r ≡ true) × (passing (λ t. not (p t)) (some r) ≡ none))
passing-cases p r = ground arith

pub Changes-purged :
    (t : Bool) (rows : List CandidateRow)
    → IsKeyed rows
    → Changes (purge t) rows (keep (λ r. not (is_purged t r.status)) rows)
Changes-purged t rows k = (
  λ sig.
      let p = λ (r : CandidateRow). is_purged t r.status in
      let m = find_signature-keep (λ r. not (p r)) sig rows k in
      elim (Option-cases (find_signature sig rows)) [
        | inl n ↦ same (m ∙ ap (passing (λ r. not (p r))) n ∙ sym n)
        | inr (r, e) ↦ elim (passing-cases p r) [
          | inl q ↦ same (m ∙ ap (passing (λ r. not (p r))) e ∙ q ∙ sym e)
          | inr (o, q) ↦ vanishes t r refl e o (m ∙ ap (passing (λ r. not (p r))) e ∙ q)
        ]
      ],
  keep-IsKeyed (λ r. not (is_purged t r.status)) rows k,
)

pub at_signature-id :
    (sig : Str) (now : ℕ) (r : CandidateRow) → (at_signature sig (bumped now) r).id ≡ r.id
unfolding at_signature bumped
at_signature-id sig now r = ground arith

pub at_signature-signature :
    (sig : Str) (now : ℕ) (r : CandidateRow)
    → (at_signature sig (bumped now) r).signature ≡ r.signature
unfolding at_signature bumped
at_signature-signature sig now r = ground arith

at_signature-cases :
    (sig : Str) (now : ℕ) (r : CandidateRow)
    → (at_signature sig (bumped now) r ≡ r) ⊎ (at_signature sig (bumped now) r ≡ bumped now r)
unfolding at_signature
at_signature-cases sig now r = elim (Bool-cases (str_eq r.signature sig)) [
  | inl e ↦ inr (simp e refl)
  | inr e ↦ inl (simp e refl)
]

pub Changes-bumped :
    (s : Sighting) (rows : List CandidateRow)
    → IsKeyed rows
    → Changes (derive s) rows (map (at_signature s.signature (bumped s.now)) rows)
Changes-bumped s rows k =
    let f = at_signature s.signature (bumped s.now) in
    let i = at_signature-id s.signature s.now in
    let g = at_signature-signature s.signature s.now in
    (
      λ sig. elim (Option-cases (find_signature sig rows)) [
        | inl n ↦ same (find_signature-map f i g sig rows ∙ ap (Option.map f) n ∙ sym n)
        | inr (r, e) ↦ elim (at_signature-cases s.signature s.now r) [
          | inl q ↦
              same (
                find_signature-map f i g sig rows
                ∙ ap (Option.map f) e
                ∙ ap (λ t. some t) q
                ∙ sym e)
          | inr q ↦
              recurs s r refl e
                (find_signature-map f i g sig rows ∙ ap (Option.map f) e ∙ ap (λ t. some t) q)
        ]
      ],
      map-IsKeyed f i g rows k,
    )

or_new-cases :
    (sig : Str) (r : CandidateRow) (o : Option CandidateRow)
    → (or_new sig r o ≡ o) ⊎ ((o ≡ none) × (or_new sig r o ≡ some r))
or_new-cases sig r (some old) = inl refl
or_new-cases sig r none = ground arith

pub Changes-new :
    (c : Class) (s : Sighting) (rows : List CandidateRow)
    → IsKeyed rows
    → find_signature s.signature rows ≡ none
    → find_id s.id rows ≡ none
    → Changes (derive s) rows (rows ++ new_row c s ∷ [])
unfolding new_row
Changes-new c s rows k n i = (
  λ sig. elim (or_new-cases sig (new_row c s) (find_signature sig rows)) [
    | inl q ↦ same (find_signature-append sig rows (new_row c s) ∙ q)
    | inr (a, q) ↦ appears c s refl a (find_signature-append sig rows (new_row c s) ∙ q)
  ],
  append-IsKeyed rows (new_row c s) k i n,
)
