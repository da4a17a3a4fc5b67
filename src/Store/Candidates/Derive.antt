-- ===== src/Store/Candidates/Derive.antt =====
-- What DeriveCandidate answers.
use mathlib.Core.Option
use mathlib.Core.List.{map}
use iconify_cli.Base.{
  ℕ, ◌<◌, ◌≡◌, refl, sym, ap, ◌∙◌, subst, Bool, true, false, ◌&&◌, Option, none, some, List, [],
  ◌∷◌, ◌++◌, arith, ◌==◌, some-inj, Bool-cases, Option-cases, inl, inr, if◌then◌else◌,
}
use iconify_cli.Base.Strings.{Str, str_eq, str_eq_refl, is_empty, trim_space}
use iconify_cli.Store.Db.{
  Class, CandidateRow, Db, Faults, ok, M, ◌>>=◌, call, exec, deriving_candidate, missing_row,
  unknown_class, payload_required, signature_required,
}
use iconify_cli.Store.Ends.{Ends, Ends-pure, Ends-throw, Ends-call, Ends-exec, Ends-bind}
use iconify_cli.Store.Candidates.{
  is_rejected, Sighting, find_signature, find_id, new_row, bumped, at_signature, upserted,
  upsert_candidate, class_of, reported, derive_body, derive_candidate,
}
use iconify_cli.Store.Candidates.Rows.{
  IsKeyed, signature-find_signature, find_signature-map, or_new, find_signature-append,
}
use iconify_cli.Store.Candidates.Machine.{Op, run, run_all}
use iconify_cli.Store.Candidates.Changes.{Change}
use iconify_cli.Store.Candidates.Updates.{at_signature-id, at_signature-signature}
use iconify_cli.Store.Candidates.Runs.{run-Changes}

-- The row of a signature has been seen.
abbrev pub Seen : Option CandidateRow → Type 0
Seen none = Unit {0}
Seen (some r) = 0 < r.sightings

abbrev pub is_none : Option CandidateRow → Bool
is_none none = true
is_none (some r) = false

-- How many rows a sighting changes.
abbrev counted : Option CandidateRow → ℕ
counted none = 1
counted (some r) = if is_rejected r.status then 0 else 1

-- The row of the signature after its statement.
abbrev stored : Class → Sighting → Option CandidateRow → CandidateRow
stored c s none = new_row c s
stored c s (some r) = bumped s.now r

at_signature_self :
    (now : ℕ) (sig : Str) (r : CandidateRow)
    → r.signature ≡ sig
    → at_signature sig (bumped now) r ≡ bumped now r
unfolding at_signature
at_signature_self now sig r e = simp (ap (λ t. str_eq t sig) e ∙ str_eq_refl sig) refl

find_signature-upserted :
    (c : Class) (s : Sighting) (db db' : Db) (o other : Option CandidateRow) (n : ℕ)
    → find_signature s.signature db.candidates ≡ o
    → upserted c s db o other ≡ some (n, db')
    → (n ≡ counted o) × (find_signature s.signature db'.candidates ≡ some (stored c s o))
unfolding upserted
find_signature-upserted c s db db' (some r) other n e h =
    let f = at_signature s.signature (bumped s.now) in
    let p : record db { candidates = map f db.candidates } ≡ db' = cc in
    let m : find_signature s.signature (map f db.candidates) ≡ some (f r) =
      find_signature-map f (at_signature-id s.signature s.now)
        (at_signature-signature s.signature s.now) s.signature db.candidates
      ∙ ap (Option.map f) e in
    (
      cc,
      subst (λ (x : Db). find_signature s.signature x.candidates ≡ some (bumped s.now r)) p
          (m
            ∙ ap (λ t. some t)
                (at_signature_self s.now s.signature r
                  (signature-find_signature s.signature db.candidates r e))),
    )
find_signature-upserted c s db db' none (some t) n e h = absurd (cc)
find_signature-upserted c s db db' none none n e h =
    let p : record db { candidates = db.candidates ++ new_row c s ∷ [] } ≡ db' = cc in
    (
      cc,
      subst (λ (x : Db). find_signature s.signature x.candidates ≡ some (new_row c s)) p
          (find_signature-append s.signature db.candidates (new_row c s)
            ∙ ap (or_new s.signature (new_row c s)) e
            ∙ unfold new_row in rw (str_eq_refl s.signature) refl),
    )

inserted-stored :
    (c : Class) (s : Sighting) (o : Option CandidateRow)
    → Seen o
    → ((counted o == 1) && ((stored c s o).sightings == 1)) ≡ is_none o
unfolding new_row bumped
inserted-stored c s none h = refl
inserted-stored c s (some r) h = elim (Bool-cases (is_rejected r.status)) [
  | inl e ↦ simp e refl
  | inr e ↦ simp e (ground arith)
]

-- The row as it is stored now, and whether the signature is new.
abbrev pub Answers : Sighting → Db → CandidateRow × Bool → Db → Type 0
Answers s db (row, inserted) db' =
    (find_signature s.signature db'.candidates ≡ some row)
    × (inserted ≡ is_none (find_signature s.signature db.candidates))

Ends-reported :
    (c : Class) (s : Sighting) (db : Db) (n : ℕ) (d : Db) (row : Option CandidateRow) (d' : Db)
    (fs : Faults)
    → Seen (find_signature s.signature db.candidates)
    → upsert_candidate c s db ≡ some (n, d)
    → (row ≡ find_signature s.signature d.candidates) × (d' ≡ d)
    → Ends (Answers s db) (reported n row d' fs)
unfolding reported upsert_candidate
Ends-reported c s db n d none d' fs seen u (e, q) = Ends-throw (Answers s db) missing_row d' fs
Ends-reported c s db n d (some r) d' fs seen u (e, q) =
    let o = find_signature s.signature db.candidates in
    let (m, g) = find_signature-upserted c s db d o (find_id s.id db.candidates) n refl u in
    let k : stored c s o ≡ r = some-inj (sym g ∙ sym e) in
    let i : ((n == 1) && (r.sightings == 1)) ≡ is_none o =
      subst (λ (t : CandidateRow). ((n == 1) && (t.sightings == 1)) ≡ is_none o) k
        (subst (λ j. ((j == 1) && ((stored c s o).sightings == 1)) ≡ is_none o) (sym m)
          (inserted-stored c s o seen)) in
    Ends-pure (Answers s db) (r, (n == 1) && (r.sightings == 1)) d' fs
      (ap (λ (x : Db). find_signature s.signature x.candidates) q ∙ sym e, i)

Ends-derive_body :
    (c : Class) (s : Sighting) (db : Db) (fs : Faults)
    → Seen (find_signature s.signature db.candidates)
    → Ends (Answers s db) (derive_body c s db fs)
unfolding derive_body
Ends-derive_body c s db fs seen =
    let look : M (Option CandidateRow) =
      call deriving_candidate (λ d. find_signature s.signature d.candidates) in
    Ends-bind (λ n d. upsert_candidate c s db ≡ some (n, d)) (Answers s db)
      (exec deriving_candidate (upsert_candidate c s)) (λ n. do row ← look; reported n row) db fs
      (Ends-exec deriving_candidate (upsert_candidate c s) db fs)
      (λ n d fs' u.
        Ends-bind (λ row d'. (row ≡ find_signature s.signature d.candidates) × (d' ≡ d))
          (Answers s db) look (reported n) d fs'
          (Ends-call deriving_candidate (λ x. find_signature s.signature x.candidates) d fs')
          (λ row d' fs'' p. Ends-reported c s db n d row d' fs'' seen u p))

Ends-derive_candidate :
    (s : Sighting) (db : Db) (fs : Faults)
    → Seen (find_signature s.signature db.candidates)
    → Ends (Answers s db) (derive_candidate s db fs)
Ends-derive_candidate s db fs seen = elim (Option-cases (class_of s.class)) [
  | inl e ↦
      unfold derive_candidate in
      rw (e, derive_candidate) (Ends-throw (Answers s db) unknown_class db fs)
  | inr (c, e) ↦ elim (Bool-cases (is_empty (trim_space s.payload))) [
    | inl p ↦
        unfold derive_candidate in
        rw (e, derive_candidate) (rw p (Ends-throw (Answers s db) payload_required db fs))
    | inr p ↦ elim (Bool-cases (is_empty (trim_space s.signature))) [
      | inl q ↦
          unfold derive_candidate in
          rw (e, derive_candidate)
            (rw p (rw q (Ends-throw (Answers s db) signature_required db fs)))
      | inr q ↦
          unfold derive_candidate in
          rw (e, derive_candidate) (rw p (rw q (Ends-derive_body c s db fs seen)))
    ]
  ]
]

Change-Seen : (op : Op) (a b : Option CandidateRow) → Change op a b → Seen a → Seen b
unfolding new_row bumped
Change-Seen op a b (Change.same e) h = subst Seen (sym e) h
Change-Seen op a b (Change.appears c s o e f) h = subst Seen (sym f) (omega arith)
Change-Seen op a b (Change.recurs s r o e f) h =
    let p : 0 < r.sightings = subst Seen e h in subst Seen (sym f) (ground arith)
Change-Seen op a b (Change.gets_confirmed now r o e f g) h = subst Seen (sym g) (subst Seen e h)
Change-Seen op a b (Change.gets_rejected now r o e f g) h = subst Seen (sym g) (subst Seen e h)
Change-Seen op a b (Change.expires ttl now r o e f g) h = subst Seen (sym g) (subst Seen e h)
Change-Seen op a b (Change.vanishes t r o e f g) h = subst Seen (sym g) tt

run_all-Seen :
    (ops : List Op) (db : Db) (fs : Faults) (sig : Str)
    → IsKeyed db.candidates
    → Seen (find_signature sig db.candidates)
    → Seen (find_signature sig (run_all ops db fs).candidates)
unfolding run_all
run_all-Seen [] db fs sig k h = h
run_all-Seen (op ∷ ops) db fs sig k h =
    let (c, k') = run-Changes op db fs k in
    run_all-Seen ops (run op db fs).0 (run op db fs).1 sig k' (Change-Seen op _ _ (c sig) h)

-- After any calls on empty tables, with whatever failures, DeriveCandidate, where it returns no error,
-- returns the row that is stored under the signature, and says that it inserted the row exactly if there
-- was none of the signature before.
pub derive_candidate-Answers :
    (ops : List Op) (before after : Faults) (s : Sighting) (row : CandidateRow) (inserted : Bool)
    → let db = run_all ops (record { candidates = []; playbooks = [] }) before in
      (derive_candidate s db after).result ≡ ok (row, inserted)
      → (find_signature s.signature (derive_candidate s db after).db.candidates ≡ some row)
        × (inserted ≡ is_none (find_signature s.signature db.candidates))
derive_candidate-Answers ops before after s row inserted h =
    let db = run_all ops (record { candidates = []; playbooks = [] }) before in
    Ends-derive_candidate s db after
      (run_all-Seen ops (record { candidates = []; playbooks = [] }) before s.signature tt
        (unfold find_signature in tt))
      (row, inserted) h
