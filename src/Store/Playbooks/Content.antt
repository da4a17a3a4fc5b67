-- ===== src/Store/Playbooks/Content.antt =====
-- What a write leaves in the row of its family, and that other families keep theirs.
use mathlib.Core.Option
use iconify_cli.Base.{
  ℕ, ◌≡◌, refl, ◌≢◌, sym, ap, ◌∙◌, ◌⊎◌, Bool, true, false, Option, none, some, List, [], ◌∷◌, ◌++◌,
  arith, ◌==◌, ==_iff, Bool-cases, Option-cases, inl, inr, if◌then◌else◌,
}
use iconify_cli.Base.Strings.{Str, str_eq, str_eq_iff, str_eq_refl, trim_space}
use iconify_cli.Store.Db.{
  PlaybookRow, Db, Error, Faults, ok, err, M, pure, call, exec, playbook_lookup, playbook_update,
  playbook_insert,
}
use iconify_cli.Store.Ends.{Ends, Ends-pure, Ends-call, Ends-exec, Ends-bind, transaction-cases}
use iconify_cli.Store.Playbooks.{
  UpsertPlaybookInput, updated, find_family, has_playbook, at_id, insert_playbook, update_playbook,
  source_of, save, playbook_row, input_error, upsert_playbook_tx, upsert_playbook,
}

-- PRIMARY KEY
abbrev pub IsKeyed : List PlaybookRow → Type 0
IsKeyed [] = Unit {0}
IsKeyed (r ∷ rows) = (has_playbook r.id rows ≡ false) × IsKeyed rows

abbrev changed : ℕ → (PlaybookRow → PlaybookRow) → PlaybookRow → PlaybookRow
changed id f r = if r.id == id then f r else r

find_family-at_id :
    (family : Str) (id : ℕ) (f : PlaybookRow → PlaybookRow) (rows : List PlaybookRow)
    → ((r : PlaybookRow) → (f r).query_family ≡ r.query_family)
    → find_family family (at_id id f rows) ≡ Option.map (changed id f) (find_family family rows)
unfolding find_family at_id
find_family-at_id family id f [] h = refl
find_family-at_id family id f (r ∷ rows) h =
    let e : (changed id f r).query_family ≡ r.query_family = ground (arith, h r) in
    elim (Bool-cases (str_eq r.query_family family)) [
      | inl b ↦ simp (e, b) refl
      | inr b ↦ simp (e, b) (find_family-at_id family id f rows h)
    ]

has_playbook-find_family :
    (family : Str) (rows : List PlaybookRow) (r : PlaybookRow)
    → find_family family rows ≡ some r
    → has_playbook r.id rows ≡ true
unfolding find_family has_playbook
has_playbook-find_family family [] r h = ground arith
has_playbook-find_family family (t ∷ rows) r h =
    ground (arith, has_playbook-find_family family rows r)

-- Rows of two families with one id are one row.
find_family-eq :
    (a b : Str) (rows : List PlaybookRow) (r t : PlaybookRow)
    → IsKeyed rows
    → find_family a rows ≡ some r
    → find_family b rows ≡ some t
    → r.id ≡ t.id
    → r ≡ t
unfolding find_family
find_family-eq a b [] r t k f g e = ground arith
find_family-eq a b (x ∷ rows) r t (i, k) f g e = ground (
  arith,
  find_family-eq a b rows r t k,
  has_playbook-find_family a rows r,
  has_playbook-find_family b rows t,
)

query_family-find_family :
    (family : Str) (rows : List PlaybookRow) (r : PlaybookRow)
    → find_family family rows ≡ some r
    → r.query_family ≡ family
unfolding find_family
query_family-find_family family [] r h = ground arith
query_family-find_family family (t ∷ rows) r h =
    ground (arith, str_eq_iff t.query_family family, query_family-find_family family rows r)

abbrev or_new : Str → PlaybookRow → Option PlaybookRow → Option PlaybookRow
or_new family r (some old) = some old
or_new family r none = if str_eq r.query_family family then some r else none

find_family-append :
    (family : Str) (rows : List PlaybookRow) (r : PlaybookRow)
    → find_family family (rows ++ r ∷ []) ≡ or_new family r (find_family family rows)
unfolding find_family
find_family-append family [] r = refl
find_family-append family (t ∷ rows) r = ground (arith, find_family-append family rows r)

-- The row of the family is the old one changed, or the new one, and other families keep theirs.
abbrev pub Saved : Str → (PlaybookRow → PlaybookRow) → PlaybookRow → Db → ℕ × Bool → Db → Type 0
Saved family f new db (id, inserted) db' =
    (((old : PlaybookRow) × (find_family family db.playbooks ≡ some old)
        × (inserted ≡ false)
        × (id ≡ old.id)
        × (find_family family db'.playbooks ≡ some (f old)))
      ⊎ ((find_family family db.playbooks ≡ none)
          × (inserted ≡ true)
          × (id ≡ new.id)
          × (find_family family db'.playbooks ≡ some new)))
    × ((other : Str)
        → other ≢ family
        → find_family other db'.playbooks ≡ find_family other db.playbooks)

module _ (family : Str) (f : PlaybookRow → PlaybookRow) (new : PlaybookRow)
    (f_family : (r : PlaybookRow) → (f r).query_family ≡ r.query_family)
    (new_family : new.query_family ≡ family) where
  changed_self : (r : PlaybookRow) → changed r.id f r ≡ f r
  changed_self r = ground arith

  other-update :
      (db : Db) (old : PlaybookRow) (other : Str)
      → IsKeyed db.playbooks
      → find_family family db.playbooks ≡ some old
      → other ≢ family
      → find_family other (at_id old.id f db.playbooks) ≡ find_family other db.playbooks
  other-update db old other k e n =
      let m = find_family-at_id other old.id f db.playbooks f_family in
      elim (Option-cases (find_family other db.playbooks)) [
        | inl q ↦ m ∙ ap (Option.map (changed old.id f)) q ∙ sym q
        | inr (t, q) ↦ elim (Bool-cases (t.id == old.id)) [
          | inl b ↦
              let same : t ≡ old =
                find_family-eq other family db.playbooks t old k q e ((==_iff t.id old.id).0 b) in
              absurd (
                n (
                  sym (query_family-find_family other db.playbooks t q)
                  ∙ ap (λ (x : PlaybookRow). x.query_family) same
                  ∙ query_family-find_family family db.playbooks old e))
          | inr b ↦
              let c : changed old.id f t ≡ t = simp b refl in
              m ∙ ap (Option.map (changed old.id f)) q ∙ ap (λ x. some x) c ∙ sym q
        ]
      ]

  other-insert :
      (db : Db) (other : Str)
      → other ≢ family
      → find_family other (db.playbooks ++ new ∷ []) ≡ find_family other db.playbooks
  other-insert db other n =
      let m = find_family-append other db.playbooks new in
      elim (Option-cases (find_family other db.playbooks)) [
        | inl q ↦
            m
            ∙ ap (or_new other new) q
            ∙ simp new_family (ground (arith, str_eq_iff family other))
            ∙ sym q
        | inr (t, q) ↦ m ∙ ap (or_new other new) q ∙ sym q
      ]

  Ends-save :
      (o : Option PlaybookRow) (db d : Db) (fs : Faults)
      → IsKeyed db.playbooks
      → (o ≡ find_family family db.playbooks) × (d ≡ db)
      → Ends (Saved family f new db) (save o f new d fs)
  unfolding save update_playbook insert_playbook
  Ends-save (some old) db d fs k (e, q) =
      Ends-bind (λ u d'. update_playbook old.id f d ≡ some (u, d')) (Saved family f new db)
        (exec playbook_update (update_playbook old.id f)) (λ _. pure (old.id, false)) d fs
        (Ends-exec playbook_update (update_playbook old.id f) d fs)
        (λ u d' fs' h.
          let p : record d { playbooks = at_id old.id f d.playbooks } ≡ d' = cc in
          let w : d'.playbooks ≡ at_id old.id f db.playbooks =
            ap (λ (x : Db). x.playbooks) (sym p) ∙ ap (λ (x : Db). at_id old.id f x.playbooks) q in
          Ends-pure (Saved family f new db) (old.id, false) d' fs'
            (
              inl (
                old,
                sym e,
                refl,
                refl,
                ap (find_family family) w
                    ∙ find_family-at_id family old.id f db.playbooks f_family
                    ∙ ap (Option.map (changed old.id f)) (sym e)
                    ∙ ap (λ x. some x) (changed_self old),
              ),
              λ other n. ap (find_family other) w ∙ other-update db old other k (sym e) n,
            ))
  Ends-save none db d fs k (e, q) =
      Ends-bind (λ u d'. insert_playbook new d ≡ some (u, d')) (Saved family f new db)
        (exec playbook_insert (insert_playbook new)) (λ id. pure (id, true)) d fs
        (Ends-exec playbook_insert (insert_playbook new) d fs)
        (λ id d' fs' h.
          let (i, p) : (new.id ≡ id) × (record d { playbooks = d.playbooks ++ new ∷ [] } ≡ d') =
            ground (arith, h) in
          let w : d'.playbooks ≡ db.playbooks ++ new ∷ [] =
            ap (λ (x : Db). x.playbooks) (sym p) ∙ ap (λ (x : Db). x.playbooks ++ new ∷ []) q in
          Ends-pure (Saved family f new db) (id, true) d' fs'
            (
              inr (
                sym e,
                refl,
                sym i,
                ap (find_family family) w
                    ∙ find_family-append family db.playbooks new
                    ∙ ap (or_new family new) (sym e)
                    ∙ simp (new_family, str_eq_refl family) refl,
              ),
              λ other n. ap (find_family other) w ∙ other-insert db other n,
            ))

updated-query_family :
    (input : UpsertPlaybookInput) (now : ℕ) (r : PlaybookRow)
    → (updated input now r).query_family ≡ r.query_family
unfolding updated
updated-query_family input now r = refl

Ends-upsert_playbook_tx :
    (new : ℕ) (input : UpsertPlaybookInput) (now : ℕ) (db : Db) (fs : Faults)
    → IsKeyed db.playbooks
    → input_error input ≡ none
    → let family = trim_space input.query_family in
      Ends
        (Saved family
          (updated input now)
          (playbook_row new family input.playbook_json input.notes_text
            (source_of input.source)
            now)
          db)
        (upsert_playbook_tx new input now db fs)
Ends-upsert_playbook_tx new input now db fs k e =
    let family = trim_space input.query_family in
    let row =
      playbook_row new family input.playbook_json input.notes_text (source_of input.source) now in
    let look : M (Option PlaybookRow) =
      call playbook_lookup (λ d. find_family family d.playbooks) in
    unfold upsert_playbook_tx in
    rw (e, upsert_playbook_tx)
      (Ends-bind (λ o d. (o ≡ find_family family db.playbooks) × (d ≡ db))
        (Saved family (updated input now) row db) look (λ o. save o (updated input now) row) db fs
        (Ends-call playbook_lookup (λ d. find_family family d.playbooks) db fs)
        (λ o d fs' p.
          Ends-save family (updated input now) row (updated-query_family input now)
            (unfold playbook_row in refl) o db d fs' k p))

-- UpsertPlaybook fails and leaves the tables, or saves the row of the trimmed family.
pub upsert_playbook-Saved :
    (new : ℕ) (input : UpsertPlaybookInput) (now : ℕ) (db : Db) (fs : Faults)
    → IsKeyed db.playbooks
    → let family = trim_space input.query_family in
      let r = upsert_playbook new input now db fs in
      ((e : Error) × (r.result ≡ err e) × (r.db ≡ db))
      ⊎ ((a : ℕ × Bool) × (r.result ≡ ok a)
          × Saved family
              (updated input now)
              (playbook_row new family input.playbook_json input.notes_text
                (source_of input.source)
                now)
              db
              a
              r.db)
upsert_playbook-Saved new input now db fs k = elim (Option-cases (input_error input)) [
  | inr (e, q) ↦ unfold upsert_playbook in rw (q, upsert_playbook) (inl (e, refl, refl))
  | inl q ↦
      let family = trim_space input.query_family in
      unfold upsert_playbook in
      rw (q, upsert_playbook)
        (transaction-cases
          (Saved family (updated input now)
            (playbook_row new family input.playbook_json input.notes_text (source_of input.source)
              now)
            db)
          (upsert_playbook_tx new input now) db fs
          (λ fs'. Ends-upsert_playbook_tx new input now db fs' k q))
]
