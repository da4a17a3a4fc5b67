-- ===== src/Store/Playbooks/Accepts.antt =====
-- When UpsertPlaybook refuses, and that it succeeds otherwise.
use iconify_cli.Base.{
  ℕ, ◌≡◌, refl, sym, subst, ◌⊎◌, inl, inr, Bool, true, false, Option, none, some, [], ◌∷◌, ◌++◌,
  arith, Bool-cases, Option-cases,
}
use iconify_cli.Base.Strings.{Str, is_empty, trim_space}
use iconify_cli.Store.Db.{
  PlaybookRow, Db, Error, playbook_lookup, playbook_update, playbook_insert, Faults, ok, err, M,
  pure, call, exec,
}
use iconify_cli.Store.Quiet.{
  has_fault, Works, Works-call, Works-exec, Works-bind, transaction-Works,
}
use iconify_cli.Store.Playbooks.{
  UpsertPlaybookInput, updated, find_family, has_playbook, at_id, insert_playbook, update_playbook,
  source_of, save, playbook_row, input_error, upsert_playbook_tx, upsert_playbook,
}

-- The family is blank, or both the playbook and the notes are.
abbrev pub IsRefused : UpsertPlaybookInput → Type 0
IsRefused input =
    (trim_space input.query_family ≡ [])
    ⊎ ((trim_space input.playbook_json ≡ []) × (trim_space input.notes_text ≡ []))

-- What an error can come from: the input, a database call that fails, or a new id that is taken.
abbrev pub Cause : ℕ → UpsertPlaybookInput → Db → Faults → Type 0
Cause id input db fs =
    IsRefused input ⊎ ((has_fault fs ≡ true) ⊎ (has_playbook id db.playbooks ≡ true))

nil_of_is_empty : (s : Str) → is_empty s ≡ true → s ≡ []
nil_of_is_empty [] h = refl
nil_of_is_empty (c ∷ s) h = absurd (cc)

input_error-IsRefused :
    (input : UpsertPlaybookInput) (e : Error) → input_error input ≡ some e → IsRefused input
unfolding input_error
input_error-IsRefused input e h = elim (Bool-cases (is_empty (trim_space input.query_family))) [
  | inl f ↦ inl (nil_of_is_empty (trim_space input.query_family) f)
  | inr f ↦ inr (
    nil_of_is_empty (trim_space input.playbook_json) (ground (arith, f, h)),
    nil_of_is_empty (trim_space input.notes_text) (ground (arith, f, h)),
  )
]

Works-save :
    (o : Option PlaybookRow) (f : PlaybookRow → PlaybookRow) (new : PlaybookRow) (d : Db)
    (fs : Faults)
    → has_playbook new.id d.playbooks ≡ false
    → has_fault fs ≡ false
    → Works (λ _ _. Unit {0}) (save o f new d fs)
unfolding save update_playbook insert_playbook
Works-save (some old) f new d fs h n =
    Works-bind (λ _ _. Unit {0}) (λ _ _. Unit {0}) (exec playbook_update (update_playbook old.id f))
      (λ _. pure (old.id, false)) d fs
      (Works-exec playbook_update (update_playbook old.id f) tt
        (record d { playbooks = at_id old.id f d.playbooks }) d fs refl n)
      (λ _ _ gs _ g. ((old.id, false), refl, tt, g))
Works-save none f new d fs h n =
    Works-bind (λ _ _. Unit {0}) (λ _ _. Unit {0}) (exec playbook_insert (insert_playbook new))
      (λ id. pure (id, true)) d fs
      (Works-exec playbook_insert (insert_playbook new) new.id
        (record d { playbooks = d.playbooks ++ new ∷ [] }) d fs (rw h refl) n)
      (λ id _ gs _ g. ((id, true), refl, tt, g))

module _ (id : ℕ) (input : UpsertPlaybookInput) (now : ℕ) (db : Db)
    (accepted : input_error input ≡ none) (fresh : has_playbook id db.playbooks ≡ false) where
  Works-upsert_playbook_tx :
      (fs : Faults)
      → has_fault fs ≡ false
      → Works (λ _ _. Unit {0}) (upsert_playbook_tx id input now db fs)
  unfolding playbook_row
  Works-upsert_playbook_tx fs n =
      let family = trim_space input.query_family in
      let row =
        playbook_row id family input.playbook_json input.notes_text (source_of input.source) now in
      let look : M (Option PlaybookRow) =
        call playbook_lookup (λ d. find_family family d.playbooks) in
      unfold upsert_playbook_tx in
      rw (accepted, upsert_playbook_tx)
        (Works-bind (λ o d. (o ≡ find_family family db.playbooks) × (d ≡ db)) (λ _ _. Unit {0}) look
          (λ o. save o (updated input now) row) db fs
          (Works-call playbook_lookup (λ d. find_family family d.playbooks) db fs n)
          (λ o d gs p g.
            Works-save o (updated input now) row d gs
              (subst (λ (x : Db). has_playbook id x.playbooks ≡ false) (sym p.1) fresh) g))

  upsert_playbook-ok :
      (fs : Faults)
      → has_fault fs ≡ false
      → (a : ℕ × Bool) × ((upsert_playbook id input now db fs).result ≡ ok a)
  upsert_playbook-ok fs n =
      unfold upsert_playbook in
      rw (accepted, upsert_playbook)
        (transaction-Works (upsert_playbook_tx id input now) db fs n Works-upsert_playbook_tx)

-- An error has a cause.
pub upsert_playbook-Cause :
    (id : ℕ) (input : UpsertPlaybookInput) (now : ℕ) (db : Db) (fs : Faults) (e : Error)
    → (upsert_playbook id input now db fs).result ≡ err e
    → Cause id input db fs
upsert_playbook-Cause id input now db fs e h = elim (Option-cases (input_error input)) [
  | inr (x, q) ↦ inl (input_error-IsRefused input x q)
  | inl q ↦ elim (Bool-cases (has_fault fs)) [
    | inl f ↦ inr (inl f)
    | inr f ↦ elim (Bool-cases (has_playbook id db.playbooks)) [
      | inl t ↦ inr (inr t)
      | inr t ↦ let (a, r) = upsert_playbook-ok id input now db q t fs f in absurd (cc (h, r))
    ]
  ]
]
