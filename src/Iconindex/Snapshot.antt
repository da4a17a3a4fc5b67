-- ===== src/Iconindex/Snapshot.antt =====
-- internal/iconindex/query.go: LatestSnapshot reads back the names that replaceIcons recorded.
use mathlib.Core.List.{append-nil, append_assoc}
use iconify_cli.Base.{
  ℕ, ◌≤◌, ◌≡◌, refl, sym, ap, ◌∙◌, Bool, true, false, not, ◌&&◌, ◌==◌, ltb, Option, none, some,
  List, [], ◌∷◌, ◌++◌, arith, keep, All, if◌then◌else◌, inl, inr,
}
use iconify_cli.Base.Strings.{Str, str_eq, str_eq_refl, is_empty}
use iconify_cli.Iconindex.Collection.{IconRow}
use iconify_cli.Iconindex.Db.{SnapshotRow, Db, Faults}
use iconify_cli.Iconindex.Replace.{
  replace_icons, save_snapshot, join_lines, names_of, delete_icons, delete_fts,
  record_last_modified,
}
use iconify_cli.Iconindex.Replace.Effect.{snapshotted, inserted, replaced}
use iconify_cli.Iconindex.Replace.Atomic.{replace_icons_atomic}

pub record Snapshot : Type 0 where
  pub prefix : Str
  pub taken_at : ℕ
  pub names : List Str

-- strings.Split(s, "\n"); `field` is the field so far.
unfoldable pub split_from : Str → Str → List Str
split_from field [] = field ∷ []
split_from field (c ∷ s) = elim (c == b'\n') [
  | true ↦ field ∷ split_from [] s
  | false ↦ split_from (field ++ c ∷ []) s
]

unfoldable pub split_lines : Str → List Str
split_lines s = split_from [] s

-- ORDER BY taken_at DESC LIMIT 1
unfoldable pub newest : List SnapshotRow → Option SnapshotRow
newest [] = none
newest (s ∷ rows) = elim (newest rows) [
  | none ↦ some s
  | some t ↦ if ltb s.taken_at t.taken_at then some t else some s
]

unfoldable pub latest_snapshot : Str → Db → Option Snapshot
latest_snapshot prefix db =
    elim (newest (keep (λ s. str_eq s.prefix prefix) db.icon_set_snapshots)) [
      | none ↦ none
      | some s ↦ some (record {
        prefix = prefix;
        taken_at = s.taken_at;
        names = if is_empty s.names then [] else split_lines s.names;
      })
    ]

-- The name has no line break.
unfoldable pub is_line : Str → Bool
is_line [] = true
is_line (c ∷ s) = not (c == b'\n') && is_line s

split_from-append :
    (field n rest : Str)
    → is_line n ≡ true
    → split_from field (n ++ rest) ≡ split_from (field ++ n) rest
unfolding split_from is_line
split_from-append field [] rest h = rw (append-nil field) refl
split_from-append field (c ∷ n) rest h =
    ground (arith, split_from-append (field ++ c ∷ []) n rest, append_assoc field (c ∷ []) n)

split_from-break :
    (n rest : Str) → is_line n ≡ true → split_from [] (n ++ b'\n' ∷ rest) ≡ n ∷ split_from [] rest
unfolding split_from
split_from-break n rest h = split_from-append [] n (b'\n' ∷ rest) h

split_from-line : (n : Str) → is_line n ≡ true → split_from [] n ≡ n ∷ []
unfolding split_from
split_from-line n h = ap (split_from []) (sym (append-nil n)) ∙ split_from-append [] n [] h

-- A list of names without line breaks comes back from its lines, if it is not empty.
split-join_lines :
    (n : Str) (names : List Str)
    → is_line n ≡ true
    → All (λ m. is_line m ≡ true) names
    → split_lines (join_lines (n ∷ names)) ≡ n ∷ names
unfolding split_lines join_lines
split-join_lines n [] h a = split_from-line n h
split-join_lines n (m ∷ names) h a =
    split_from-break n (join_lines (m ∷ names)) h
    ∙ ap (λ l. n ∷ l) (split-join_lines m names a.0 a.1)

-- Among the snapshots of a set, a saved one is the newest, if none is of a later time.
newest-saved :
    (s : SnapshotRow) (rows : List SnapshotRow)
    → All (λ t. t.taken_at ≤ s.taken_at) rows
    → newest (
        keep
          (λ t. str_eq t.prefix s.prefix)
          (keep (λ t. not (str_eq t.prefix s.prefix && t.taken_at == s.taken_at)) rows ++ s ∷ []))
      ≡ some s
unfolding newest
newest-saved s [] a = ground (arith, str_eq_refl s.prefix)
newest-saved s (r ∷ rows) a = ground (arith, newest-saved s rows a.1, a.0)

snapshots-replaced :
    (now : ℕ) (prefix : Str) (rows : List IconRow) (lm : ℕ) (db : Db)
    → (replaced now prefix rows lm db).icon_set_snapshots
      ≡ (snapshotted now prefix lm (names_of prefix db) db).icon_set_snapshots
unfolding replaced inserted delete_fts delete_icons record_last_modified
snapshots-replaced now prefix rows lm db = refl

latest-of_replaced :
    (now : ℕ) (prefix : Str) (rows : List IconRow) (lm : ℕ) (db : Db)
    → latest_snapshot prefix (replaced now prefix rows lm db)
      ≡ latest_snapshot prefix (snapshotted now prefix lm (names_of prefix db) db)
unfolding latest_snapshot
latest-of_replaced now prefix rows lm db = rw (snapshots-replaced now prefix rows lm db) refl

is_empty-join_lines :
    (n : Str) (names : List Str) → is_empty n ≡ false → is_empty (join_lines (n ∷ names)) ≡ false
unfolding join_lines
is_empty-join_lines n [] e = e
is_empty-join_lines [] (m ∷ names) e = ground (arith, e)
is_empty-join_lines (c ∷ n) (m ∷ names) e = refl

-- What a stored list of lines reads as.
unfoldable lines_of : Str → List Str
lines_of s = if is_empty s then [] else split_lines s

lines_of-join_lines :
    (n : Str) (names : List Str)
    → is_line n ≡ true
    → is_empty n ≡ false
    → All (λ m. is_line m ≡ true) names
    → lines_of (join_lines (n ∷ names)) ≡ n ∷ names
unfolding lines_of
lines_of-join_lines n names h e hs =
    ground (arith, is_empty-join_lines n names e, split-join_lines n names h hs)

latest_of-newest :
    (prefix : Str) (db : Db) (s : SnapshotRow)
    → newest (keep (λ t. str_eq t.prefix prefix) db.icon_set_snapshots) ≡ some s
    → latest_snapshot prefix db
      ≡ some (record { prefix = prefix; taken_at = s.taken_at; names = lines_of s.names })
unfolding latest_snapshot lines_of
latest_of-newest prefix db s h = rw (latest_snapshot, h) refl

latest-snapshotted :
    (now : ℕ) (prefix n : Str) (lm : ℕ) (names : List Str) (db : Db)
    → All (λ t. t.taken_at ≤ now) db.icon_set_snapshots
    → is_line n ≡ true
    → is_empty n ≡ false
    → All (λ m. is_line m ≡ true) names
    → latest_snapshot prefix (snapshotted now prefix lm (n ∷ names) db)
      ≡ some (record { prefix = prefix; taken_at = now; names = n ∷ names })
unfolding snapshotted save_snapshot
latest-snapshotted now prefix n lm names db a h e hs =
    let s : SnapshotRow = record {
      prefix = prefix;
      taken_at = now;
      last_modified = lm;
      names = join_lines (n ∷ names);
    } in
    latest_of-newest prefix (save_snapshot s db) s (newest-saved s db.icon_set_snapshots a)
    ∙ ap (λ l. some (record { prefix = prefix; taken_at = now; names = l }))
        (lines_of-join_lines n names h e hs)

-- When replaceIcons reports no error, LatestSnapshot gives back exactly the names that the set had
-- before, in order, with the time of the change. The set must have had names, none of them with a
-- line break and the first not empty, and no snapshot may be of a later time.
pub latest_snapshot-replace_icons :
    (now : ℕ) (prefix : Str) (rows : List IconRow) (lm : ℕ) (db : Db) (fs : Faults) (n : Str)
    (names : List Str)
    → names_of prefix db ≡ n ∷ names
    → All (λ m. is_line m ≡ true) (n ∷ names)
    → is_empty n ≡ false
    → All (λ t. t.taken_at ≤ now) db.icon_set_snapshots
    → (replace_icons now prefix rows lm db fs).error ≡ none
    → latest_snapshot prefix (replace_icons now prefix rows lm db fs).db
      ≡ some (record { prefix = prefix; taken_at = now; names = names_of prefix db })
latest_snapshot-replace_icons now prefix rows lm db fs n names p h e a ok =
    elim (replace_icons_atomic now prefix rows lm db fs) [
      | inl (_, t) ↦
          rw (t, latest-of_replaced now prefix rows lm db, p)
            (latest-snapshotted now prefix n lm names db a h.0 e h.1)
      | inr (_, t, _) ↦ ground (arith, ok, t)
    ]
