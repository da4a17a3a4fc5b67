-- ===== src/Mcp/Bound/Preview/Runes.antt =====
-- The runes of a UTF-8 text: where one ends, and that none ends inside another.
use mathlib.Core.List.{append-nil}
use iconify_cli.Base.{ℕ, ◌≡◌, refl, Bool, true, false, ◌&&◌, [], ◌∷◌, ◌++◌, arith}
use iconify_cli.Mcp.Bound.Json.{Bytes}
use iconify_cli.Mcp.Bound.Preview.{is_tail, is_rune, last_from, ends_in_rune}

unfoldable tails : Bytes → Bool
tails [] = true
tails (b ∷ s) = is_tail b && tails s

-- A rune is a byte that may start one, and continuation bytes.
rune-tails : (a : ℕ) (s : Bytes) → is_rune (a ∷ s) ≡ true → (is_tail a ≡ false) × (tails s ≡ true)
unfolding is_rune tails is_tail
rune-tails a [] h = ground arith
rune-tails a (b ∷ []) h = ground arith
rune-tails a (b ∷ c ∷ []) h = ground arith
rune-tails a (b ∷ c ∷ d ∷ []) h = ground arith
rune-tails a (b ∷ c ∷ d ∷ e ∷ s) h = ground arith

last_from-tails : (s : Bytes) → tails s ≡ true → last_from s ≡ []
unfolding last_from tails
last_from-tails [] h = refl
last_from-tails (b ∷ s) h = ground (arith, last_from-tails s)

tails-append : (s t : Bytes) → tails (s ++ t) ≡ true → tails s ≡ true
unfolding tails
tails-append [] t h = refl
tails-append (b ∷ s) t h = ground (arith, tails-append s t)

last_from-rune : (a : ℕ) (s t : Bytes) → is_rune (a ∷ s ++ t) ≡ true → last_from (a ∷ s) ≡ a ∷ s
unfolding last_from
last_from-rune a s t h =
    let r = rune-tails a (s ++ t) h in ground (arith, r.0, last_from-tails s (tails-append s t r.1))

last_from-append :
    (p : Bytes) (a : ℕ) (s : Bytes) → last_from (a ∷ s) ≡ a ∷ s → last_from (p ++ a ∷ s) ≡ a ∷ s
unfolding last_from
last_from-append [] a s h = h
last_from-append (b ∷ p) a s h = rw (last_from-append p a s h) refl

-- No rune is the beginning of another.
rune-append :
    (a : ℕ) (s : Bytes) (b : ℕ) (t : Bytes)
    → is_rune (a ∷ s ++ b ∷ t) ≡ true
    → is_rune (a ∷ s) ≡ false
unfolding is_rune is_tail
rune-append a [] b [] h = ground arith
rune-append a [] b (c ∷ []) h = ground arith
rune-append a [] b (c ∷ d ∷ []) h = ground arith
rune-append a [] b (c ∷ d ∷ e ∷ t) h = ground arith
rune-append a (x ∷ []) b [] h = ground arith
rune-append a (x ∷ []) b (c ∷ []) h = ground arith
rune-append a (x ∷ []) b (c ∷ d ∷ t) h = ground arith
rune-append a (x ∷ y ∷ []) b [] h = ground arith
rune-append a (x ∷ y ∷ []) b (c ∷ t) h = ground arith
rune-append a (x ∷ y ∷ z ∷ []) b t h = ground arith
rune-append a (x ∷ y ∷ z ∷ w ∷ s) b t h = ground arith

pub ends-append_rune : (p r : Bytes) → is_rune r ≡ true → ends_in_rune (p ++ r) ≡ true
unfolding ends_in_rune
ends-append_rune p [] h = unfold is_rune in ground arith
ends-append_rune p (a ∷ s) h =
    rw (last_from-append p a s (last_from-rune a s [] (rw (append-nil s) h))) h

pub ends-append_part :
    (p : Bytes) (a : ℕ) (s : Bytes) (b : ℕ) (t : Bytes)
    → is_rune (a ∷ s ++ b ∷ t) ≡ true
    → ends_in_rune (p ++ a ∷ s) ≡ false
unfolding ends_in_rune
ends-append_part p a s b t h =
    rw (last_from-append p a s (last_from-rune a s (b ∷ t) h)) (rune-append a s b t h)
