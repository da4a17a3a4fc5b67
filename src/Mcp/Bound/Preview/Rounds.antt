-- ===== src/Mcp/Bound/Preview/Rounds.antt =====
-- The loops that make a preview shorter until it fits.
use iconify_cli.Base.{
  ℕ, zero, suc, ◌+◌, ◌≤◌, ◌<◌, ◌≡◌, Option, none, some, arith, length, min, Option-cases, inl, inr,
}
use iconify_cli.Mcp.Bound.Json.{Bytes, Codec, object, max_bytes, max_preview_bytes, fitting, or_nil}
use iconify_cli.Mcp.Bound.Preview.{
  smaller, first_fitting, try_limits, preview_attempt, preview_envelope, bare_preview,
}

pub fitting-le : (o : Option Bytes) (out : Bytes) → fitting o ≡ some out → length out ≤ max_bytes
unfolding fitting
fitting-le none out h = ground arith
fitting-le (some b) out h = ground arith

pub fitting-same : (o : Option Bytes) (out : Bytes) → fitting o ≡ some out → o ≡ some out
unfolding fitting
fitting-same none out h = ground arith
fitting-same (some b) out h = ground arith

-- What the loop gives fits, and comes from an attempt at a limit that is not above the first one.
pub first_fitting-some :
    (attempt : ℕ → Option Bytes) (fuel limit l : ℕ) (out : Bytes)
    → first_fitting attempt fuel limit ≡ some (l, out)
    → (l ≤ limit) × (fitting (attempt l) ≡ some out)
unfolding first_fitting smaller
first_fitting-some attempt zero limit l out h = ground arith
first_fitting-some attempt (suc fuel) limit l out h =
    ground (arith, first_fitting-some attempt fuel (smaller limit) l out)

-- With enough fuel, a loop without a result has tried the limit 0.
pub first_fitting-none :
    (attempt : ℕ → Option Bytes) (fuel limit : ℕ)
    → limit < fuel
    → first_fitting attempt fuel limit ≡ none
    → fitting (attempt 0) ≡ none
unfolding first_fitting smaller
first_fitting-none attempt zero limit p h = ground arith
first_fitting-none attempt (suc fuel) limit p h =
    ground (arith, first_fitting-none attempt fuel (smaller limit))

pub try_limits-some :
    (attempt : ℕ → Option Bytes) (limit l : ℕ) (out : Bytes)
    → try_limits attempt limit ≡ some (l, out)
    → (l ≤ limit) × (fitting (attempt l) ≡ some out)
unfolding try_limits
try_limits-some attempt limit l out h = first_fitting-some attempt (limit + 1) limit l out h

pub try_limits-none :
    (attempt : ℕ → Option Bytes) (limit : ℕ)
    → try_limits attempt limit ≡ none
    → fitting (attempt 0) ≡ none
unfolding try_limits
try_limits-none attempt limit h = first_fitting-none attempt (limit + 1) limit (omega arith) h

-- What a loop of previews gives is within the budget, if what is taken after it is.
pub length-try_limits :
    (attempt : ℕ → Option Bytes) (limit : ℕ) (last : Bytes)
    → length last ≤ max_bytes
    → length (elim (try_limits attempt limit) as (λ _. Bytes) [ some (l, out) ↦ out | none ↦ last ])
      ≤ max_bytes
length-try_limits attempt limit last h = elim (Option-cases (try_limits attempt limit)) [
  | inl e ↦ rw e h
  | inr ((l, out), e) ↦ rw e (fitting-le (attempt l) out (try_limits-some attempt limit l out e).1)
]

-- A preview envelope is within the budget, if it is without its preview.
pub length-preview_envelope :
    (codec : Codec) (s note : Bytes)
    → length (or_nil (codec.marshal (object (bare_preview (length s) note)))) ≤ max_bytes
    → length (preview_envelope codec s note) ≤ max_bytes
unfolding preview_envelope
length-preview_envelope codec s note h =
    length-try_limits (preview_attempt codec s note) (min (length s) max_preview_bytes) _ h
