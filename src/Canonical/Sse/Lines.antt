-- ===== src/Canonical/Sse/Lines.antt =====
-- internal/canonical/sse.go: cutting a line off the buffer.
use llm2api.Prelude.{
  ℕ, ◌+◌, ◌<◌, ◌≡◌, Bool, false, some, List, [], ◌∷◌, ◌++◌, length, length-append, arith,
}
use llm2api.Canonical.Sse.{after_return, scan_line}

-- What follows the line is shorter than the buffer.
pub scan_line-shorter :
    (before buffer : List ℕ) (at_eof : Bool) (line rest : List ℕ)
    → scan_line before buffer at_eof ≡ some (line, rest)
    → length rest < length before + length buffer
unfolding scan_line after_return
scan_line-shorter [] [] at_eof line rest h = ground arith
scan_line-shorter (x ∷ before) [] at_eof line rest h = ground arith
scan_line-shorter before (b ∷ []) at_eof line rest h =
    ground (
      arith,
      length-append before (b ∷ []),
      scan_line-shorter (before ++ b ∷ []) [] at_eof line rest,
    )
scan_line-shorter before (b ∷ c ∷ bs) at_eof line rest h = ground (
  arith,
  length-append before (b ∷ []),
  scan_line-shorter (before ++ b ∷ []) (c ∷ bs) at_eof line rest,
)

-- A line that is complete stays the same when more bytes arrive.
pub scan_line-append :
    (before buffer more line rest : List ℕ)
    → scan_line before buffer false ≡ some (line, rest)
    → scan_line before (buffer ++ more) false ≡ some (line, rest ++ more)
unfolding scan_line after_return
scan_line-append before [] more line rest h = ground arith
scan_line-append before (b ∷ []) more line rest h =
    ground (arith, scan_line-append (before ++ b ∷ []) [] more line rest)
scan_line-append before (b ∷ c ∷ bs) more line rest h =
    ground (arith, scan_line-append (before ++ b ∷ []) (c ∷ bs) more line rest)
