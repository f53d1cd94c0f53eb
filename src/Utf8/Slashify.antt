-- ===== src/Utf8/Slashify.antt =====
-- `utf8_slashify` on a terminated string, against a map over its characters.
use jelatine.Common.{
  ℕ, ◌≡◌, refl, ◌≢◌, ap, List, [], ◌∷◌, ◌++◌, map, arith, ◌==◌, if◌then◌else◌, length, All,
}
use jelatine.Common.Outcome.{ok}
use jelatine.Utf8.{strlen, slashify_loop, slashify}

-- A name as the class file has it, from one with dots.
unfoldable pub internal_char : ℕ → ℕ
internal_char b = if b == b'.' then b'/' else b

pub strlen_lem :
    (str rest : List ℕ) → All (λ b. b ≢ 0) str → strlen (str ++ (0 ∷ rest)) ≡ ok (length str)
unfolding strlen
strlen_lem [] rest h = refl
strlen_lem (b ∷ str) rest h = ground (arith, strlen_lem str rest)

slashify_loop-map :
    (str rest : List ℕ) → slashify_loop (length str) (str ++ rest) ≡ map internal_char str ++ rest
unfolding slashify_loop internal_char
slashify_loop-map [] rest = refl
slashify_loop-map (b ∷ str) rest =
    ap (λ t. (if b == b'.' then b'/' else b) ∷ t) (slashify_loop-map str rest)

-- `utf8_slashify` turns every dot before the terminator into a slash, keeps every other character,
-- and writes neither the terminator nor what follows it.
pub slashify-map :
    (str rest : List ℕ)
    → All (λ b. b ≢ 0) str
    → slashify (str ++ (0 ∷ rest)) ≡ ok (map internal_char str ++ (0 ∷ rest))
unfolding slashify
slashify-map str rest h = rw (strlen_lem str rest h) (ap ok (slashify_loop-map str (0 ∷ rest)))
