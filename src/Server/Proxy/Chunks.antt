-- ===== src/Server/Proxy/Chunks.antt =====
-- `slice::chunks` of Rust's library, as the streamer uses it: pieces of a size, the last one
-- perhaps shorter. A size of zero panics, which is `none`.
use expose.Prelude.{
  ℕ, zero, suc, ◌≤◌, ◌<◌, ◌≡◌, ◌∙◌, refl, ◌++◌, List, [], ◌∷◌, Option, none, some, arith, length,
  take, drop, take-append-drop, length-drop, length-take-le, ap, All, subst,
}
use expose.Prelude.Text.{Bytes}

unfoldable pub pieces : ℕ → ℕ → Bytes → List Bytes
pieces zero size xs = []
pieces (suc fuel) size [] = []
pieces (suc fuel) size (x ∷ xs) = take size (x ∷ xs) ∷ pieces fuel size (drop size (x ∷ xs))

-- Each piece is not empty, so as many rounds as there are bytes are enough.
unfoldable pub chunks : ℕ → Bytes → Option (List Bytes)
unfolding pieces
chunks zero xs = none
chunks (suc n) xs = some (pieces (length xs) (suc n) xs)

abbrev pub concat : List Bytes → Bytes
concat [] = []
concat (b ∷ bs) = b ++ concat bs

concat-pieces : (fuel n : ℕ) (xs : Bytes) → length xs ≤ fuel → concat (pieces fuel (suc n) xs) ≡ xs
unfolding pieces
concat-pieces zero n [] h = refl
concat-pieces zero n (x ∷ xs) h = absurd (omega arith)
concat-pieces (suc fuel) n [] h = refl
concat-pieces (suc fuel) n (x ∷ xs) h =
    ap (λ t. x ∷ take n xs ++ t)
      (concat-pieces fuel n (drop n xs) (omega (arith, length-drop n xs)))
    ∙ ap (◌∷◌ x) (take-append-drop n xs)

-- A piece holds a byte at least, and no more than the size.
abbrev pub Fits : ℕ → Bytes → Type 0
Fits size b = (0 < length b) × (length b ≤ size)

pieces-Fits : (fuel n : ℕ) (xs : Bytes) → All (Fits (suc n)) (pieces fuel (suc n) xs)
unfolding pieces
pieces-Fits zero n xs = tt
pieces-Fits (suc fuel) n [] = tt
pieces-Fits (suc fuel) n (x ∷ xs) =
    ((omega arith, omega (arith, length-take-le n xs)), pieces-Fits fuel n (drop n xs))

pub chunks_lem :
    (size : ℕ) (xs : Bytes) (bs : List Bytes)
    → chunks size xs ≡ some bs
    → (concat bs ≡ xs) × All (Fits size) bs
unfolding chunks
chunks_lem zero xs bs h = cc
chunks_lem (suc n) xs bs h =
    subst (λ x. (concat x ≡ xs) × All (Fits (suc n)) x) (cc)
      (concat-pieces (length xs) n xs (omega arith), pieces-Fits (length xs) n xs)

pub chunks_total :
    (size : ℕ) (xs : Bytes) → 0 < size → (bs : List Bytes) × (chunks size xs ≡ some bs)
unfolding chunks
chunks_total zero xs h = absurd (omega arith)
chunks_total (suc n) xs h = (pieces (length xs) (suc n) xs, refl)
