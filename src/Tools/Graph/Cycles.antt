-- ===== src/Tools/Graph/Cycles.antt =====
-- A walk without repetition, for every walk.
use mcp_sql_server.Tools.Graph.Walks.{Simple, Walk}
use mcp_sql_server.Tools.Graph.{Edge}
use mcp_sql_server.Common.{
  Bool-cases, List, Text, [], arith, elem, false, inl, inr, refl, sym, text_eq, text_eq_iff, true,
  ◌||◌, ◌∷◌, ◌≡◌,
}

-- Fewer nodes seen, or one more that the walk does not meet, leave a walk simple.
Simple-fewer :
    (seen seen' vs : List Text)
    → ((x : Text) → elem x seen' ≡ true → elem x seen ≡ true)
    → Simple seen vs
    → Simple seen' vs
Simple-fewer seen seen' [] sub h = tt
Simple-fewer seen seen' (v ∷ vs) sub h =
    (absent seen seen' v sub h.0, Simple-fewer (v ∷ seen) (v ∷ seen') vs (λ x m. wider x m) h.1)
  where
    absent :
        (seen seen' : List Text) (v : Text)
        → ((x : Text) → elem x seen' ≡ true → elem x seen ≡ true)
        → elem v seen ≡ false
        → elem v seen' ≡ false
    absent seen seen' v sub h = elim (Bool-cases (elem v seen')) [
      | inl there ↦ absurd (let bad = sub v there in cc)
      | inr not_there ↦ not_there
    ]

    wider : (x : Text) → elem x (v ∷ seen') ≡ true → elem x (v ∷ seen) ≡ true
    wider x m = unfold elem in ground (arith, m, sub x)

Simple-one_more :
    (c : Text) (seen seen' vs : List Text)
    → ((x : Text) → elem x seen' ≡ (text_eq x c || elem x seen))
    → elem c vs ≡ false
    → Simple seen vs
    → Simple seen' vs
unfolding elem
Simple-one_more c seen seen' [] same out h = tt
Simple-one_more c seen seen' (v ∷ vs) same out h = (
  ground (arith, same v, out, h.0, text_eq_iff v c, text_eq_iff c v),
  Simple-one_more c (v ∷ seen) (v ∷ seen') vs (λ x. ground (arith, same x)) (ground (arith, out))
      h.1,
)

-- The rest of a simple walk after a node on it.
cut :
    (edges : List Edge) (a b c : Text) (seen vs : List Text)
    → Walk edges a vs b
    → Simple seen vs
    → elem c vs ≡ true
    → (ws : List Text) × Walk edges c ws b × Simple (c ∷ []) ws
unfolding elem
cut edges a b c seen [] walk simple m = cc
cut edges a b c seen (v ∷ vs) walk simple m = elim (Bool-cases (text_eq c v)) [
  | inl same ↦
      let e : v ≡ c = sym ((text_eq_iff c v).0 same) in
      let from_c : Walk edges c vs b = rw (← e) walk.1 in
      (vs, from_c, Simple-fewer (v ∷ seen) (c ∷ []) vs (λ x h. ground (arith, h, e)) simple.1)
  | inr apart ↦ cut edges v b c (v ∷ seen) vs walk.1 simple.1 (ground (arith, m, apart))
]

pub erase :
    (edges : List Edge) (b : Text) (vs : List Text) (c : Text)
    → Walk edges c vs b
    → (ws : List Text) × Walk edges c ws b × Simple (c ∷ []) ws
unfolding elem
erase edges b [] c walk = ([], walk, tt)
erase edges b (v ∷ vs) c walk =
    let (ws, walk', simple) = erase edges b vs v walk.1 in
    elim (Bool-cases (elem c (v ∷ ws))) [
      | inl on_it ↦ cut edges c b c [] (v ∷ ws) (walk.0, walk') (refl, simple) on_it
      | inr off ↦ (
        v ∷ ws,
        (walk.0, walk'),
        (
          ground (arith, off, text_eq_iff v c, text_eq_iff c v),
          Simple-one_more c (v ∷ []) (v ∷ c ∷ []) ws (λ x. ground arith) (ground (arith, off))
              simple,
        ),
      )
    ]
