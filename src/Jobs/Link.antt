-- ===== src/Jobs/Link.antt =====
-- A push ends: one more node of the chain is linked to the node before it.
use game_lift.Prelude.{
  ℕ, ◌+◌, ◌≤◌, ◌≡◌, ◌≢◌, refl, ap, Bool, true, false, Bool-cases, ◌&&◌, inl, inr, Option, some,
  List, [], ◌∷◌, ◌==◌, if◌then◌else◌, arith, total,
}
use game_lift.Server.State.{member}
use game_lift.Jobs.{set_next}
use game_lift.Jobs.Chain.{nodes, Follows, AllDistinct, unlinked, is_pair, Follows-elsewhere}

-- The chain with the link from `prev` to `node`.
pub linked : ℕ → ℕ → ℕ → List (ℕ × Bool) → List (ℕ × Bool)
linked prev node a [] = []
linked prev node a ((b, true) ∷ rest) = (b, true) ∷ linked prev node b rest
linked prev node a ((b, false) ∷ rest) =
    let later = linked prev node b rest in
    if (a == prev) && (b == node) then (b, true) ∷ rest else (b, false) ∷ later

pub nodes-linked :
    (prev node a : ℕ) (rest : List (ℕ × Bool)) → nodes (linked prev node a rest) ≡ nodes rest
unfolding linked
nodes-linked prev node a [] = refl
nodes-linked prev node a ((b, true) ∷ rest) = ap (◌∷◌ b) (nodes-linked prev node b rest)
nodes-linked prev node a ((b, false) ∷ rest) = elim (Bool-cases ((a == prev) && (b == node))) [
  | inl here ↦ rw here refl
  | inr later ↦ rw later (ap (◌∷◌ b) (nodes-linked prev node b rest))
]

-- A link that is to be made leaves from a node of the chain.
pub unlinked-member :
    (prev node a : ℕ) (rest : List (ℕ × Bool))
    → 1 ≤ total (is_pair prev node) (unlinked a rest)
    → member prev (a ∷ nodes rest) ≡ true
unfolding total
unlinked-member prev node a [] some_there = absurd (omega arith)
unlinked-member prev node a ((b, true) ∷ rest) some_there =
    let later = unlinked-member prev node b rest some_there in ground (arith, later)
unlinked-member prev node a ((b, false) ∷ rest) some_there =
    elim (Bool-cases ((a == prev) && (b == node))) [
      | inl here ↦ ground (arith, here)
      | inr not_here ↦
          let later = unlinked-member prev node b rest (ground (arith, some_there, not_here)) in
          ground (arith, later)
    ]

pub total-linked :
    (prev node x y a : ℕ) (rest : List (ℕ × Bool))
    → 1 ≤ total (is_pair prev node) (unlinked a rest)
    → is_pair x y (prev, node) + total (is_pair x y) (unlinked a (linked prev node a rest))
      ≡ total (is_pair x y) (unlinked a rest)
unfolding linked total
total-linked prev node x y a [] some_there = absurd (omega arith)
total-linked prev node x y a ((b, true) ∷ rest) some_there =
    total-linked prev node x y b rest some_there
total-linked prev node x y a ((b, false) ∷ rest) some_there =
    elim (Bool-cases ((a == prev) && (b == node))) [
      | inl here ↦ rw here (ground (arith, here))
      | inr not_here ↦
          let later = total-linked prev node x y b rest (ground (arith, some_there, not_here)) in
          rw not_here (omega (arith, later))
    ]

pub Follows-linked :
    (next : ℕ → Option ℕ) (prev node a : ℕ) (rest : List (ℕ × Bool)) (head : ℕ)
    → AllDistinct (a ∷ nodes rest)
    → 1 ≤ total (is_pair prev node) (unlinked a rest)
    → Follows next a rest head
    → Follows (set_next next prev (some node)) a (linked prev node a rest) head
unfolding linked total
Follows-linked next prev node a [] head d some_there f = absurd (omega arith)
Follows-linked next prev node a ((b, true) ∷ rest) head d some_there (e, f) =
    let there = unlinked-member prev node b rest some_there in
    let different : prev ≢ a = λ same. absurd (ground (arith, there, d.0, same)) in
    (ground (arith, e, different), Follows-linked next prev node b rest head d.1 some_there f)
Follows-linked next prev node a ((b, false) ∷ rest) head d some_there (e, f) =
    elim (Bool-cases ((a == prev) && (b == node))) [
      | inl here ↦
          let first : a ≡ prev = ground (arith, here) in
          let second : b ≡ node = ground (arith, here) in
          rw here (
            ground (arith, first, second),
            Follows-elsewhere next prev (some node) b rest head (ground (arith, d.0, first)) f,
          )
      | inr not_here ↦
          let more : 1 ≤ total (is_pair prev node) (unlinked b rest) =
            ground (arith, some_there, not_here) in
          let there = unlinked-member prev node b rest more in
          let different : prev ≢ a = λ same. absurd (ground (arith, there, d.0, same)) in
          rw not_here
            (ground (arith, e, different), Follows-linked next prev node b rest head d.1 more f)
    ]
