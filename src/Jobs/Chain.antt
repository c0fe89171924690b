-- ===== src/Jobs/Chain.antt =====
-- The nodes of a queue, from the tail to the head, and which of them are linked to the node before.
use game_lift.Prelude.{
  ℕ, ◌≡◌, ◌≢◌, refl, ap, Bool, true, false, ◌&&◌, Option, none, some, List, [], ◌∷◌, ◌++◌, ◌==◌,
  if◌then◌else◌, arith,
}
use game_lift.Server.State.{member}
use game_lift.Jobs.{set_next}

abbrev pub nodes : List (ℕ × Bool) → List ℕ
nodes [] = []
nodes ((b, linked) ∷ rest) = b ∷ nodes rest

-- From node `a` on, the pointers lead through the linked nodes; a node before one that is not linked
-- has a null pointer; and `head` is the last.
abbrev pub Follows : (ℕ → Option ℕ) → ℕ → List (ℕ × Bool) → ℕ → Type 0
Follows next a [] head = (a ≡ head) × (next a ≡ none)
Follows next a ((b, true) ∷ rest) head = (next a ≡ some b) × Follows next b rest head
Follows next a ((b, false) ∷ rest) head = (next a ≡ none) × Follows next b rest head

abbrev pub AllDistinct : List ℕ → Type 0
AllDistinct [] = Unit {0}
AllDistinct (a ∷ ns) = (member a ns ≡ false) × AllDistinct ns

-- The links that are still to be made.
abbrev pub unlinked : ℕ → List (ℕ × Bool) → List (ℕ × ℕ)
unlinked a [] = []
unlinked a ((b, true) ∷ rest) = unlinked b rest
unlinked a ((b, false) ∷ rest) = (a, b) ∷ unlinked b rest

abbrev pub is_pair : ℕ → ℕ → ℕ × ℕ → ℕ
is_pair x y (a, b) = if (a == x) && (b == y) then 1 else 0

-- A pointer changes of a node that is not there.
pub Follows-elsewhere :
    (next : ℕ → Option ℕ) (node : ℕ) (v : Option ℕ) (a : ℕ) (rest : List (ℕ × Bool)) (head : ℕ)
    → member node (a ∷ nodes rest) ≡ false
    → Follows next a rest head
    → Follows (set_next next node v) a rest head
Follows-elsewhere next node v a [] head new (e, f) = (e, ground (arith, f))
Follows-elsewhere next node v a ((b, true) ∷ rest) head new (e, f) =
    (ground (arith, e), Follows-elsewhere next node v b rest head (ground arith) f)
Follows-elsewhere next node v a ((b, false) ∷ rest) head new (e, f) =
    (ground (arith, e), Follows-elsewhere next node v b rest head (ground arith) f)

-- A new node at the end, not linked yet.
pub Follows-new :
    (next : ℕ → Option ℕ) (node : ℕ) (a : ℕ) (rest : List (ℕ × Bool)) (head : ℕ)
    → next node ≡ none
    → Follows next a rest head
    → Follows next a (rest ++ ((node, false) ∷ [])) node
Follows-new next node a [] head free (e, f) = (f, (refl, free))
Follows-new next node a ((b, true) ∷ rest) head free (e, f) =
    (e, Follows-new next node b rest head free f)
Follows-new next node a ((b, false) ∷ rest) head free (e, f) =
    (e, Follows-new next node b rest head free f)

pub nodes-append :
    (rest : List (ℕ × Bool)) (node : ℕ) (linked : Bool)
    → nodes (rest ++ ((node, linked) ∷ [])) ≡ nodes rest ++ (node ∷ [])
nodes-append [] node linked = refl
nodes-append ((b, l) ∷ rest) node linked = ap (◌∷◌ b) (nodes-append rest node linked)

pub unlinked-append :
    (next : ℕ → Option ℕ) (node a : ℕ) (rest : List (ℕ × Bool)) (head : ℕ)
    → Follows next a rest head
    → unlinked a (rest ++ ((node, false) ∷ [])) ≡ unlinked a rest ++ ((head, node) ∷ [])
unlinked-append next node a [] head (e, f) = ap (λ h. (h, node) ∷ []) e
unlinked-append next node a ((b, true) ∷ rest) head (e, f) = unlinked-append next node b rest head f
unlinked-append next node a ((b, false) ∷ rest) head (e, f) =
    ap (◌∷◌ (a, b)) (unlinked-append next node b rest head f)

pub head-member :
    (next : ℕ → Option ℕ) (a : ℕ) (rest : List (ℕ × Bool)) (head : ℕ)
    → Follows next a rest head
    → member head (a ∷ nodes rest) ≡ true
head-member next a [] head (e, f) = ground (arith, e)
head-member next a ((b, true) ∷ rest) head (e, f) =
    let later = head-member next b rest head f in ground (arith, later)
head-member next a ((b, false) ∷ rest) head (e, f) =
    let later = head-member next b rest head f in ground (arith, later)

pub member-append : (n : ℕ) (xs ys : List ℕ) → member n (xs ++ ys) ≡ false → member n ys ≡ false
member-append n [] ys h = h
member-append n (x ∷ xs) ys h = member-append n xs ys (ground (arith, h))

pub member_new :
    (y : ℕ) (ys : List ℕ) (n : ℕ) → member y ys ≡ false → n ≢ y → member y (ys ++ (n ∷ [])) ≡ false
member_new y [] n h ne = ground (arith, ne)
member_new y (z ∷ zs) n h ne =
    let later = member_new y zs n (ground (arith, h)) ne in ground (arith, later, h)

pub AllDistinct-append :
    (n : ℕ) (xs : List ℕ) → AllDistinct xs → member n xs ≡ false → AllDistinct (xs ++ (n ∷ []))
AllDistinct-append n [] d new = (refl, tt)
AllDistinct-append n (x ∷ xs) d new =
    (member_new x xs n d.0 (ground (arith, new)), AllDistinct-append n xs d.1 (ground (arith, new)))
