-- ===== src/Jobs/Pops.antt =====
-- What holds of the queue between any two steps, and the steps of `Pop`.
use game_lift.Prelude.{
  ℕ, ◌+◌, ◌≤◌, ◌≡◌, ◌≢◌, refl, sym, ap, subst, ◌∙◌, Bool, true, false, Bool-cases, inl, inr, none,
  some, List, [], ◌∷◌, ◌++◌, append-nil, append_assoc, ◌==◌, if◌then◌else◌, arith, total,
  total-append,
}
use game_lift.Server.State.{member}
use game_lift.Jobs.{
  stub, set_next, JobQueue, Pc, idle, second_read, reads_head, clears_stub, exchanges, reads_again,
  joins_stub, Turn, goes_on, returns, take_tail, leave_stub, pop_step, System, stepped, consume,
}
use game_lift.Jobs.Chain.{
  nodes, Follows, AllDistinct, unlinked, is_pair, Follows-elsewhere, Follows-new, nodes-append,
  unlinked-append, head-member, AllDistinct-append,
}
use game_lift.Jobs.Link.{linked, nodes-linked, total-linked, Follows-linked}

-- The jobs among the nodes.
abbrev pub jobs : List ℕ → List ℕ
jobs [] = []
jobs (n ∷ ns) = let rest = jobs ns in if n == stub then rest else n ∷ rest

-- From the tail a chain of different nodes leads to the head.
pub record Chain (q : JobQueue) (rest : List (ℕ × Bool)) : Type 0 where
  pub follows : Follows q.next q.tail rest q.head
  pub distinct : AllDistinct (q.tail ∷ nodes rest)

-- What the consumer knows between two steps.
abbrev pub Knows : Pc → JobQueue → List (ℕ × Bool) → Type 0
Knows idle q rest = Unit {0}
Knows second_read q rest = q.tail ≢ stub
Knows reads_head q rest = q.tail ≢ stub
Knows clears_stub q rest = member stub (q.tail ∷ nodes rest) ≡ false
Knows exchanges q rest = (member stub (q.tail ∷ nodes rest) ≡ false) × (q.next stub ≡ none)
Knows (joins_stub prev) q rest = q.tail ≢ stub
Knows reads_again q rest = q.tail ≢ stub

-- The link that the consumer is to make itself.
abbrev pub own_link : Pc → List (ℕ × ℕ)
own_link idle = []
own_link second_read = []
own_link reads_head = []
own_link clears_stub = []
own_link exchanges = []
own_link (joins_stub prev) = (prev, stub) ∷ []
own_link reads_again = []

pub record Inv (s : System) : Type 0 where
  pub rest : List (ℕ × Bool)
  pub chain : Chain s.queue rest
  pub links :
      (x y : ℕ)
      → total (is_pair x y) s.pushing + total (is_pair x y) (own_link s.consumer)
        ≡ total (is_pair x y) (unlinked s.queue.tail rest)
  pub knows : Knows s.consumer s.queue rest
  pub order : s.pushed ≡ s.popped ++ jobs (s.queue.tail ∷ nodes rest)

pub jobs-append : (xs ys : List ℕ) → jobs (xs ++ ys) ≡ jobs xs ++ jobs ys
jobs-append [] ys = refl
jobs-append (n ∷ ns) ys = elim (Bool-cases (n == stub)) [
  | inl is_stub ↦ rw is_stub (jobs-append ns ys)
  | inr is_job ↦ rw is_job (ap (◌∷◌ n) (jobs-append ns ys))
]

pub not_stub : (a : ℕ) → a ≢ stub → (a == stub) ≡ false
not_stub a ne = ground (arith, ne)

-- The first link is there: the tail moves on, and a job is returned.
module _ {s : System} (i : Inv s) where
  take_tail-Inv :
      (otherwise : Turn)
      → s.queue.tail ≢ stub
      → own_link s.consumer ≡ []
      → Inv (stepped (otherwise, s.queue) s)
      → Inv (stepped (take_tail (s.queue.next s.queue.tail) otherwise s.queue) s)
  unfolding take_tail stepped total
  take_tail-Inv otherwise ne none_own wait = by_rest i.rest i.chain i.links i.order
    where
      by_rest :
          (rest : List (ℕ × Bool))
          → Chain s.queue rest
          → ((x y : ℕ)
              → total (is_pair x y) s.pushing + total (is_pair x y) (own_link s.consumer)
                ≡ total (is_pair x y) (unlinked s.queue.tail rest))
          → s.pushed ≡ s.popped ++ jobs (s.queue.tail ∷ nodes rest)
          → Inv (stepped (take_tail (s.queue.next s.queue.tail) otherwise s.queue) s)
      by_rest [] c l o = rw c.follows.1 wait
      by_rest ((b, false) ∷ rest) c l o = rw c.follows.0 wait
      by_rest ((b, true) ∷ rest) c l o = rw c.follows.0 (record {
        rest = rest;
        chain = record { follows = c.follows.1; distinct = c.distinct.1 };
        links = λ x y. omega (arith, l x y, ap (total (is_pair x y)) none_own);
        knows = tt;
        order =
            o
            ∙ ap
                (λ (t : Bool).
                  s.popped
                  ++ (if t then jobs (b ∷ nodes rest) else s.queue.tail ∷ jobs (b ∷ nodes rest)))
                (not_stub s.queue.tail ne)
            ∙ sym (append_assoc s.popped (s.queue.tail ∷ []) (jobs (b ∷ nodes rest)));
      })

  known : (pc : Pc) → s.consumer ≡ pc → Knows pc s.queue i.rest
  known pc e = subst (λ c. Knows c s.queue i.rest) e i.knows

  -- The consumer goes on, or returns null, and the queue stays.
  still :
      (pc : Pc)
      → own_link s.consumer ≡ own_link pc
      → Knows pc s.queue i.rest
      → Inv (record s { consumer = pc })
  still pc same known = record {
    rest = i.rest;
    chain = i.chain;
    links = λ x y.
        ap (λ ls. total (is_pair x y) s.pushing + total (is_pair x y) ls) (sym same) ∙ i.links x y;
    knows = known;
    order = i.order;
  }

  leave_stub-Inv :
      s.queue.tail ≡ stub
      → own_link s.consumer ≡ []
      → Inv (stepped (leave_stub (s.queue.next s.queue.tail) s.queue) s)
  unfolding leave_stub stepped total
  leave_stub-Inv first none_own = by_rest i.rest i.chain i.links i.order
    where
      by_rest :
          (rest : List (ℕ × Bool))
          → Chain s.queue rest
          → ((x y : ℕ)
              → total (is_pair x y) s.pushing + total (is_pair x y) (own_link s.consumer)
                ≡ total (is_pair x y) (unlinked s.queue.tail rest))
          → s.pushed ≡ s.popped ++ jobs (s.queue.tail ∷ nodes rest)
          → Inv (stepped (leave_stub (s.queue.next s.queue.tail) s.queue) s)
      by_rest [] c l o = rw c.follows.1 (still idle none_own tt)
      by_rest ((b, false) ∷ rest) c l o = rw c.follows.0 (still idle none_own tt)
      by_rest ((b, true) ∷ rest) c l o =
          let is_stub : (s.queue.tail == stub) ≡ true = ground (arith, first) in
          rw c.follows.0 (record {
            rest = rest;
            chain = record { follows = c.follows.1; distinct = c.distinct.1 };
            links = λ x y. omega (arith, l x y, ap (total (is_pair x y)) none_own);
            knows = λ e. absurd (ground (arith, e, first, c.distinct.0));
            order =
                o
                ∙ ap
                    (λ (t : Bool).
                      s.popped
                      ++ (if t
                          then jobs (b ∷ nodes rest)
                          else s.queue.tail ∷ jobs (b ∷ nodes rest)))
                    is_stub;
          })

  alone :
      s.queue.tail ≡ s.queue.head
      → s.queue.tail ≢ stub
      → member stub (s.queue.tail ∷ nodes i.rest) ≡ false
  alone same ne = by_rest i.rest i.chain
    where
      by_rest :
          (rest : List (ℕ × Bool))
          → Chain s.queue rest
          → member stub (s.queue.tail ∷ nodes rest) ≡ false
      by_rest [] c = ground (arith, ne)
      by_rest ((b, true) ∷ rest) c =
          let there = head-member s.queue.next b rest s.queue.head c.follows.1 in
          absurd (ground (arith, there, c.distinct.0, same))
      by_rest ((b, false) ∷ rest) c =
          let there = head-member s.queue.next b rest s.queue.head c.follows.1 in
          absurd (ground (arith, there, c.distinct.0, same))

  clears-Inv :
      own_link s.consumer ≡ []
      → Knows clears_stub s.queue i.rest
      → Inv (stepped (pop_step clears_stub s.queue) s)
  unfolding pop_step stepped
  clears-Inv none_own apart = record {
    rest = i.rest;
    chain = record {
      follows =
          Follows-elsewhere s.queue.next stub none s.queue.tail i.rest s.queue.head apart
            i.chain.follows;
      distinct = i.chain.distinct;
    };
    links = λ x y.
        ap (λ ls. total (is_pair x y) s.pushing + total (is_pair x y) ls) (sym none_own)
        ∙ i.links x y;
    knows = (apart, refl);
    order = i.order;
  }

  exchanges-Inv :
      own_link s.consumer ≡ []
      → Knows exchanges s.queue i.rest
      → Inv (stepped (pop_step exchanges s.queue) s)
  unfolding pop_step stepped total
  exchanges-Inv none_own (apart, free) = record {
    rest = i.rest ++ ((stub, false) ∷ []);
    chain = record {
      follows = Follows-new s.queue.next stub s.queue.tail i.rest s.queue.head free i.chain.follows;
      distinct =
          rw (nodes-append i.rest stub false)
            (AllDistinct-append stub (s.queue.tail ∷ nodes i.rest) i.chain.distinct apart);
    };
    links = λ x y.
        rw (unlinked-append s.queue.next stub s.queue.tail i.rest s.queue.head i.chain.follows) (
          omega (
            arith,
            i.links x y,
            ap (total (is_pair x y)) none_own,
            total-append (is_pair x y) (unlinked s.queue.tail i.rest) ((s.queue.head, stub) ∷ []),
          ));
    knows = λ e. absurd (ground (arith, e, apart));
    order =
        i.order
        ∙ ap (λ ns. s.popped ++ ns)
            (sym (
              ap (λ ns. jobs (s.queue.tail ∷ ns)) (nodes-append i.rest stub false)
              ∙ jobs-append (s.queue.tail ∷ nodes i.rest) (stub ∷ [])
              ∙ append-nil (jobs (s.queue.tail ∷ nodes i.rest))));
  }

  -- A link is made, of a push or of the consumer.
  pub linked-Chain :
      (prev node : ℕ)
      → 1 ≤ total (is_pair prev node) (unlinked s.queue.tail i.rest)
      → Chain
          (record s.queue { next = set_next s.queue.next prev (some node) })
          (linked prev node s.queue.tail i.rest)
  linked-Chain prev node some_there = record {
    follows =
        Follows-linked s.queue.next prev node s.queue.tail i.rest s.queue.head i.chain.distinct
          some_there i.chain.follows;
    distinct = rw (nodes-linked prev node s.queue.tail i.rest) i.chain.distinct;
  }

  pub linked-order :
      (prev node : ℕ)
      → s.pushed ≡ s.popped ++ jobs (s.queue.tail ∷ nodes (linked prev node s.queue.tail i.rest))
  linked-order prev node =
      i.order
      ∙ ap (λ ns. s.popped ++ jobs (s.queue.tail ∷ ns))
          (sym (nodes-linked prev node s.queue.tail i.rest))

  joins-Inv :
      (prev : ℕ)
      → own_link s.consumer ≡ (prev, stub) ∷ []
      → s.queue.tail ≢ stub
      → Inv (stepped (pop_step (joins_stub prev) s.queue) s)
  unfolding pop_step stepped total
  joins-Inv prev own ne =
      let mine : is_pair prev stub (prev, stub) ≡ 1 = ground arith in
      let some_there : 1 ≤ total (is_pair prev stub) (unlinked s.queue.tail i.rest) =
        omega (arith, mine, i.links prev stub, ap (total (is_pair prev stub)) own) in
      record {
        rest = linked prev stub s.queue.tail i.rest;
        chain = linked-Chain prev stub some_there;
        links = λ x y. omega (
          arith,
          i.links x y,
          ap (total (is_pair x y)) own,
          total-linked prev stub x y s.queue.tail i.rest some_there,
        );
        knows = ne;
        order = linked-order prev stub;
      }

  pop_step-Inv : (pc : Pc) → s.consumer ≡ pc → Inv (stepped (pop_step pc s.queue) s)
  unfolding pop_step stepped
  pop_step-Inv idle e = elim (Bool-cases (s.queue.tail == stub)) [
    | inl first ↦ rw first (leave_stub-Inv (ground (arith, first)) (ap own_link e))
    | inr other ↦
        let ne : s.queue.tail ≢ stub = ground (arith, other) in
        rw other (
          take_tail-Inv (goes_on reads_head) ne (ap own_link e)
            (still reads_head (ap own_link e) ne))
  ]
  pop_step-Inv second_read e =
      let ne = known second_read e in
      take_tail-Inv (goes_on reads_head) ne (ap own_link e) (still reads_head (ap own_link e) ne)
  pop_step-Inv reads_head e = elim (Bool-cases (s.queue.tail == s.queue.head)) [
    | inl same ↦
        rw same
          (still clears_stub (ap own_link e) (alone (ground (arith, same)) (known reads_head e)))
    | inr other ↦ rw other (still idle (ap own_link e) tt)
  ]
  pop_step-Inv clears_stub e = clears-Inv (ap own_link e) (known clears_stub e)
  pop_step-Inv exchanges e = exchanges-Inv (ap own_link e) (known exchanges e)
  pop_step-Inv (joins_stub prev) e = joins-Inv prev (ap own_link e) (known (joins_stub prev) e)
  pop_step-Inv reads_again e =
      take_tail-Inv (returns none) (known reads_again e) (ap own_link e)
        (still idle (ap own_link e) tt)

  pub consume-Inv : Inv (consume s)
  unfolding consume
  consume-Inv = pop_step-Inv s.consumer refl
