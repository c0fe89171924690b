-- ===== src/Jobs/Order.antt =====
-- About any interleaving of pushes with the steps of the pops of one thread.
use game_lift.Prelude.{
  ℕ, ◌≤◌, ◌≡◌, ◌≢◌, refl, sym, ap, ◌∙◌, Bool, false, Bool-cases, inl, inr, none, List, [], ◌∷◌,
  ◌++◌, append_assoc, ◌==◌, arith, total, total-append, total-around,
}
use game_lift.Server.State.{member}
use game_lift.Jobs.{
  stub, set_next, push_link, JobQueue, Pc, idle, second_read, reads_head, clears_stub, exchanges,
  joins_stub, reads_again, System, new_system, begin_push, end_push, consume,
}
use game_lift.Jobs.Chain.{
  nodes, unlinked, is_pair, Follows-elsewhere, Follows-new, nodes-append, unlinked-append,
  member-append, member_new, AllDistinct-append,
}
use game_lift.Jobs.Link.{linked, nodes-linked, total-linked, unlinked-member}
use game_lift.Jobs.Pops.{
  jobs, jobs-append, Knows, Inv, not_stub, linked-Chain, linked-order, consume-Inv,
}

-- A step of a thread that pushes, or of the consumer, which calls `Pop` again and again. Each job is new.
pub data Step (s : System) : System → Type 0 where
  begins : (node : ℕ) → node ≢ stub → member node s.pushed ≡ false → Step s (begin_push node s)
  finishes :
      (before : List (ℕ × ℕ)) (prev node : ℕ) (behind : List (ℕ × ℕ))
      → s.pushing ≡ before ++ ((prev, node) ∷ behind)
      → Step s (end_push prev node (before ++ behind) s)
  consumes : Step s (consume s)

pub data Reach : System → Type 0 where
  start : Reach new_system
  later : {s t : System} → Reach s → Step s t → Reach t

member-jobs : (n : ℕ) (ns : List ℕ) → n ≢ stub → member n (jobs ns) ≡ false → member n ns ≡ false
member-jobs n [] ne h = refl
member-jobs n (m ∷ ns) ne h = elim (Bool-cases (m == stub)) [
  | inl is_stub ↦
      let later = member-jobs n ns ne (ground (arith, h, is_stub)) in
      ground (arith, later, is_stub, ne)
  | inr is_job ↦
      let later = member-jobs n ns ne (ground (arith, h, is_job)) in
      ground (arith, later, h, is_job)
]

Knows-begin :
    (pc : Pc) (node : ℕ) (q : JobQueue) (rest : List (ℕ × Bool))
    → node ≢ stub
    → Knows pc q rest
    → Knows pc
        (record q { head = node; next = set_next q.next node none })
        (rest ++ ((node, false) ∷ []))
Knows-begin idle node q rest ne k = tt
Knows-begin second_read node q rest ne k = k
Knows-begin reads_head node q rest ne k = k
Knows-begin clears_stub node q rest ne k =
    rw (nodes-append rest node false) (member_new stub (q.tail ∷ nodes rest) node k ne)
Knows-begin exchanges node q rest ne (k, free) = (
  rw (nodes-append rest node false) (member_new stub (q.tail ∷ nodes rest) node k ne),
  ground (arith, free, ne),
)
Knows-begin (joins_stub prev) node q rest ne k = k
Knows-begin reads_again node q rest ne k = k

Knows-link :
    (pc : Pc) (prev node : ℕ) (q : JobQueue) (rest : List (ℕ × Bool))
    → 1 ≤ total (is_pair prev node) (unlinked q.tail rest)
    → Knows pc q rest
    → Knows pc (push_link prev node q) (linked prev node q.tail rest)
unfolding push_link
Knows-link idle prev node q rest h k = tt
Knows-link second_read prev node q rest h k = k
Knows-link reads_head prev node q rest h k = k
Knows-link clears_stub prev node q rest h k = rw (nodes-linked prev node q.tail rest) k
Knows-link exchanges prev node q rest h (k, free) =
    let there = unlinked-member prev node q.tail rest h in
    let other : (prev == stub) ≡ false =
      let different : prev ≢ stub = λ e. absurd (ground (arith, there, k, e)) in
      not_stub prev different in
    (rw (nodes-linked prev node q.tail rest) k, rw other free)
Knows-link (joins_stub before) prev node q rest h k = k
Knows-link reads_again prev node q rest h k = k

begins-Inv :
    {s : System} (node : ℕ)
    → node ≢ stub
    → member node s.pushed ≡ false
    → Inv s
    → Inv (begin_push node s)
unfolding begin_push total
begins-Inv {s} node ne new i =
    let new_here : member node (jobs (s.queue.tail ∷ nodes i.rest)) ≡ false =
      member-append node s.popped (jobs (s.queue.tail ∷ nodes i.rest)) (rw⁻¹ i.order new) in
    let apart = member-jobs node (s.queue.tail ∷ nodes i.rest) ne new_here in
    let kept =
      Follows-elsewhere s.queue.next node none s.queue.tail i.rest s.queue.head apart
        i.chain.follows in
    let is_job : jobs (node ∷ []) ≡ node ∷ [] = rw (not_stub node ne) refl in
    record {
      rest = i.rest ++ ((node, false) ∷ []);
      chain = record {
        follows =
            Follows-new (set_next s.queue.next node none) node s.queue.tail i.rest s.queue.head
              (ground arith) kept;
        distinct =
            rw (nodes-append i.rest node false)
              (AllDistinct-append node (s.queue.tail ∷ nodes i.rest) i.chain.distinct apart);
      };
      links = λ x y.
          rw (unlinked-append s.queue.next node s.queue.tail i.rest s.queue.head i.chain.follows) (
            omega (
              arith,
              i.links x y,
              total-append (is_pair x y) (unlinked s.queue.tail i.rest) ((s.queue.head, node) ∷ []),
            ));
      knows = Knows-begin s.consumer node s.queue i.rest ne i.knows;
      order =
          ap (λ ns. ns ++ (node ∷ [])) i.order
          ∙ append_assoc s.popped (jobs (s.queue.tail ∷ nodes i.rest)) (node ∷ [])
          ∙ ap (λ ns. s.popped ++ ns)
              (sym (
                ap (λ ns. jobs (s.queue.tail ∷ ns)) (nodes-append i.rest node false)
                ∙ jobs-append (s.queue.tail ∷ nodes i.rest) (node ∷ [])
                ∙ ap (λ ns. jobs (s.queue.tail ∷ nodes i.rest) ++ ns) is_job));
    }

finishes-Inv :
    {s : System} (before : List (ℕ × ℕ)) (prev node : ℕ) (behind : List (ℕ × ℕ))
    → s.pushing ≡ before ++ ((prev, node) ∷ behind)
    → Inv s
    → Inv (end_push prev node (before ++ behind) s)
unfolding end_push push_link
finishes-Inv {s} before prev node behind e i =
    let some_there : 1 ≤ total (is_pair prev node) (unlinked s.queue.tail i.rest) =
      let own : is_pair prev node (prev, node) ≡ 1 = ground arith in
      omega (
        arith,
        own,
        i.links prev node,
        ap (total (is_pair prev node)) e,
        total-around (is_pair prev node) before (prev, node) behind,
      ) in
    record {
      rest = linked prev node s.queue.tail i.rest;
      chain = linked-Chain i prev node some_there;
      links = λ x y. omega (
        arith,
        i.links x y,
        ap (total (is_pair x y)) e,
        total-around (is_pair x y) before (prev, node) behind,
        total-append (is_pair x y) before behind,
        total-linked prev node x y s.queue.tail i.rest some_there,
      );
      knows = Knows-link s.consumer prev node s.queue i.rest some_there i.knows;
      order = linked-order i prev node;
    }

pub Reach-Inv : {s : System} → Reach s → Inv s
unfolding new_system total
Reach-Inv start = record {
  rest = [];
  chain = record { follows = (refl, refl); distinct = (refl, tt) };
  links = λ x y. refl;
  knows = tt;
  order = refl;
}
Reach-Inv (later r (begins node ne new)) = begins-Inv node ne new (Reach-Inv r)
Reach-Inv (later r (finishes before prev node behind e)) =
    finishes-Inv before prev node behind e (Reach-Inv r)
Reach-Inv (later r consumes) = consume-Inv (Reach-Inv r)

-- In every interleaving of the steps of any number of pushes with the steps of the pops of one
-- thread: the jobs that were popped are the first of those that were pushed, in the order in which
-- the pushes exchanged the head. So no job is lost, popped twice, or popped before an earlier one.
pub popped_in_order : {s : System} → Reach s → (waiting : List ℕ) × (s.pushed ≡ s.popped ++ waiting)
popped_in_order {s} r = let i = Reach-Inv r in (jobs (s.queue.tail ∷ nodes i.rest), i.order)
