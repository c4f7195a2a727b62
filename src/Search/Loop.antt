-- ===== src/Search/Loop.antt =====
-- src/server.c, process_search_request: the rounds of its loop.
use ed2kd.Base.{
  ℕ, zero, suc, ◌+◌, ◌-◌, ◌≤◌, ◌<◌, ◌≡◌, ◌≢◌, refl, List, [], ◌∷◌, Option, none, some, arith,
}
use ed2kd.Wire.{Out, go, malformed}
use ed2kd.Search.Nodes.{PaysOut, read_node_paid}
use ed2kd.Search.{
  Leaf, Node, leaf, Item, logical, term, read_node, Frame, left_of, right_of, Climb, done, descend,
  climb, search_loop, parse_search,
}

-- What the loop does when it has climbed from a finished node.
unfoldable pub resume : (ℕ → ℕ) → ℕ → ℕ → ℕ → Climb → Option (Out (Unit {0}) Node)
resume m e fuel p (done n) = some (go p tt n)
resume m e fuel p (descend up) = search_loop m e fuel p up

-- How many ancestors still want their right child.
lefts : List Frame → ℕ
lefts [] = 0
lefts (left_of op ∷ up) = suc (lefts up)
lefts (right_of op l ∷ up) = lefts up

climb-lefts :
    (n : Node) (up up' : List Frame) → climb n up ≡ descend up' → lefts up ≡ suc (lefts up')
unfolding climb lefts
climb-lefts n [] up' h = cc
climb-lefts n (left_of op ∷ up) up' h = ground arith
climb-lefts n (right_of op l ∷ up) up' h = climb-lefts _ up up' h

-- One round of the loop, for the node that was read.
unfoldable pub round :
    (ℕ → ℕ) → ℕ → ℕ → List Frame → Out (Unit {0}) Item → Option (Out (Unit {0}) Node)
round m e fuel up (malformed s) = some (malformed s)
round m e fuel up (go p s (logical op)) = search_loop m e fuel p (left_of op ∷ up)
round m e fuel up (go p s (term t)) = resume m e fuel p (climb (leaf t) up)

round_term :
    (m : ℕ → ℕ) (e fuel p p' : ℕ) (s : Unit {0}) (t : Leaf) (up : List Frame) (k : Climb)
    → read_node m e p tt ≡ go p' s (term t)
    → climb (leaf t) up ≡ k
    → search_loop m e (suc fuel) p up ≡ resume m e fuel p' k
unfolding search_loop resume
round_term m e fuel p p' s t up (done n) h eq = rw (h, search_loop, eq) refl
round_term m e fuel p p' s t up (descend up') h eq = rw (h, search_loop, eq) refl

pub search_loop-round :
    (m : ℕ → ℕ) (e fuel p : ℕ) (up : List Frame) (o : Out (Unit {0}) Item)
    → read_node m e p tt ≡ o
    → search_loop m e (suc fuel) p up ≡ round m e fuel up o
unfolding search_loop round
search_loop-round m e fuel p up (malformed s) h = rw (h, search_loop) refl
search_loop-round m e fuel p up (go p' s (logical op)) h = rw (h, search_loop) refl
search_loop-round m e fuel p up (go p' s (term t)) h = round_term m e fuel p p' s t up _ h refl

-- Each round leaves less to read or fewer open nodes.
module _ (m : ℕ → ℕ) (e : ℕ) where
  Ends : ℕ → Type 0
  Ends fuel = (p : ℕ) (up : List Frame) → e - p + lefts up < fuel → search_loop m e fuel p up ≢ none

  resume-Ends :
      (fuel p p' : ℕ) (n : Node) (up : List Frame) (k : Climb)
      → Ends fuel
      → p ≤ p'
      → e - p + lefts up < suc fuel
      → climb n up ≡ k
      → resume m e fuel p' k ≢ none
  unfolding Ends resume
  resume-Ends fuel p p' n up (done root) ih le lt eq = λ h. cc
  resume-Ends fuel p p' n up (descend up') ih le lt eq =
      ih p' up' (omega (arith, climb-lefts n up up' eq))

  round-Ends :
      (fuel p : ℕ) (up : List Frame) (o : Out (Unit {0}) Item)
      → Ends fuel
      → e - p + lefts up < suc fuel
      → PaysOut e p o
      → round m e fuel up o ≢ none
  unfolding Ends round lefts
  round-Ends fuel p up (malformed s) ih lt h = λ eq. cc
  round-Ends fuel p up (go p' s (logical op)) ih lt h = ih p' (left_of op ∷ up) (omega arith)
  round-Ends fuel p up (go p' s (term t)) ih lt h = resume-Ends fuel p p' (leaf t) up _ ih h lt refl

  ends : (fuel : ℕ) → Ends fuel
  unfolding Ends
  ends zero p up lt = absurd (omega arith)
  ends (suc fuel) p up lt =
      rw (search_loop-round m e fuel p up _ refl)
        (round-Ends fuel p up _ (ends fuel) lt (read_node_paid m e p _ refl))

  -- The loop of process_search_request ends for every packet: the fuel of `parse_search`, one round
  -- more than there are bytes, is never used up.
  pub parse_search-ends : parse_search m e ≢ none
  unfolding parse_search lefts Ends
  parse_search-ends = ends (e + 1) 0 [] (omega arith)
