-- ===== src/Search/Complete.antt =====
-- src/server.c, process_search_request: every search in prefix notation.
use ed2kd.Base.{
  ℕ, zero, suc, ◌+◌, ◌≡◌, ◌↔◌, refl, List, [], ◌∷◌, some, arith, sym, ◌∙◌, ap, inl, inr,
  Option-cases,
}
use ed2kd.Wire.{Out, go, malformed}
use ed2kd.Search.Loop.{resume, round, search_loop-round, parse_search-ends}
use ed2kd.Search.Prefix.{Reads, one_leaf, two_operands, parse_search-Reads}
use ed2kd.Search.{
  Node, leaf, Item, logical, term, read_node, Frame, left_of, right_of, Climb, done, descend, climb,
  search_loop, parse_search,
}

module _ (m : ℕ → ℕ) (e : ℕ) where
  -- The nodes of a tree, which are the rounds that the loop takes for it.
  rounds : {p q : ℕ} {t : Node} → Reads m e p q t → ℕ
  rounds (one_leaf p p' t h) = 1
  rounds (two_operands p p₁ p₂ p₃ op l r h reads_l reads_r) = suc (rounds reads_l + rounds reads_r)

  -- From a tree's first byte on the loop comes to its end, and climbs from its root.
  Reads-rounds :
      {p q : ℕ} {t : Node} (reads : Reads m e p q t) (fuel : ℕ) (up : List Frame)
      → search_loop m e (rounds reads + fuel) p up ≡ resume m e fuel q (climb t up)
  unfolding rounds round resume climb
  Reads-rounds (one_leaf p p' t h) fuel up =
      ap (λ n. search_loop m e n p up) (omega arith) ∙ search_loop-round m e fuel p up _ h
  Reads-rounds (two_operands p p₁ p₂ p₃ op l r h reads_l reads_r) fuel up =
      ap (λ n. search_loop m e n p up) (omega arith)
      ∙ search_loop-round m e (rounds reads_l + (rounds reads_r + fuel)) p up _ h
      ∙ Reads-rounds reads_l (rounds reads_r + fuel) (left_of op ∷ up)
      ∙ Reads-rounds reads_r fuel (right_of op l ∷ up)

  Grows : ℕ → Type 0
  Grows fuel =
      (p : ℕ) (up : List Frame) (r : Out (Unit {0}) Node) (more : ℕ)
      → search_loop m e fuel p up ≡ some r
      → search_loop m e (fuel + more) p up ≡ some r

  resume-Grows :
      (fuel p more : ℕ) (k : Climb) (r : Out (Unit {0}) Node)
      → Grows fuel
      → resume m e fuel p k ≡ some r
      → resume m e (fuel + more) p k ≡ some r
  unfolding Grows resume
  resume-Grows fuel p more (done n) r ih h = h
  resume-Grows fuel p more (descend up) r ih h = ih p up r more h

  round-Grows :
      (fuel more : ℕ) (up : List Frame) (o : Out (Unit {0}) Item) (r : Out (Unit {0}) Node)
      → Grows fuel
      → round m e fuel up o ≡ some r
      → round m e (fuel + more) up o ≡ some r
  unfolding Grows round
  round-Grows fuel more up (malformed s) r ih h = h
  round-Grows fuel more up (go p s (logical op)) r ih h = ih p (left_of op ∷ up) r more h
  round-Grows fuel more up (go p s (term t)) r ih h =
      resume-Grows fuel p more (climb (leaf t) up) r ih h

  grows : (fuel : ℕ) → Grows fuel
  unfolding Grows search_loop
  grows zero p up r more h = cc
  grows (suc fuel) p up r more h =
      ap (λ n. search_loop m e n p up) {y = suc (fuel + more)} (omega arith)
      ∙ search_loop-round m e (fuel + more) p up _ refl
      ∙ round-Grows fuel more up (read_node m e p tt) r (grows fuel)
          (sym (search_loop-round m e fuel p up _ refl) ∙ h)

  Reads-parse_search :
      (end : ℕ) (root : Node) → Reads m e 0 end root → parse_search m e ≡ some (go end tt root)
  unfolding parse_search Grows climb resume
  Reads-parse_search end root reads = elim (Option-cases (parse_search m e)) [
    | inl fails ↦ absurd (parse_search-ends m e fails)
    | inr (r, h) ↦
        h
        ∙ sym (grows (e + 1) 0 [] r (rounds reads) h)
        ∙ ap (λ n. search_loop m e n 0 []) (omega arith)
        ∙ Reads-rounds reads (e + 1) []
  ]

  -- A search is accepted with a tree exactly if the packet's bytes, from the first one on, are that
  -- tree in prefix notation: the loop over parents reads what recursive descent would, and builds
  -- the same tree.
  pub parse_search_iff :
      (end : ℕ) (root : Node) → (parse_search m e ≡ some (go end tt root)) ↔ Reads m e 0 end root
  parse_search_iff end root = (parse_search-Reads m e end root, Reads-parse_search end root)
