-- ===== src/Search/Prefix.antt =====
-- src/server.c, process_search_request: its loop against the prefix notation of searches.
use ed2kd.Base.{
  ℕ, zero, suc, ◌+◌, ◌<◌, ◌≡◌, refl, List, [], ◌∷◌, ◌&&◌, Option, none, some, arith, sym, ◌∙◌,
}
use mathlib.Core.Path.{subst}
use ed2kd.Wire.{Out, go, malformed}
use ed2kd.Search.Loop.{resume, round, search_loop-round}
use ed2kd.Search.{
  Oper, Leaf, Node, leaf, branch, string_term, Item, logical, term, read_node, Frame, left_of,
  right_of, climb, search_loop, parse_search,
}

-- The bytes from one address up to another are a tree in prefix notation: a leaf, or an operator
-- and its two operands.
pub data Reads (m : ℕ → ℕ) (e : ℕ) : ℕ → ℕ → Node → Type 0 where
  one_leaf :
      (p p' : ℕ) (t : Leaf) → read_node m e p tt ≡ go p' tt (term t) → Reads m e p p' (leaf t)
  two_operands :
      (p p₁ p₂ p₃ : ℕ) (op : Oper) (l r : Node)
      → read_node m e p tt ≡ go p₁ tt (logical op)
      → Reads m e p₁ p₂ l
      → Reads m e p₂ p₃ r
      → Reads m e p p₃ (branch op (string_term l && string_term r) l r)

module _ (m : ℕ → ℕ) (e : ℕ) where
  -- A tree was read at the address, and the loop goes on above it with less fuel.
  abbrev Parsed : ℕ → ℕ → List Frame → ℕ → Node → Type 0
  Parsed fuel p up end root =
      (q : ℕ) × (t : Node) × (rest : ℕ) × Reads m e p q t
      × (rest < fuel)
      × (resume m e rest q (climb t up) ≡ some (go end tt root))

  Sound : ℕ → Type 0
  Sound bound =
      (fuel p : ℕ) (up : List Frame) (end : ℕ) (root : Node)
      → fuel < bound
      → search_loop m e fuel p up ≡ some (go end tt root)
      → Parsed fuel p up end root

  -- The operands of an operator, the right one after the left one.
  operands :
      (bound fuel p p₁ : ℕ) (up : List Frame) (op : Oper) (end : ℕ) (root : Node)
      → Sound bound
      → fuel < bound
      → read_node m e p tt ≡ go p₁ tt (logical op)
      → search_loop m e fuel p₁ (left_of op ∷ up) ≡ some (go end tt root)
      → Parsed (suc fuel) p up end root
  unfolding Sound resume climb
  operands bound fuel p p₁ up op end root ih lt h eq =
      let (p₂, l, rest, reads_l, lt', eq') = ih fuel p₁ (left_of op ∷ up) end root lt eq in
      let (p₃, r, rest', reads_r, lt'', eq'') =
        ih rest p₂ (right_of op l ∷ up) end root (omega arith) eq' in
      (
        p₃,
        branch op _ l r,
        rest',
        two_operands p p₁ p₂ p₃ op l r h reads_l reads_r,
        omega arith,
        eq'',
      )

  one_round :
      (bound fuel p : ℕ) (up : List Frame) (o : Out (Unit {0}) Item) (end : ℕ) (root : Node)
      → Sound bound
      → fuel < bound
      → read_node m e p tt ≡ o
      → round m e fuel up o ≡ some (go end tt root)
      → Parsed (suc fuel) p up end root
  unfolding round
  one_round bound fuel p up (malformed s) end root ih lt h eq = cc
  one_round bound fuel p up (go p' s (term t)) end root ih lt h eq =
      (p', leaf t, fuel, one_leaf p p' t h, omega arith, eq)
  one_round bound fuel p up (go p' s (logical op)) end root ih lt h eq =
      operands bound fuel p p' up op end root ih lt h eq

  sound : (bound : ℕ) → Sound bound
  unfolding Sound search_loop
  sound zero fuel p up end root lt eq = absurd (omega arith)
  sound (suc bound) zero p up end root lt eq = cc
  sound (suc bound) (suc fuel) p up end root lt eq =
      one_round bound fuel p up _ end root (sound bound) (omega arith) refl
        (sym (search_loop-round m e fuel p up _ refl) ∙ eq)

  abbrev ReadTo : ℕ → Option (Out (Unit {0}) Node) → Type 0
  ReadTo p none = Unit
  ReadTo p (some (malformed s)) = Unit
  ReadTo p (some (go q s t)) = Reads m e p q t

  at_root :
      (p end rest q : ℕ) (root t : Node)
      → Reads m e p q t
      → resume m e rest q (climb t []) ≡ some (go end tt root)
      → Reads m e p end root
  unfolding resume climb
  at_root p end rest q root t reads eq = subst (ReadTo p) eq reads

  -- A search that is accepted was read in prefix notation, from the packet's first byte on; the
  -- loop over parents builds the tree that recursive descent would.
  pub parse_search-Reads :
      (end : ℕ) (root : Node) → parse_search m e ≡ some (go end tt root) → Reads m e 0 end root
  unfolding parse_search Sound
  parse_search-Reads end root eq =
      let (q, t, rest, reads, lt, eq') = sound (e + 2) (e + 1) 0 [] end root (omega arith) eq in
      at_root 0 end rest q root t reads eq'
