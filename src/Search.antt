-- ===== src/Search.antt =====
-- src/server.c: process_search_request up to its call of client_search_files, with struct
-- search_node of src/db.h. The loop walks a tree of nodes by their parent pointers; here the
-- current node's ancestors are a list of frames, the nearest first.
pub mod Nodes
pub mod Loop
pub mod Prefix
pub mod Complete
pub mod Query
use ed2kd.Base.{
  ℕ, zero, suc, ◌+◌, ◌*◌, ◌^◌, Bool, true, false, List, [], ◌∷◌, ◌==◌, ◌&&◌, ◌||◌, Option, none,
  some, if◌then◌else◌, load16, load64, block,
}
use ed2kd.Wire.{P, Out, go, malformed, ◌>>=◌, ◌>>◌, pure, check, here, seek, read8, read16, read32}

-- ST_AND, ST_OR and ST_NOT
pub data Oper : Type 0 where
  and or not : Oper

-- The other node types, with their values; `empty` is ST_EMPTY.
pub data Leaf : Type 0 where
  empty : Leaf
  string extension codec type : List ℕ → Leaf
  minsize maxsize srcavail srccomplete minbitrate minlength : ℕ → Leaf

-- A finished node; a logical one has its string_term flag.
pub data Node : Type 0 where
  leaf : Leaf → Node
  branch : Oper → Bool → Node → Node → Node

abbrev pub string_term : Node → Bool
string_term (leaf (string s)) = true
string_term (leaf _) = false
string_term (branch op flag l r) = flag

-- What an ST_EMPTY node becomes: a logical node, still without children, or a finished leaf.
pub data Item : Type 0 where
  logical : Oper → Item
  term : Leaf → Item

abbrev Rd : Type 0 → Type 0
Rd = P (Unit {0})

-- A text: PB_READ_UINT16, the address, PB_SEEK.
unfoldable pub text : (ℕ → ℕ) → ℕ → Rd (List ℕ)
unfolding read16 seek
text m e = do len ← read16 m e; at ← here; seek e len; pure (block m at len)

unfoldable pub string_leaf : (ℕ → ℕ) → ℕ → Rd Item
unfolding seek text
string_leaf m e = do seek e 1; s ← text m e; pure (term (string s))

-- A text with a constraint of three bytes.
unfoldable pub constr_leaf : (ℕ → ℕ) → ℕ → Rd Item
unfolding seek text read16 read8 check
constr_leaf m e = do
  seek e 1
  s ← text m e
  tail1 ← read16 m e
  tail2 ← read8 m e
  (if 0x0001 == tail1 && 0x04 == tail2
      then pure (term (extension s))
      else if 0x0001 == tail1 && 0xd5 == tail2
      then pure (term (codec s))
      else if 0x0001 == tail1 && 0x03 == tail2
      then pure (term (type s))
      else (check false >> pure (term empty)))

unfoldable pub read64 : (ℕ → ℕ) → ℕ → Rd ℕ
unfolding seek
read64 m e = do at ← here; seek e 8; pure (load64 m at)

unfoldable pub int_leaf : (ℕ → ℕ) → ℕ → Rd Item
unfolding read8 read32 read64 check
int_leaf m e = do
  kind ← read8 m e
  v ← if 0x03 == kind then read32 m e else read64 m e
  constr ← read32 m e
  (if 0x02000101 == constr
      then pure (term (minsize v))
      else if 0x02000102 == constr
      then pure (term (maxsize v))
      else if 0x15000101 == constr
      then pure (term (srcavail v))
      else if 0x30000101 == constr
      then pure (term (srccomplete v))
      else if 0xd4000101 == constr
      then pure (term (minbitrate v))
      else if 0xd3000101 == constr
      then pure (term (minlength v))
      else (check false >> pure (term empty)))

-- The branch for an ST_EMPTY node. SO_AND, SO_OR and SO_NOT are compared with two bytes, the
-- others with one; a node that fits none of them stays ST_EMPTY, and nothing is read.
unfoldable pub read_node : (ℕ → ℕ) → ℕ → Rd Item
unfolding seek string_leaf constr_leaf int_leaf
read_node m e p =
    if 0x0000 == load16 m p
    then (seek e 2 >> pure (logical and)) p
    else if 0x0100 == load16 m p
    then (seek e 2 >> pure (logical or)) p
    else if 0x0200 == load16 m p
    then (seek e 2 >> pure (logical not)) p
    else if 0x01 == m p
    then string_leaf m e p
    else if 0x02 == m p
    then constr_leaf m e p
    else if 0x03 == m p || 0x08 == m p
    then int_leaf m e p
    else pure (term empty) p

-- An ancestor of the current node: its left child is being read, or its right one, and then the
-- left one is finished.
pub data Frame : Type 0 where
  left_of : Oper → Frame
  right_of : Oper → Node → Frame

-- Where `n = n->parent` leads from a finished node: out of the root, or to a new right child.
pub data Climb : Type 0 where
  done : Node → Climb
  descend : List Frame → Climb

unfoldable pub climb : Node → List Frame → Climb
climb n [] = done n
climb n (left_of op ∷ up) = descend (right_of op n ∷ up)
climb n (right_of op l ∷ up) = climb (branch op (string_term l && string_term n) l n) up

-- The loop, from a new node on; the fuel counts the nodes that are read, and `none` says that it
-- ran out.
unfoldable pub search_loop : (ℕ → ℕ) → ℕ → ℕ → ℕ → List Frame → Option (Out (Unit {0}) Node)
unfolding read_node climb
search_loop m e zero p up = none
search_loop m e (suc fuel) p up = elim (read_node m e p tt) [
  | malformed s ↦ some (malformed s)
  | go p' s (logical op) ↦ search_loop m e fuel p' (left_of op ∷ up)
  | go p' s (term t) ↦ elim (climb (leaf t) up) [
    | done root ↦ some (go p' s root)
    | descend up' ↦ search_loop m e fuel p' up'
  ]
]

-- The whole of it, with the packet at address 0.
unfoldable pub parse_search : (ℕ → ℕ) → ℕ → Option (Out (Unit {0}) Node)
unfolding search_loop
parse_search m e = search_loop m e (e + 1) 0 []
